-- ===== src/Book/Map/Revalued.antt =====
-- The loop of `OrderMap::insert` for a key that is in the table: it walks to the key and sets its value.
use itch_feed_handler.Common.{
  ℕ, zero, suc, ◌+◌, ◌%◌, ◌^◌, ◌≤◌, ◌<◌, ◌≡◌, ◌≢◌, arith, sym, ap, ◌∙◌, ℕ_discrete, some, update,
  ◌↔◌,
}
use Prim.Native.Nat.{◌∣◌}
use native.Mathlib.Nat.{mod-eq_of_lt}
use itch_feed_handler.Book.Map.{MapEntry, insert_from}
use itch_feed_handler.Book.Map.Probed.{entry_at, IsProbed, IsOnce, Stored, put-IsProbed, chain}
use itch_feed_handler.Book.Map.Found.{next_slot}
use itch_feed_handler.Book.Map.Inserted.{table_of, positive}

module _ (bits : ℕ) (home : ℕ → ℕ) (w : ℕ) where
  abbrev c : ℕ
  c = 2 ^ bits

  -- The table with another value in one slot.
  abbrev pub revalued : (ℕ → MapEntry) → ℕ → ℕ → ℕ → MapEntry
  revalued t v place = update t place (record (t place) { value = v })

  module _ (t : ℕ → MapEntry) (probed : IsProbed c home w t) (once : IsOnce c t) where
    key_kept : (v p s : ℕ) → (entry_at c (revalued t v (p % c)) s).key ≡ (entry_at c t s).key
    key_kept v p s = elim (ℕ_discrete (s % c) (p % c)) [
      | yes here ↦ ground arith
      | no there ↦ ground arith
    ]

    pub revalued-IsProbed :
        (v p : ℕ) → (entry_at c t p).key ≢ 0 → IsProbed c home w (revalued t v (p % c))
    revalued-IsProbed v p held =
        put-IsProbed c home w t p (record (entry_at c t p) { value = v }) (positive bits home w)
          probed
          (record {
            belongs = probed.placed p held;
            close = probed.near p held;
            before = λ d s place. let same = ap t place in ground (arith, probed.lean s, same);
          })
          held (λ h. ground (arith, probed.lean p h))

    pub revalued-IsOnce : (v p : ℕ) → IsOnce c (revalued t v (p % c))
    revalued-IsOnce v p s s' held same =
        once s s' (λ z. held (key_kept v p s ∙ z)) (sym (key_kept v p s) ∙ same ∙ key_kept v p s')

    pub revalued-Stored : (v p : ℕ) → Stored c (revalued t v (p % c)) (entry_at c t p).key v
    revalued-Stored v p = (p, ground arith, ground arith)

    pub revalued_others :
        (v p k u : ℕ)
        → (entry_at c t p).key ≢ k
        → Stored c t k u ↔ Stored c (revalued t v (p % c)) k u
    revalued_others v p k u other = (
      λ (s, key, value).
          let there : s % c ≢ p % c = λ e. other (sym (ap (λ i. (t i).key) e) ∙ key) in
          (s, ground arith, ground arith),
      λ (s, key, value).
          let there : s % c ≢ p % c =
            λ e. other (sym (ap (λ i. (t i).key) e) ∙ sym (key_kept v p s) ∙ key) in
          (s, ground arith, ground arith),
    )

    module _ (d : c ∣ 2 ^ 32) (small : w ≤ 2 ^ 16) (id v size a : ℕ) (valid_id : id ≢ 0) where
      pub insert_from_known :
          (j i n slot : ℕ) (x : MapEntry)
          → slot % c ≡ (a + j) % c
          → (entry_at c t (a + (j + i))).key ≡ id
          → (entry_at c t (a + (j + i))).probe_dist ≡ j + i
          → x.probe_dist ≡ j
          → i < n
          → insert_from (table_of bits home w t size) id v n x slot
            ≡ some (table_of bits home w (revalued t v ((a + (j + i)) % c)) size)
      unfolding insert_from
      insert_from_known j i zero slot x e key dist far more = absurd (omega arith)
      insert_from_known j zero (suc n) slot x e key dist far more =
          let here : slot % c ≡ (a + (j + 0)) % c = e ∙ ap (λ i. i % c) (omega arith) in
          let key' = ap (λ i. (t i).key) here ∙ key in
          let taken : (t (slot % c)).key ≢ 0 = λ z. valid_id (sym key' ∙ z) in
          let run : insert_from (table_of bits home w t size) id v (suc n) x slot
              ≡ some (table_of bits home w (revalued t v (slot % c)) size) =
            ground arith in
          run ∙ ap (λ p. some (table_of bits home w (revalued t v p) size)) here
      insert_from_known j (suc i) (suc n) slot x e key dist far more =
          let held : (entry_at c t (a + (j + suc i))).key ≢ 0 = λ z. valid_id (sym key ∙ z) in
          let (taken, off) = chain c home w t a j (suc i) probed held (omega (arith, dist)) in
          let taken' : (t (slot % c)).key ≢ 0 = λ z. taken (sym (ap (λ i. (t i).key) e) ∙ z) in
          let off' : j ≤ (t (slot % c)).probe_dist =
            omega (arith, off, ap (λ i. (t i).probe_dist) e) in
          elim (ℕ_discrete (t (slot % c)).key id) [
            | yes same ↦
                let here = once slot (a + (j + suc i)) taken' (same ∙ sym key) in
                let run : insert_from (table_of bits home w t size) id v (suc n) x slot
                    ≡ some (table_of bits home w (revalued t v (slot % c)) size) =
                  ground arith in
                run ∙ ap (λ p. some (table_of bits home w (revalued t v p) size)) here
            | no other ↦
                let near = probed.near (a + (j + suc i)) held in
                let next =
                  mod-eq_of_lt {n = x.probe_dist + 1} {m = 2 ^ 16}
                    (omega (arith, near, dist, small, far)) in
                let shift : a + (j + 1 + i) ≡ a + (j + suc i) = omega arith in
                let rest =
                  insert_from_known (j + 1) i n ((slot + 1) % 2 ^ 32)
                    (record x { probe_dist = (x.probe_dist + 1) % 2 ^ 16 })
                    (next_slot c slot a j d e) (ap (λ k. (entry_at c t k).key) shift ∙ key)
                    (ap (λ k. (entry_at c t k).probe_dist) shift ∙ dist ∙ (omega arith))
                    (next ∙ (omega (arith, far))) (omega arith)
                  ∙ ap (λ k. some (table_of bits home w (revalued t v (k % c)) size)) shift in
                ground arith
          ]
