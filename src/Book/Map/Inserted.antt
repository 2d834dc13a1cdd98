-- ===== src/Book/Map/Inserted.antt =====
-- The loop of `OrderMap::insert` for a key that is not in the table: it puts the entry in its place and
-- moves others along, and every other key keeps its value.
use itch_feed_handler.Common.{
  ℕ, zero, suc, ◌+◌, ◌%◌, ◌^◌, ◌≤◌, ◌<◌, ◌≡◌, ◌≢◌, arith, sym, ap, ◌∙◌, ℕ_discrete, some, dec_lt,
  update, update_self, update_ne, ◌⊎◌, inl, inr,
}
use Prim.Native.Nat.{◌∣◌}
use native.Mathlib.Nat.{one-le-pow, mod-mod_of_dvd, mod-eq_of_lt}
use itch_feed_handler.Book.Map.{OrderMap, MapEntry, insert_from}
use itch_feed_handler.Book.Map.Places.{mod_congr, mod_cancel, mod_other}
use itch_feed_handler.Book.Map.Probed.{entry_at, IsProbed, Fits, IsOnce, Stored, put-IsProbed}
use itch_feed_handler.Book.Map.Rounds.{step_mod}

-- The bits of the capacity, the home slots and the bound of the probe distances.
module _ (bits : ℕ) (home : ℕ → ℕ) (w : ℕ) where
  abbrev c : ℕ
  c = 2 ^ bits

  abbrev pub table_of : (ℕ → MapEntry) → ℕ → OrderMap
  table_of t size = record { table = t; bits = bits; size = size }

  pub positive : 0 < c
  positive = omega (arith, one-le-pow bits 2 (omega arith))

  -- A table with one key more.
  pub record Adds (t : ℕ → MapEntry) (key value : ℕ) (t' : ℕ → MapEntry) : Type 0 where
    pub probed : IsProbed c home w t'
    pub once : IsOnce c t'
    pub new : Stored c t' key value
    pub old : (k u : ℕ) → k ≢ 0 → Stored c t k u → Stored c t' k u
    pub back : (k u : ℕ) → k ≢ 0 → Stored c t' k u → Stored c t k u ⊎ ((k ≡ key) × (u ≡ value))

  put-IsOnce :
      (t : ℕ → MapEntry) (p : ℕ) (x : MapEntry)
      → IsOnce c t
      → ((s : ℕ) → (entry_at c t s).key ≢ x.key)
      → IsOnce c (update t (p % c) x)
  put-IsOnce t p x once fresh s s' held same = elim (ℕ_discrete (s % c) (p % c)) [
    | yes here ↦ elim (ℕ_discrete (s' % c) (p % c)) [
      | yes both ↦ here ∙ sym both
      | no other ↦ absurd (fresh s' (ground arith))
    ]
    | no there ↦ elim (ℕ_discrete (s' % c) (p % c)) [
      | yes both ↦ absurd (fresh s (ground arith))
      | no other ↦ once s s' (ground arith) (ground arith)
    ]
  ]

  -- The key of an entry that was written over is in no slot.
  moved :
      (t : ℕ → MapEntry) (p : ℕ) (x : MapEntry)
      → IsOnce c t
      → (entry_at c t p).key ≢ 0
      → (entry_at c t p).key ≢ x.key
      → (s : ℕ) → (entry_at c (update t (p % c) x) s).key ≢ (entry_at c t p).key
  moved t p x once held other s same = elim (ℕ_discrete (s % c) (p % c)) [
    | yes here ↦ other (ground arith)
    | no there ↦ there (sym (once p s held (ground arith)))
  ]

  put-Stored :
      (t : ℕ → MapEntry) (p : ℕ) (x : MapEntry) → Stored c (update t (p % c) x) x.key x.value
  put-Stored t p x = (p, ground arith, ground arith)

  -- What the slot does not hold stays.
  put-other :
      (t : ℕ → MapEntry) (p : ℕ) (x : MapEntry) (k u : ℕ)
      → (entry_at c t p).key ≢ k
      → Stored c t k u
      → Stored c (update t (p % c) x) k u
  put-other t p x k u other (s, key, value) =
      let there : s % c ≢ p % c = λ e. other (sym (ap (λ i. (t i).key) e) ∙ key) in
      (s, ground arith, ground arith)

  put-back :
      (t : ℕ → MapEntry) (p : ℕ) (x : MapEntry) (k u : ℕ)
      → Stored c (update t (p % c) x) k u
      → Stored c t k u ⊎ ((k ≡ x.key) × (u ≡ x.value))
  put-back t p x k u (s, key, value) = elim (ℕ_discrete (s % c) (p % c)) [
    | yes here ↦ inr (ground arith, ground arith)
    | no there ↦ inl (s, ground arith, ground arith)
  ]

  -- In an empty slot.
  placed-Adds :
      (t : ℕ → MapEntry) (p : ℕ) (x : MapEntry)
      → IsProbed c home w t
      → IsOnce c t
      → Fits c home w t p x
      → x.key ≢ 0
      → ((s : ℕ) → (entry_at c t s).key ≢ x.key)
      → (entry_at c t p).key ≡ 0
      → Adds t x.key x.value (update t (p % c) x)
  placed-Adds t p x v once f held fresh empty = record {
    probed = put-IsProbed c home w t p x positive v f held (λ h. ground (arith, v.lean p h));
    once = put-IsOnce t p x once fresh;
    new = put-Stored t p x;
    old = λ k u valid h. put-other t p x k u (λ e. valid (sym e ∙ empty)) h;
    back = λ k u valid h. put-back t p x k u h;
  }

  -- In the slot of an entry that is nearer to its home.
  swapped-IsProbed :
      (t : ℕ → MapEntry) (p : ℕ) (x : MapEntry)
      → IsProbed c home w t
      → Fits c home w t p x
      → x.key ≢ 0
      → (entry_at c t p).probe_dist ≤ x.probe_dist
      → IsProbed c home w (update t (p % c) x)
  swapped-IsProbed t p x v f held nearer =
      put-IsProbed c home w t p x positive v f held (λ h. ground (arith, v.lean p h, nearer))

  -- In the slot of an entry that is added again behind it.
  swapped-Adds :
      (t t' : ℕ → MapEntry) (p : ℕ) (x : MapEntry)
      → IsOnce c t
      → x.key ≢ 0
      → Adds (update t (p % c) x) (entry_at c t p).key (entry_at c t p).value t'
      → Adds t x.key x.value t'
  swapped-Adds t t' p x once held a = record {
    probed = a.probed;
    once = a.once;
    new = a.old x.key x.value held (put-Stored t p x);
    old = λ k u valid h. elim (ℕ_discrete (entry_at c t p).key k) [
      | yes same ↦
          let (s, key, value) = h in
          let place = once p s (λ z. valid (sym same ∙ z)) (same ∙ sym key) in
          let (s', key', value') = a.new in
          (s', key' ∙ same, value' ∙ ap (λ i. (t i).value) place ∙ value)
      | no other ↦ a.old k u valid (put-other t p x k u other h)
    ];
    back = λ k u valid h. elim (a.back k u valid h) [
      | inl before ↦ put-back t p x k u before
      | inr (key, value) ↦ inl (p, sym key, sym value)
    ];
  }

  module _ (d : c ∣ 2 ^ 32) (fits : w ≤ c) (small : w ≤ 2 ^ 16) where
    -- The entries behind a slot that is written stay.
    behind :
        (t : ℕ → MapEntry) (x : MapEntry) (slot i : ℕ)
        → suc i < c
        → entry_at c (update t (slot % c) x) ((slot + 1) % 2 ^ 32 + i) ≡ entry_at c t (slot + suc i)
    behind t x slot i few =
        let place = step_mod c slot i d in
        let other = mod_other c slot (suc i) few (omega arith) in
        ap (update t (slot % c) x) place ∙ update_ne t (slot % c) x ((slot + suc i) % c) other

    next_place : (slot : ℕ) → (slot + 1) % 2 ^ 32 % c ≡ (slot + 1) % c
    next_place slot = mod-mod_of_dvd c (slot + 1) d

    -- An entry may stand behind another that is at least as far from home.
    next-Fits :
        (t : ℕ → MapEntry) (slot : ℕ) (e : MapEntry)
        → (home e.key + e.probe_dist) % c ≡ slot % c
        → e.probe_dist + 1 < w
        → (entry_at c t slot).key ≢ 0
        → e.probe_dist ≤ (entry_at c t slot).probe_dist
        → Fits c home w t ((slot + 1) % 2 ^ 32) (record e { probe_dist = e.probe_dist + 1 })
    next-Fits t slot e here close held less = record {
      belongs =
          ap (λ i. i % c) (omega arith)
          ∙ mod_congr c (home e.key + e.probe_dist) slot 1 here
          ∙ sym (next_place slot);
      close = close;
      before = λ some_dist s place.
          let same = mod_cancel c s slot positive (place ∙ next_place slot) in
          let e = ap t same in
          (
            λ z. held (sym (ap (λ (x : MapEntry). x.key) e) ∙ z),
            omega (arith, ap (λ (x : MapEntry). x.probe_dist) e),
          );
    }

    -- The entry that is carried on, and the entry that it is moved for.
    abbrev Walks : ℕ → ℕ → ℕ → ℕ → (ℕ → MapEntry) → MapEntry → ℕ → Type 0
    Walks id v n size t x slot =
        (t' : ℕ → MapEntry) × (size' : ℕ) × (insert_from (table_of t size) id v n x slot
          ≡ some (table_of t' size'))
        × Adds t x.key x.value t'

    -- The distance is still small enough for 16 bits.
    no_wrap : (n : ℕ) → n + 1 < w → (n + 1) % 2 ^ 16 ≡ n + 1
    no_wrap n h = mod-eq_of_lt {n = n + 1} {m = 2 ^ 16} (omega (arith, h, small))

    placed_walk :
        (id v n size slot : ℕ) (t : ℕ → MapEntry) (x : MapEntry)
        → IsProbed c home w t
        → IsOnce c t
        → Fits c home w t slot x
        → x.key ≢ 0
        → ((s : ℕ) → (entry_at c t s).key ≢ x.key)
        → (entry_at c t slot).key ≡ 0
        → Walks id v (suc n) size t x slot
    unfolding insert_from
    placed_walk id v n size slot t x probed once f held fresh free = (
      update t (slot % c) x,
      (size + 1) % 2 ^ 32,
      ground arith,
      placed-Adds t slot x probed once f held fresh free,
    )

    pub insert_from-Walks :
        (id v n k size slot : ℕ) (t : ℕ → MapEntry) (x : MapEntry)
        → IsProbed c home w t
        → IsOnce c t
        → Fits c home w t slot x
        → x.key ≢ 0
        → ((s : ℕ) → (entry_at c t s).key ≢ x.key)
        → k < n
        → x.probe_dist + k < w
        → (entry_at c t (slot + k)).key ≡ 0
        → ((i : ℕ) → i < k → (entry_at c t (slot + i)).key ≢ id)
        → Walks id v n size t x slot
    unfolding insert_from
    insert_from-Walks id v zero k size slot t x probed once f held fresh more close empty out =
        absurd (omega arith)
    insert_from-Walks id v (suc n) zero size slot t x probed once f held fresh more close empty
          out =
        let free = ap (λ i. (entry_at c t i).key) (omega arith) ∙ empty in
        placed_walk id v n size slot t x probed once f held fresh free
    insert_from-Walks id v (suc n) (suc k) size slot t x probed once f held fresh more close empty
          out =
        let e = entry_at c t slot in
        let slot' = (slot + 1) % 2 ^ 32 in
        let here : slot + 0 ≡ slot = omega arith in
        let other : e.key ≢ id =
          λ z. out 0 (omega arith) (ap (λ i. (entry_at c t i).key) here ∙ z) in
        elim (ℕ_discrete e.key 0) [
          | yes free ↦ placed_walk id v n size slot t x probed once f held fresh free
          | no taken ↦ elim (dec_lt e.probe_dist x.probe_dist) [
            | yes nearer ↦
                let t1 = update t (slot % c) x in
                let e1 = record e { probe_dist = e.probe_dist + 1 } in
                let self = update_self t (slot % c) x in
                let (t', size', run, a) =
                  insert_from-Walks id v n k size slot' t1 e1
                    (swapped-IsProbed t slot x probed f held (omega (arith, nearer)))
                    (put-IsOnce t slot x once fresh)
                    (next-Fits t1 slot e (probed.placed slot taken) (omega (arith, close, nearer))
                      (λ z. held (sym (ap (λ (y : MapEntry). y.key) self) ∙ z))
                      (omega (arith, nearer, ap (λ (y : MapEntry). y.probe_dist) self)))
                    taken (moved t slot x once taken (fresh slot)) (omega arith)
                    (omega (arith, close, nearer))
                    (ap (λ (y : MapEntry). y.key) (behind t x slot k (omega (arith, close, fits)))
                      ∙ empty)
                    (λ i few. λ z. out (suc i) (omega arith) (
                      sym (
                        ap (λ (y : MapEntry). y.key)
                          (behind t x slot i (omega (arith, close, fits, few))))
                      ∙ z)) in
                let run' =
                  ap
                    (λ dist.
                      insert_from (table_of t1 size) id v n (record e { probe_dist = dist }) slot')
                    (no_wrap e.probe_dist (omega (arith, close, nearer)))
                  ∙ run in
                (t', size', ground arith, swapped-Adds t t' slot x once held a)
            | no further ↦
                let x1 = record x { probe_dist = x.probe_dist + 1 } in
                let (t', size', run, a) =
                  insert_from-Walks id v n k size slot' t x1 probed once
                    (next-Fits t slot x f.belongs (omega (arith, close)) taken
                      (omega (arith, further)))
                    held fresh (omega arith) (omega (arith, close))
                    (ap (λ i. (t i).key) (step_mod c slot k d) ∙ empty)
                    (λ i few. λ z.
                      out (suc i) (omega arith)
                        (sym (ap (λ i. (t i).key) (step_mod c slot i d)) ∙ z)) in
                let run' =
                  ap
                    (λ dist.
                      insert_from (table_of t size) id v n (record x { probe_dist = dist }) slot')
                    (no_wrap x.probe_dist (omega (arith, close)))
                  ∙ run in
                (t', size', ground arith, a)
          ]
        ]
