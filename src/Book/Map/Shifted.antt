-- ===== src/Book/Map/Shifted.antt =====
-- The backward shift of `OrderMap::erase`: the entry in one slot goes, and every other key keeps its value.
use itch_feed_handler.Common.{
  ℕ, zero, suc, ◌+◌, ◌-◌, ◌%◌, ◌^◌, ◌≤◌, ◌<◌, ◌≡◌, ◌≢◌, arith, refl, sym, ap, ◌∙◌, subst,
  ℕ_discrete, some, update, ◌⊎◌, inl, inr, ◌↔◌, Bool-cases, ◌||◌, ◌==◌,
}
use Prim.Native.Nat.{◌∣◌}
use mathlib.Core.Option.{some-injective}
use native.Mathlib.Nat.{mod-mod_of_dvd, mod-mod}
use itch_feed_handler.Book.Map.{OrderMap, MapEntry, empty_entry, capacity, shift_from}
use itch_feed_handler.Book.Map.Places.{mod_cancel, mod_other}
use itch_feed_handler.Book.Map.Probed.{
  entry_at, IsProbed, Fits, IsOnce, Stored, put-IsProbed, clear-IsProbed,
}
use itch_feed_handler.Book.Map.Inserted.{positive}

module _ (c : ℕ) where
  -- No key has two places, but for the entry of one slot.
  abbrev pub IsOnceBut : (ℕ → MapEntry) → ℕ → Type 0
  IsOnceBut t p =
      (s s' : ℕ)
      → s % c ≢ p % c
      → s' % c ≢ p % c
      → (entry_at c t s).key ≢ 0
      → (entry_at c t s).key ≡ (entry_at c t s').key
      → s % c ≡ s' % c

  -- A key and a value stand in another slot.
  abbrev pub StoredBut : (ℕ → MapEntry) → ℕ → ℕ → ℕ → Type 0
  StoredBut t p k u =
      (s : ℕ) × (s % c ≢ p % c) × ((entry_at c t s).key ≡ k) × ((entry_at c t s).value ≡ u)

  clear-IsOnce :
      (t : ℕ → MapEntry) (p : ℕ) → IsOnceBut t p → IsOnce c (update t (p % c) empty_entry)
  clear-IsOnce t p once s s' held same = elim (ℕ_discrete (s % c) (p % c)) [
    | yes here ↦ absurd (ground arith)
    | no there ↦ elim (ℕ_discrete (s' % c) (p % c)) [
      | yes both ↦ absurd (ground arith)
      | no other ↦ once s s' there other (ground arith) (ground arith)
    ]
  ]

  clear-Stored :
      (t : ℕ → MapEntry) (p k u : ℕ)
      → k ≢ 0
      → StoredBut t p k u ↔ Stored c (update t (p % c) empty_entry) k u
  clear-Stored t p k u some_key = (
    λ (s, there, key, value). (s, ground arith, ground arith),
    λ (s, key, value). elim (ℕ_discrete (s % c) (p % c)) [
      | yes here ↦ absurd (ground arith)
      | no there ↦ (s, there, ground arith, ground arith)
    ],
  )

  -- The entry behind is copied to the slot, and is the one to go.
  module _ (t : ℕ → MapEntry) (p q : ℕ) (e : MapEntry) (behind : q % c ≡ (p + 1) % c)
      (apart : q % c ≢ p % c) (key_same : e.key ≡ (entry_at c t q).key)
      (value_same : e.value ≡ (entry_at c t q).value) where
    copy-IsOnceBut : (entry_at c t q).key ≢ 0 → IsOnceBut t p → IsOnceBut (update t (p % c) e) q
    copy-IsOnceBut held once s s' off off' some_key same = elim (ℕ_discrete (s % c) (p % c)) [
      | yes here ↦ elim (ℕ_discrete (s' % c) (p % c)) [
        | yes both ↦ here ∙ sym both
        | no other ↦ absurd (off' (sym (once q s' apart other held (ground arith))))
      ]
      | no there ↦ elim (ℕ_discrete (s' % c) (p % c)) [
        | yes both ↦ absurd (off (once s q there apart (ground arith) (ground arith)))
        | no other ↦ once s s' there other (ground arith) (ground arith)
      ]
    ]

    copy-StoredBut : (k u : ℕ) → StoredBut t p k u ↔ StoredBut (update t (p % c) e) q k u
    copy-StoredBut k u = (
      λ (s, there, key, value). elim (ℕ_discrete (s % c) (q % c)) [
        | yes moved ↦ let same = ap t moved in (p, (λ z. apart (sym z)), ground arith, ground arith)
        | no other ↦ (s, other, ground arith, ground arith)
      ],
      λ (s, there, key, value). elim (ℕ_discrete (s % c) (p % c)) [
        | yes here ↦ (q, apart, ground arith, ground arith)
        | no other ↦ (s, other, ground arith, ground arith)
      ],
    )

-- The table after the shift.
pub record Removes (home : ℕ → ℕ) (w : ℕ) (m : OrderMap) (pos : ℕ) (t' : ℕ → MapEntry)
    : Type 0 where
  pub probed : IsProbed (capacity m) home w t'
  pub once : IsOnce (capacity m) t'
  pub keeps :
      (k u : ℕ) → k ≢ 0 → StoredBut (capacity m) m.table pos k u ↔ Stored (capacity m) t' k u

-- The entry behind may stand one slot nearer to its home.
nearer-Fits :
    (c : ℕ) (home : ℕ → ℕ) (w : ℕ) (t : ℕ → MapEntry) (p : ℕ)
    → 0 < c
    → IsProbed c home w t
    → (entry_at c t (p + 1)).key ≢ 0
    → 0 < (entry_at c t (p + 1)).probe_dist
    → Fits c home w t p
        (record (entry_at c t (p + 1)) { probe_dist = (entry_at c t (p + 1)).probe_dist - 1 })
nearer-Fits c home w t p pos v held far =
    let e = entry_at c t (p + 1) in
    let (taken, step) = v.lean p held far in
    record {
      belongs =
          mod_cancel c (home e.key + (e.probe_dist - 1)) p pos
            (ap (λ i. i % c) (omega (arith, far)) ∙ v.placed (p + 1) held);
      close = omega (arith, v.near (p + 1) held);
      before = λ d s place.
          let same = ap t place in
          let here : (entry_at c t (s + 1)).key ≢ 0 =
            λ z. taken (sym (ap (λ (x : MapEntry). x.key) same) ∙ z) in
          let dist = ap (λ (x : MapEntry). x.probe_dist) same in
          let (taken', step') = v.lean s here (omega (arith, dist, step, d)) in
          (taken', omega (arith, dist, step, step'));
    }

pub shift_from-Removes :
    (home : ℕ → ℕ) (w : ℕ) (m : OrderMap) (n pos : ℕ) (t' : ℕ → MapEntry)
    → capacity m ∣ 2 ^ 32
    → w ≤ capacity m
    → IsProbed (capacity m) home w m.table
    → IsOnceBut (capacity m) m.table pos
    → shift_from m n pos ≡ some t'
    → Removes home w m pos t'
unfolding shift_from
shift_from-Removes home w m zero pos t' d fits v once h = absurd (ground arith)
shift_from-Removes home w m (suc n) pos t' d fits v once h =
    let c = capacity m in
    let next = (pos + 1) % 2 ^ 32 % c in
    let there : next ≡ (pos + 1) % c = mod-mod_of_dvd c (pos + 1) d in
    let next_e = m.table next in
    let same : next_e ≡ entry_at c m.table (pos + 1) = ap m.table there in
    let behind : next % c ≡ (pos + 1) % c = mod-mod ((pos + 1) % 2 ^ 32) c ∙ there in
    elim (Bool-cases ((next_e.key == 0) || (next_e.probe_dist == 0))) [
      | inl stop ↦
          let run : shift_from m (suc n) pos ≡ some (update m.table (pos % c) empty_entry) =
            rw (shift_from, stop) refl in
          let free : (next_e.key ≡ 0) ⊎ (next_e.probe_dist ≡ 0) = ground (arith, stop) in
          subst (Removes home w m pos) (some-injective _ _ (sym run ∙ h)) (record {
            probed =
                clear-IsProbed c home w m.table pos v
                  (subst (λ (e : MapEntry). (e.key ≡ 0) ⊎ (e.probe_dist ≡ 0)) same free);
            once = clear-IsOnce c m.table pos once;
            keeps = λ k u some_key. clear-Stored c m.table pos k u some_key;
          })
      | inr go ↦
          let e1 : MapEntry = record next_e { probe_dist = next_e.probe_dist - 1 } in
          let t1 = update m.table (pos % c) e1 in
          let m1 = record m { table = t1 } in
          let run : shift_from m (suc n) pos ≡ shift_from m1 n next = rw (shift_from, go) refl in
          let held : next_e.key ≢ 0 = (λ z. absurd (ground (arith, go))) in
          let far : 0 < next_e.probe_dist = ground (arith, go) in
          let held' : (entry_at c m.table (pos + 1)).key ≢ 0 =
            subst (λ (e : MapEntry). e.key ≢ 0) same held in
          let far' : 0 < (entry_at c m.table (pos + 1)).probe_dist =
            subst (λ (e : MapEntry). 0 < e.probe_dist) same far in
          let apart : next % c ≢ pos % c = λ z.
            mod_other c pos 1 (omega (arith, v.near (pos + 1) held', far', fits)) (omega arith)
              (sym behind ∙ z) in
          let here = ap m.table behind in
          let key_same : e1.key ≡ (entry_at c m.table next).key =
            ap (λ (e : MapEntry). e.key) (same ∙ sym here) in
          let value_same : e1.value ≡ (entry_at c m.table next).value =
            ap (λ (e : MapEntry). e.value) (same ∙ sym here) in
          let probed1 =
            put-IsProbed c home w m.table pos e1 (positive m.bits home w) v
              (subst
                (λ (e : MapEntry).
                  Fits c home w m.table pos (record e { probe_dist = e.probe_dist - 1 }))
                (sym same) (nearer-Fits c home w m.table pos (positive m.bits home w) v held' far'))
              held (λ _. omega (arith, far, ap (λ (e : MapEntry). e.probe_dist) same)) in
          let once1 =
            copy-IsOnceBut c m.table pos next e1 behind apart key_same value_same
              (λ z. held (key_same ∙ z)) once in
          let r = shift_from-Removes home w m1 n next t' d fits probed1 once1 (sym run ∙ h) in
          record {
            probed = r.probed;
            once = r.once;
            keeps = λ k u some_key.
                let (there, back) =
                  copy-StoredBut c m.table pos next e1 behind apart key_same value_same k u in
                let (on, off) = r.keeps k u some_key in (λ s. on (there s), λ s. back (off s));
          }
    ]
