-- ===== src/Book/Map/Lookup.antt =====
-- What `OrderMap::find` returns after `OrderMap::insert`.
use itch_feed_handler.Common.{
  ℕ, ◌+◌, ◌%◌, ◌≡◌, ◌≢◌, arith, refl, sym, ap, ◌∙◌, subst, some, inl, inr, ◌↔◌,
}
use native.Mathlib.Nat.{mod-lt}
use itch_feed_handler.Book.Map.{OrderMap, MapEntry, capacity, find, insert, hash_slot}
use itch_feed_handler.Book.Map.Probed.{entry_at, IsProbed, IsOnce, Stored}
use itch_feed_handler.Book.Map.Rounds.{HasRoom, RoomAhead}
use itch_feed_handler.Book.Map.Found.{IsValid, find-Stored, find_absent, Stored-cases}
use itch_feed_handler.Book.Map.Inserted.{insert_from-Walks, positive}
use itch_feed_handler.Book.Map.Revalued.{
  revalued, revalued-IsProbed, revalued-IsOnce, revalued-Stored, revalued_others, insert_from_known,
}

-- A key and a value stand in the table.
abbrev pub Contains : OrderMap → ℕ → ℕ → Type 0
Contains m k u = Stored (capacity m) m.table k u

-- The tables agree on a key.
pub find_congr :
    (w : ℕ) (m m' : OrderMap) (k : ℕ)
    → IsValid w m
    → IsValid w m'
    → k ≢ 0
    → HasRoom m
    → HasRoom m'
    → ((u : ℕ) → Contains m k u ↔ Contains m' k u)
    → find m' k ≡ find m k
find_congr w m m' k v v' valid room room' same = elim (Stored-cases w m v k valid room) [
  | inl (x, stored) ↦
      find-Stored w m' v' k valid x ((same x).0 stored) ∙ sym (find-Stored w m v k valid x stored)
  | inr out ↦
      find_absent w m' v' k valid room' (λ s key.
        let (s', key', value) = (same (entry_at (capacity m') m'.table s).value).1 (s, key, refl) in
        out s' key')
      ∙ sym (find_absent w m v k valid room out)
]

-- The map with another table of the same size.
abbrev pub with_table : OrderMap → (ℕ → MapEntry) → ℕ → OrderMap
with_table m t size = record { table = t; bits = m.bits; size = size }

home_same :
    (m : OrderMap) (t : ℕ → MapEntry) (size : ℕ) → hash_slot (with_table m t size) ≡ hash_slot m
unfolding hash_slot
home_same m t size = refl

-- A table with the keys and values of another, one value set.
pub record Sets (w : ℕ) (m : OrderMap) (id v : ℕ) (m' : OrderMap) : Type 0 where
  pub valid : IsValid w m'
  pub new : Contains m' id v
  pub others : (k u : ℕ) → k ≢ 0 → k ≢ id → Contains m k u ↔ Contains m' k u

pub made-IsValid :
    (w : ℕ) (m : OrderMap) (t : ℕ → MapEntry) (size : ℕ)
    → IsValid w m
    → IsProbed (capacity m) (hash_slot m) w t
    → IsOnce (capacity m) t
    → IsValid w (with_table m t size)
made-IsValid w m t size v probed once = record {
  divides = v.divides;
  fits = v.fits;
  small = v.small;
  probed = subst (λ h. IsProbed (capacity m) h w t) (sym (home_same m t size)) probed;
  once = once;
}

-- Room within w slots of the home of a key, w at most the capacity.
pub near-HasRoom : (w : ℕ) (m : OrderMap) (slot : ℕ) → IsValid w m → RoomAhead m w slot → HasRoom m
near-HasRoom w m slot v (k, few, empty) =
    (v.divides, ((slot + k) % capacity m, mod-lt (slot + k) (positive m.bits (λ i. i) 0), empty))

-- The key is there: only its value changes.
insert_known :
    (w : ℕ) (m : OrderMap) (id v : ℕ)
    → IsValid w m
    → id ≢ 0
    → (s : ℕ) → (entry_at (capacity m) m.table s).key ≡ id
    → (m' : OrderMap) × (insert m id v ≡ some m') × Sets w m id v m'
unfolding insert
insert_known w m id v valid held s key =
    let c = capacity m in
    let d = (entry_at c m.table s).probe_dist in
    let taken : (entry_at c m.table s).key ≢ 0 = λ z. held (sym key ∙ z) in
    let p = hash_slot m id + (0 + d) in
    let home : p % c ≡ s % c =
      ap (λ i. (hash_slot m id + i) % c) (omega arith)
      ∙ ap (λ k. (hash_slot m k + d) % c) (sym key)
      ∙ valid.probed.placed s taken in
    let key' = ap (λ i. (m.table i).key) home ∙ key in
    let taken' : (entry_at c m.table p).key ≢ 0 = λ z. held (sym key' ∙ z) in
    let t' = revalued m.bits (hash_slot m) w m.table v (p % c) in
    let run =
      insert_from_known m.bits (hash_slot m) w m.table valid.probed valid.once valid.divides
        valid.small id v m.size (hash_slot m id) held 0 d c (hash_slot m id)
        (record { key = id; value = v; probe_dist = 0 }) (ap (λ i. i % c) (omega arith)) key'
        (ap (λ i. (m.table i).probe_dist) home ∙ (omega arith)) refl
        (omega (arith, valid.probed.near s taken, valid.fits)) in
    (
      with_table m t' m.size,
      run,
      record {
        valid =
            made-IsValid w m t' m.size valid
              (revalued-IsProbed m.bits (hash_slot m) w m.table valid.probed valid.once v p taken')
              (revalued-IsOnce m.bits (hash_slot m) w m.table valid.probed valid.once v p);
        new =
            subst (λ i. Stored c t' i v) key'
              (revalued-Stored m.bits (hash_slot m) w m.table valid.probed valid.once v p);
        others = λ k u some_key other.
            revalued_others m.bits (hash_slot m) w m.table valid.probed valid.once v p k u
              (λ e. other (sym e ∙ key'));
      },
    )

pub insert-Sets :
    (w : ℕ) (m : OrderMap) (id v : ℕ)
    → IsValid w m
    → RoomAhead m w (hash_slot m id)
    → id ≢ 0
    → (m' : OrderMap) × (insert m id v ≡ some m') × Sets w m id v m'
unfolding insert
insert-Sets w m id v valid (k, few, empty) held =
    elim (Stored-cases w m valid id held (near-HasRoom w m _ valid (k, few, empty))) [
      | inr out ↦
          let x : MapEntry = record { key = id; value = v; probe_dist = 0 } in
          let (t', size', run, a) =
            insert_from-Walks m.bits (hash_slot m) w valid.divides valid.fits valid.small id v
              (capacity m) k m.size (hash_slot m id) m.table x valid.probed valid.once
              (record {
                belongs = ap (λ i. i % capacity m) (omega arith);
                close = omega (arith, few);
                before = λ d. absurd (omega arith);
              })
              held out (omega (arith, few, valid.fits)) (omega (arith, few)) empty
              (λ i _. out (hash_slot m id + i)) in
          (
            with_table m t' size',
            run,
            record {
              valid = made-IsValid w m t' size' valid a.probed a.once;
              new = a.new;
              others = λ k u some_key other. (
                a.old k u some_key,
                λ h. elim (a.back k u some_key h) [
                  | inl before ↦ before
                  | inr (key, _) ↦ absurd (other key)
                ],
              );
            },
          )
      | inl (u, (s, key, value)) ↦ insert_known w m id v valid held s key
    ]

-- In a table in Robin Hood order, with an empty slot near the home of the key: after `insert` the key is
-- found with the new value, every other key with what it was found with before, and the order is
-- kept. A key that is not there is looked for in a table with an empty slot.
find-insert :
    (w : ℕ) (m : OrderMap) (id v : ℕ)
    → IsValid w m
    → RoomAhead m w (hash_slot m id)
    → id ≢ 0
    → (m' : OrderMap) × (insert m id v ≡ some m')
      × IsValid w m'
      × (find m' id ≡ some v)
      × ((k : ℕ) → k ≢ 0 → k ≢ id → HasRoom m' → find m' k ≡ find m k)
find-insert w m id v valid room held =
    let (m', run, sets) = insert-Sets w m id v valid room held in
    (
      m',
      run,
      sets.valid,
      find-Stored w m' sets.valid id held v sets.new,
      λ k some_key other room'.
          find_congr w m m' k valid sets.valid some_key (near-HasRoom w m _ valid room) room'
            (λ u. sets.others k u some_key other),
    )
