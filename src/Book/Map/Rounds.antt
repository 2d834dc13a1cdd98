-- ===== src/Book/Map/Rounds.antt =====
-- The loops of the map end while the table has an empty slot.
use itch_feed_handler.Common.{
  ℕ, zero, suc, ◌+◌, ◌-◌, ◌%◌, ◌^◌, ◌<◌, ◌≡◌, ◌≢◌, arith, Option, none, some, refl, sym, ap, ◌∙◌,
  ℕ_discrete, dec_lt, returns, update, ◌>>=◌,
}
use Prim.Native.Nat.{◌∣◌}
use native.Mathlib.Nat.{mod-mod_of_dvd, mod-add-mod, add-mod-mod, add-mod_right}
use itch_feed_handler.Book.Map.{
  OrderMap, MapEntry, capacity, find_from, find, insert_from, insert, hash_slot, map_empty,
}

-- An empty slot is less than n places ahead of a slot.
abbrev pub RoomAhead : OrderMap → ℕ → ℕ → Type 0
RoomAhead m n slot = (k : ℕ) × (k < n) × ((m.table ((slot + k) % capacity m)).key ≡ 0)

-- The capacity is at most 2^32, and some slot of the table is empty.
abbrev pub HasRoom : OrderMap → Type 0
HasRoom m = (capacity m ∣ 2 ^ 32) × ((i : ℕ) × (i < capacity m) × ((m.table i).key ≡ 0))

pub step_mod : (c slot k : ℕ) → c ∣ 2 ^ 32 → ((slot + 1) % 2 ^ 32 + k) % c ≡ (slot + suc k) % c
step_mod c slot k d =
    sym (mod-add-mod ((slot + 1) % 2 ^ 32) c k)
    ∙ ap (λ y. (y + k) % c) (mod-mod_of_dvd c (slot + 1) d)
    ∙ mod-add-mod (slot + 1) c k
    ∙ ap (λ y. y % c) (omega arith)

around : (c slot i : ℕ) → i < c → (slot + (i + c - slot % c) % c) % c ≡ i
around c slot i h =
    let low : slot % c < c = grind arith in
    add-mod-mod slot (i + c - slot % c) c
    ∙ sym (mod-add-mod slot c (i + c - slot % c))
    ∙ ap (λ y. y % c) (omega arith)
    ∙ add-mod_right i c
    ∙ (grind arith)

pub ahead : (m : OrderMap) (slot : ℕ) → HasRoom m → RoomAhead m (capacity m) slot
ahead m slot (d, (i, low, empty)) = (
  (i + capacity m - slot % capacity m) % capacity m,
  grind arith,
  ap (λ j. (m.table j).key) (around (capacity m) slot i low) ∙ empty,
)

-- The slot is taken, so the empty one is further on.
pub further :
    (m : OrderMap) (n slot : ℕ)
    → capacity m ∣ 2 ^ 32
    → RoomAhead m (suc n) slot
    → (m.table (slot % capacity m)).key ≢ 0
    → (k : ℕ) × (k < n)
      × ((m.table (((slot + 1) % 2 ^ 32 + k) % capacity m)).key ≡ 0)
      × (((slot + 1) % 2 ^ 32 + k) % capacity m ≢ slot % capacity m)
further m n slot d (zero, low, empty) taken =
    absurd (taken (ap (λ j. (m.table (j % capacity m)).key) (omega arith) ∙ empty))
further m n slot d (suc k, low, empty) taken =
    let empty' = ap (λ j. (m.table j).key) (step_mod (capacity m) slot k d) ∙ empty in
    (k, omega arith, empty', λ e. taken (sym (ap (λ j. (m.table j).key) e) ∙ empty'))

pub find_from_total :
    (m : OrderMap) (id n slot dist : ℕ)
    → capacity m ∣ 2 ^ 32
    → RoomAhead m n slot
    → (r : Option ℕ) × (find_from m id n slot dist ≡ some r)
unfolding find_from
find_from_total m id zero slot dist d (k, low, empty) = absurd (omega arith)
find_from_total m id (suc n) slot dist d room =
    let e = m.table (slot % capacity m) in
    elim (ℕ_discrete e.key 0) [
      | yes h ↦ (none, ground arith)
      | no taken ↦ elim (dec_lt e.probe_dist dist) [
        | yes h ↦ (none, ground arith)
        | no h ↦ elim (ℕ_discrete e.key id) [
          | yes q ↦ (some slot, ground arith)
          | no q ↦
              let (k, low, empty, other) = further m n slot d room taken in
              let (r, rest) =
                find_from_total m id n ((slot + 1) % 2 ^ 32) ((dist + 1) % 2 ^ 16) d
                  (k, low, empty) in
              (r, ground arith)
        ]
      ]
    ]

-- A swap does not touch the empty slot.
pub swapped :
    (m : OrderMap) (place : ℕ) (entry : MapEntry) (i : ℕ)
    → (m.table i).key ≡ 0
    → i ≢ place
    → (update m.table place entry i).key ≡ 0
swapped m place entry i h other = ground arith

insert_from_total :
    (m : OrderMap) (id pool_idx n : ℕ) (to_insert : MapEntry) (slot : ℕ)
    → capacity m ∣ 2 ^ 32
    → RoomAhead m n slot
    → insert_from m id pool_idx n to_insert slot ≢ none
unfolding insert_from
insert_from_total m id pool_idx zero to_insert slot d (k, low, empty) = absurd (omega arith)
insert_from_total m id pool_idx (suc n) to_insert slot d room =
    let place = slot % capacity m in
    let e = m.table place in
    elim (ℕ_discrete e.key 0) [
      | yes h ↦ ground arith
      | no taken ↦
          let (k, low, empty, other) = further m n slot d room taken in
          let swap =
            insert_from_total (record m { table = update m.table place to_insert }) id pool_idx n
              (record e { probe_dist = (e.probe_dist + 1) % 2 ^ 16 }) ((slot + 1) % 2 ^ 32) d
              (k, low, swapped m place to_insert _ empty other) in
          let rest =
            insert_from_total m id pool_idx n
              (record to_insert { probe_dist = (to_insert.probe_dist + 1) % 2 ^ 16 })
              ((slot + 1) % 2 ^ 32) d (k, low, empty) in
          ground arith
    ]

pub value_at :
    (m : OrderMap) (r : Option ℕ)
    → (v : ℕ) × ((some r >>= λ found. elim found [
      | none ↦ some map_empty
      | some slot ↦ some (m.table (slot % capacity m)).value
    ])
        ≡ some v)
value_at m none = (map_empty, refl)
value_at m (some slot) = ((m.table (slot % capacity m)).value, refl)

-- While a slot of the table is empty, `find` and `insert` return: their loops end within as many
-- rounds as the table has slots.
pub find-insert_total :
    (m : OrderMap) (id pool_idx : ℕ)
    → HasRoom m
    → ((v : ℕ) × (find m id ≡ some v)) × ((m' : OrderMap) × (insert m id pool_idx ≡ some m'))
unfolding find insert
find-insert_total m id pool_idx room =
    let (r, found) = find_from_total m id (capacity m) (hash_slot m id) 0 room.0 (ahead m _ room) in
    let done =
      insert_from_total m id pool_idx (capacity m)
        (record { key = id; value = pool_idx; probe_dist = 0 }) (hash_slot m id) room.0
        (ahead m _ room) in
    (rw found (value_at m r), returns _ done)
