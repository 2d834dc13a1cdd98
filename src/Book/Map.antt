-- ===== src/Book/Map.antt =====
-- src/orderbook/order_map.cpp: the Robin Hood hash map from an order's reference to its pool index.
-- The source's loops have no bound. Here they run on fuel, the capacity, and `none` is a loop that
-- is still running then.
pub mod Rounds
pub mod Erase
pub mod Places
pub mod Probed
pub mod Found
pub mod Inserted
pub mod Revalued
pub mod Lookup
pub mod Shifted
pub mod Removed
pub mod Calls
pub mod History
use itch_feed_handler.Common.{
  ℕ, zero, suc, ◌+◌, ◌-◌, ◌*◌, ◌/◌, ◌%◌, ◌^◌, Bool, true, false, ◌||◌, Option, none, some, ◌==◌,
  ltb, if◌then◌else◌, ◌>>=◌, update,
}

-- `kMapEmpty`, UINT32_MAX
abbrev pub map_empty : ℕ
map_empty = 2 ^ 32 - 1

pub record MapEntry : Type 0 where
  pub key : ℕ
  pub value : ℕ
  pub probe_dist : ℕ

-- The zeroed entry; `kEmptyKey` is 0.
abbrev pub empty_entry : MapEntry
empty_entry = record { key = 0; value = 0; probe_dist = 0 }

-- `bits` is `__builtin_ctz(capacity_)`: the capacity is a power of two.
pub record OrderMap : Type 0 where
  pub table : ℕ → MapEntry
  pub bits : ℕ
  pub size : ℕ

abbrev pub capacity : OrderMap → ℕ
capacity m = 2 ^ m.bits

-- `OrderMap::reset`, and the constructor
unfoldable pub reset : OrderMap → OrderMap
reset m = record m { table = λ i. if ltb i (capacity m) then empty_entry else m.table i; size = 0 }

-- `hash_slot`: the top bits of the product.
unfoldable pub hash_slot : OrderMap → ℕ → ℕ
hash_slot m id = (id * 11400714819323198485 % 2 ^ 64) / 2 ^ (64 - m.bits) % 2 ^ 32

-- The loop of `find`, and the first loop of `erase`: the slot of the key, if it is there.
unfoldable pub find_from : OrderMap → ℕ → ℕ → ℕ → ℕ → Option (Option ℕ)
find_from m id zero slot dist = none
find_from m id (suc n) slot dist =
    let e = m.table (slot % capacity m) in
    elim ((e.key == 0) || ltb e.probe_dist dist) [
      | true ↦ some none
      | false ↦ elim (e.key == id) [
        | true ↦ some (some slot)
        | false ↦ find_from m id n ((slot + 1) % 2 ^ 32) ((dist + 1) % 2 ^ 16)
      ]
    ]

-- `OrderMap::find`
unfoldable pub find : OrderMap → ℕ → Option ℕ
find m id = do
  found ← find_from m id (capacity m) (hash_slot m id) 0
  elim found [ none ↦ some map_empty | some slot ↦ some (m.table (slot % capacity m)).value ]

-- The loop of `insert`.
unfoldable pub insert_from : OrderMap → ℕ → ℕ → ℕ → MapEntry → ℕ → Option OrderMap
insert_from m id pool_idx zero to_insert slot = none
insert_from m id pool_idx (suc n) to_insert slot =
    let place = slot % capacity m in
    let e = m.table place in
    elim (e.key == 0) [
      | true ↦
          some (record m { table = update m.table place to_insert; size = (m.size + 1) % 2 ^ 32 })
      | false ↦ elim (e.key == id) [
        | true ↦ some (record m { table = update m.table place (record e { value = pool_idx }) })
        | false ↦ elim (ltb e.probe_dist to_insert.probe_dist) [
          | true ↦
              insert_from (record m { table = update m.table place to_insert }) id pool_idx n
                (record e { probe_dist = (e.probe_dist + 1) % 2 ^ 16 }) ((slot + 1) % 2 ^ 32)
          | false ↦
              insert_from m id pool_idx n
                (record to_insert { probe_dist = (to_insert.probe_dist + 1) % 2 ^ 16 })
                ((slot + 1) % 2 ^ 32)
        ]
      ]
    ]

-- `OrderMap::insert`, which returns true whenever it returns.
unfoldable pub insert : OrderMap → ℕ → ℕ → Option OrderMap
insert m id pool_idx =
    insert_from m id pool_idx (capacity m) (record { key = id; value = pool_idx; probe_dist = 0 })
      (hash_slot m id)

-- The second loop of `erase`, the backward shift.
unfoldable pub shift_from : OrderMap → ℕ → ℕ → Option (ℕ → MapEntry)
shift_from m zero pos = none
shift_from m (suc n) pos =
    let next = (pos + 1) % 2 ^ 32 % capacity m in
    let next_e = m.table next in
    elim ((next_e.key == 0) || (next_e.probe_dist == 0)) [
      | true ↦ some (update m.table (pos % capacity m) empty_entry)
      | false ↦
          shift_from
            (record m {
              table =
                  update m.table (pos % capacity m)
                    (record next_e { probe_dist = next_e.probe_dist - 1 });
            })
            n next
    ]

-- `OrderMap::erase`
unfoldable pub erase : OrderMap → ℕ → Option (OrderMap × Bool)
erase m id = do
  found ← find_from m id (capacity m) (hash_slot m id) 0
  elim found [
    | none ↦ some (m, false)
    | some slot ↦ do
      table ← shift_from m (capacity m) slot
      some (record m { table = table; size = (m.size + 2 ^ 32 - 1) % 2 ^ 32 }, true)
  ]
