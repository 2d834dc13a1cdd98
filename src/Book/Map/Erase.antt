-- ===== src/Book/Map/Erase.antt =====
-- Erasing a key ends, and leaves an empty slot.
use itch_feed_handler.Common.{
  ℕ, zero, suc, ◌+◌, ◌-◌, ◌%◌, ◌^◌, ◌<◌, ◌≡◌, ◌≢◌, arith, Bool, Option, none, some, refl, sym, ap,
  ◌∙◌, ℕ_discrete, dec_lt, returns, update, update_self, Bool-cases, inl, inr, ◌==◌, ◌||◌,
}
use Prim.Native.Nat.{◌∣◌}
use mathlib.Core.Option.{some-injective}
use native.Mathlib.Nat.{mod-add-mod, mod-mod}
use itch_feed_handler.Book.Map.{
  OrderMap, MapEntry, empty_entry, capacity, find_from, shift_from, erase, hash_slot,
}
use itch_feed_handler.Book.Map.Rounds.{
  RoomAhead, HasRoom, step_mod, ahead, further, find_from_total, swapped,
}

-- The loop of `find` stops at a slot only if the slot holds the key.
pub find_from_found :
    (m : OrderMap) (id n slot dist s : ℕ)
    → find_from m id n slot dist ≡ some (some s)
    → ((m.table (s % capacity m)).key ≡ id) × ((m.table (s % capacity m)).key ≢ 0)
unfolding find_from
find_from_found m id zero slot dist s h = ground arith
find_from_found m id (suc n) slot dist s h =
    let e = m.table (slot % capacity m) in
    let rest = find_from_found m id n ((slot + 1) % 2 ^ 32) ((dist + 1) % 2 ^ 16) s in
    elim (ℕ_discrete e.key 0) [
      | yes z ↦ ground arith
      | no z ↦ elim (dec_lt e.probe_dist dist) [
        | yes p ↦ ground arith
        | no p ↦ elim (ℕ_discrete e.key id) [
          | yes q ↦
              let found : some (some slot) ≡ some (some s) = ground arith in
              let same : s ≡ slot = sym (some-injective _ _ (some-injective _ _ found)) in
              let key = ap (λ x. (m.table (x % capacity m)).key) same in
              (key ∙ q, λ e. z (sym key ∙ e))
          | no q ↦ rest (ground arith)
        ]
      ]
    ]

-- The empty slot ahead of a place is ahead of its index.
same_ahead :
    (c slot k : ℕ) → c ∣ 2 ^ 32 → ((slot % c + 1) % 2 ^ 32 + k) % c ≡ ((slot + 1) % 2 ^ 32 + k) % c
same_ahead c slot k d =
    step_mod c (slot % c) k d ∙ mod-add-mod slot c (suc k) ∙ sym (step_mod c slot k d)

written :
    (m : OrderMap) (place : ℕ) (entry : MapEntry) (i : ℕ)
    → entry.key ≢ 0
    → (m.table i).key ≢ 0
    → (update m.table place entry i).key ≢ 0
written m place entry i h k = ground arith

pub shift_from_total :
    (m : OrderMap) (n pos : ℕ)
    → capacity m ∣ 2 ^ 32
    → (m.table (pos % capacity m)).key ≢ 0
    → RoomAhead m n ((pos + 1) % 2 ^ 32)
    → shift_from m n pos ≢ none
unfolding shift_from
shift_from_total m zero pos d held (k, low, empty) = absurd (omega arith)
shift_from_total m (suc n) pos d held room =
    let slot = (pos + 1) % 2 ^ 32 in
    let next = slot % capacity m in
    let next_e = m.table next in
    elim (ℕ_discrete next_e.key 0) [
      | yes z ↦ ground arith
      | no taken ↦
          let (k, low, empty, other) = further m n slot d room taken in
          let entry = record next_e { probe_dist = next_e.probe_dist - 1 } in
          let m' = record m { table = update m.table (pos % capacity m) entry } in
          let empty' = ap (λ j. (m.table j).key) (same_ahead (capacity m) slot k d) ∙ empty in
          let here = ap (λ j. (m.table j).key) (mod-mod slot (capacity m)) in
          let rest =
            shift_from_total m' n next d (written m _ entry _ taken (λ e. taken (sym here ∙ e))) (
              k,
              low,
              swapped m _ entry _ empty' (λ e. held (sym (ap (λ j. (m.table j).key) e) ∙ empty')),
            ) in
          ground arith
    ]

-- The slot that the backward shift clears is empty.
pub shift_from_room :
    (m : OrderMap) (n pos : ℕ) (t : ℕ → MapEntry)
    → 0 < capacity m
    → shift_from m n pos ≡ some t
    → (i : ℕ) × (i < capacity m) × ((t i).key ≡ 0)
unfolding shift_from
shift_from_room m zero pos t some_slot h = ground arith
shift_from_room m (suc n) pos t some_slot h =
    let next = (pos + 1) % 2 ^ 32 % capacity m in
    let next_e = m.table next in
    let m' = record m {
      table =
          update m.table (pos % capacity m) (record next_e { probe_dist = next_e.probe_dist - 1 });
    } in
    elim (Bool-cases ((next_e.key == 0) || (next_e.probe_dist == 0))) [
      | inl stop ↦
          let run : shift_from m (suc n) pos
              ≡ some (update m.table (pos % capacity m) empty_entry) =
            rw (shift_from, stop) refl in
          let result = some-injective _ _ (sym run ∙ h) in
          (
            pos % capacity m,
            grind arith,
            sym (ap (λ f. (f (pos % capacity m)).key) result)
                ∙ ap (λ (e : MapEntry). e.key) (update_self m.table (pos % capacity m) empty_entry),
          )
      | inr go ↦
          let run : shift_from m (suc n) pos ≡ shift_from m' n next = rw (shift_from, go) refl in
          shift_from_room m' n next t some_slot (sym run ∙ h)
    ]

erase_found :
    (m : OrderMap) (id : ℕ) (r : Option ℕ)
    → HasRoom m
    → find_from m id (capacity m) (hash_slot m id) 0 ≡ some r
    → (s : OrderMap × Bool) × (erase m id ≡ some s) × HasRoom s.0
unfolding erase
erase_found m id none room found = rw (erase, found) (_, refl, room)
erase_found m id (some slot) room found =
    let (key, held) = find_from_found m id (capacity m) (hash_slot m id) 0 slot found in
    let (t, shifted) =
      returns _ (shift_from_total m (capacity m) slot room.0 held (ahead m _ room)) in
    let empty = shift_from_room m (capacity m) slot t (omega arith) shifted in
    rw (erase, found, shifted) (_, refl, (room.0, empty))

-- Erasing a key from a table with an empty slot returns, whether or not the key is there, and leaves
-- a table with an empty slot.
pub erase_total :
    (m : OrderMap) (id : ℕ)
    → HasRoom m
    → (r : OrderMap × Bool) × (erase m id ≡ some r) × HasRoom r.0
erase_total m id room =
    let (r, found) = find_from_total m id (capacity m) (hash_slot m id) 0 room.0 (ahead m _ room) in
    erase_found m id r room found
