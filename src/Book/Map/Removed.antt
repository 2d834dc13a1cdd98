-- ===== src/Book/Map/Removed.antt =====
-- What `OrderMap::find` returns after `OrderMap::erase`.
use itch_feed_handler.Common.{
  ℕ, ◌+◌, ◌-◌, ◌%◌, ◌^◌, ◌≡◌, ◌≢◌, arith, refl, sym, ap, ◌∙◌, none, some, returns, ◌↔◌, Bool, true,
  false,
}
use mathlib.Core.Option.{some-injective, some-ne-none}
use itch_feed_handler.Book.Map.{
  OrderMap, MapEntry, capacity, find, find_from, erase, hash_slot, map_empty,
}
use itch_feed_handler.Book.Map.Probed.{entry_at}
use itch_feed_handler.Book.Map.Rounds.{HasRoom, ahead, find_from_total}
use itch_feed_handler.Book.Map.Erase.{find_from_found, shift_from_total, shift_from_room}
use itch_feed_handler.Book.Map.Found.{IsValid, find_from-Stored, find_absent}
use itch_feed_handler.Book.Map.Inserted.{positive}
use itch_feed_handler.Book.Map.Lookup.{Contains, find_congr, with_table, made-IsValid}
use itch_feed_handler.Book.Map.Shifted.{Removes, shift_from-Removes}

-- The map and the result of a call that removes a key.
pub record Erases (w : ℕ) (m : OrderMap) (id : ℕ) (m' : OrderMap) (done : Bool) : Type 0 where
  pub valid : IsValid w m'
  pub room : HasRoom m'
  pub gone : (s : ℕ) → (entry_at (capacity m') m'.table s).key ≢ id
  pub others : (k u : ℕ) → k ≢ 0 → k ≢ id → Contains m k u ↔ Contains m' k u
  pub answers : (done ≡ true) ↔ ((u : ℕ) × Contains m id u)

module _ (w : ℕ) (m : OrderMap) (id : ℕ) (v : IsValid w m) (room : HasRoom m) (held : id ≢ 0) where
  abbrev c : ℕ
  c = capacity m

  -- The other keys of the map after the shift.
  shifted_others :
      (slot size : ℕ) (t : ℕ → MapEntry)
      → (entry_at c m.table slot).key ≡ id
      → Removes (hash_slot m) w m slot t
      → (k u : ℕ) → k ≢ 0
      → k ≢ id
      → Contains m k u ↔ Contains (with_table m t size) k u
  shifted_others slot size t key r k u some_key other =
      let (on, off) = r.keeps k u some_key in
      (
        λ (s, key', value).
            on (s, (λ z. other (sym key' ∙ ap (λ i. (m.table i).key) z ∙ key)), key', value),
        λ stored. let (s, there, key', value) = off stored in (s, key', value),
      )

  shifted_absent :
      (slot : ℕ) (t : ℕ → MapEntry)
      → (entry_at c m.table slot).key ≡ id
      → Removes (hash_slot m) w m slot t
      → (s : ℕ) → (entry_at c t s).key ≢ id
  shifted_absent slot t key r s same =
      let (s', there, key', value) = (r.keeps id (entry_at c t s).value held).1 (s, same, refl) in
      there (v.once s' slot (λ z. held (sym key' ∙ z)) (key' ∙ sym key))

  erase_present :
      (slot : ℕ)
      → find_from m id c (hash_slot m id) 0 ≡ some (some slot)
      → (m' : OrderMap) × (done : Bool) × (erase m id ≡ some (m', done)) × Erases w m id m' done
  unfolding erase
  erase_present slot run =
      let (key, taken) = find_from_found m id c (hash_slot m id) 0 slot run in
      let (t, shifted) = returns _ (shift_from_total m c slot room.0 taken (ahead m _ room)) in
      let r =
        shift_from-Removes (hash_slot m) w m c slot t room.0 v.fits v.probed
          (λ s s' _ _. v.once s s') shifted in
      let size = (m.size + 2 ^ 32 - 1) % 2 ^ 32 in
      let m' = with_table m t size in
      let valid = made-IsValid w m t size v r.probed r.once in
      let room' : HasRoom m' =
        (room.0, shift_from_room m c slot t (positive m.bits (hash_slot m) w) shifted) in
      (
        m',
        true,
        rw (run, shifted) refl,
        record {
          valid = valid;
          room = room';
          gone = shifted_absent slot t key r;
          others = λ k u some_key other. shifted_others slot size t key r k u some_key other;
          answers = (λ _. ((entry_at c m.table slot).value, (slot, key, refl)), λ _. refl);
        },
      )

  erase_missing :
      find_from m id c (hash_slot m id) 0 ≡ some none
      → (m' : OrderMap) × (done : Bool) × (erase m id ≡ some (m', done)) × Erases w m id m' done
  unfolding erase
  erase_missing run =
      let absent : (u : ℕ) → Contains m id u → ⊥ = λ u stored.
        let (s, run', value) = find_from-Stored w m v id held u stored in
        some-ne-none _ (some-injective _ _ (sym run' ∙ run)) in
      (
        m,
        false,
        rw run refl,
        record {
          valid = v;
          room = room;
          gone = λ s key. absent (entry_at c m.table s).value (s, key, refl);
          others = λ k u some_key other. ((λ h. h), λ h. h);
          answers = (λ h. absurd (ground arith), λ (u, stored). absurd (absent u stored));
        },
      )

pub erase-Erases :
    (w : ℕ) (m : OrderMap) (id : ℕ)
    → IsValid w m
    → HasRoom m
    → id ≢ 0
    → (m' : OrderMap) × (done : Bool) × (erase m id ≡ some (m', done)) × Erases w m id m' done
erase-Erases w m id v room held =
    let (r, run) = find_from_total m id (capacity m) (hash_slot m id) 0 room.0 (ahead m _ room) in
    elim r
        as (λ r.
          find_from m id (capacity m) (hash_slot m id) 0 ≡ some r
          → (m' : OrderMap) × (done : Bool) × (erase m id ≡ some (m', done))
            × Erases w m id m' done) [
              | none ↦ erase_missing w m id v room held
              | some slot ↦ erase_present w m id v room held slot
            ]
      run

-- In a table in Robin Hood order with an empty slot: `erase` returns, and says whether the key was
-- there. After it the key is not found, every other key with what it was found with before, and the
-- order and an empty slot are kept.
find-erase :
    (w : ℕ) (m : OrderMap) (id : ℕ)
    → IsValid w m
    → HasRoom m
    → id ≢ 0
    → (m' : OrderMap) × (done : Bool) × (erase m id ≡ some (m', done))
      × ((done ≡ true) ↔ ((u : ℕ) × Contains m id u))
      × IsValid w m'
      × HasRoom m'
      × (find m' id ≡ some map_empty)
      × ((k : ℕ) → k ≢ 0 → k ≢ id → find m' k ≡ find m k)
find-erase w m id v room held =
    let (m', done, run, e) = erase-Erases w m id v room held in
    (
      m',
      done,
      run,
      e.answers,
      e.valid,
      e.room,
      find_absent w m' e.valid id held e.room e.gone,
      λ k some_key other.
          find_congr w m m' k v e.valid some_key room e.room (λ u. e.others k u some_key other),
    )
