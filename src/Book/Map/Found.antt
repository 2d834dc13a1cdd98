-- ===== src/Book/Map/Found.antt =====
-- `OrderMap::find` on a table in Robin Hood order: it finds what is there and nothing else.
use itch_feed_handler.Common.{
  ℕ, zero, suc, ◌+◌, ◌%◌, ◌^◌, ◌≤◌, ◌<◌, ◌≡◌, ◌≢◌, arith, refl, sym, ap, ◌∙◌, ℕ_discrete, Option,
  none, some, ◌⊎◌, inl, inr,
}
use Prim.Native.Nat.{◌∣◌}
use mathlib.Core.Option.{some-injective, some-ne-none}
use native.Mathlib.Nat.{mod-mod_of_dvd, mod-eq_of_lt}
use itch_feed_handler.Book.Map.{OrderMap, MapEntry, capacity, find_from, find, hash_slot, map_empty}
use itch_feed_handler.Book.Map.Places.{mod_congr}
use itch_feed_handler.Book.Map.Probed.{entry_at, IsProbed, IsOnce, Stored, chain}
use itch_feed_handler.Book.Map.Rounds.{HasRoom, find_from_total, ahead}
use itch_feed_handler.Book.Map.Erase.{find_from_found}

-- A table in order whose probe distances stay below w, which is small enough for their 16 bits.
pub record IsValid (w : ℕ) (m : OrderMap) : Type 0 where
  pub divides : capacity m ∣ 2 ^ 32
  pub fits : w ≤ capacity m
  pub small : w ≤ 2 ^ 16
  pub probed : IsProbed (capacity m) (hash_slot m) w m.table
  pub once : IsOnce (capacity m) m.table

-- The slot after the next wrap of the 32-bit counter.
pub next_slot :
    (c slot a j : ℕ)
    → c ∣ 2 ^ 32
    → slot % c ≡ (a + j) % c
    → (slot + 1) % 2 ^ 32 % c ≡ (a + (j + 1)) % c
next_slot c slot a j d e =
    mod-mod_of_dvd c (slot + 1) d ∙ mod_congr c slot (a + j) 1 e ∙ ap (λ i. i % c) (omega arith)

module _ (w : ℕ) (m : OrderMap) (v : IsValid w m) (id : ℕ) (valid_id : id ≢ 0) where
  abbrev c : ℕ
  c = capacity m

  find_from_stored :
      (a j i n slot : ℕ)
      → slot % c ≡ (a + j) % c
      → (entry_at c m.table (a + (j + i))).key ≡ id
      → (entry_at c m.table (a + (j + i))).probe_dist ≡ j + i
      → i < n
      → (s : ℕ) × (find_from m id n slot j ≡ some (some s)) × (s % c ≡ (a + (j + i)) % c)
  unfolding find_from
  find_from_stored a j i zero slot e key dist more = absurd (omega arith)
  find_from_stored a j zero (suc n) slot e key dist more =
      let here : slot % c ≡ (a + (j + 0)) % c = e ∙ ap (λ i. i % c) (omega arith) in
      let t = ap m.table here in
      let key' = ap (λ (x : MapEntry). x.key) t ∙ key in
      let dist' : (m.table (slot % c)).probe_dist ≡ j =
        ap (λ (x : MapEntry). x.probe_dist) t ∙ dist ∙ (omega arith) in
      (slot, ground arith, here)
  find_from_stored a j (suc i) (suc n) slot e key dist more =
      let held : (entry_at c m.table (a + (j + suc i))).key ≢ 0 = λ z. valid_id (sym key ∙ z) in
      let (taken, far) =
        chain c (hash_slot m) w m.table a j (suc i) v.probed held (omega (arith, dist)) in
      let t = ap m.table e in
      let taken' : (m.table (slot % c)).key ≢ 0 =
        λ z. taken (sym (ap (λ (x : MapEntry). x.key) t) ∙ z) in
      let far' : j ≤ (m.table (slot % c)).probe_dist =
        omega (arith, far, ap (λ (x : MapEntry). x.probe_dist) t) in
      elim (ℕ_discrete (m.table (slot % c)).key id) [
        | yes same ↦ (slot, ground arith, v.once slot (a + (j + suc i)) taken' (same ∙ sym key))
        | no other ↦
            let near = v.probed.near (a + (j + suc i)) held in
            let next = mod-eq_of_lt {n = j + 1} {m = 2 ^ 16} (omega (arith, near, dist, v.small)) in
            let shift : a + (j + 1 + i) ≡ a + (j + suc i) = omega arith in
            let (s, run, place) =
              find_from_stored a (j + 1) i n ((slot + 1) % 2 ^ 32)
                (next_slot c slot a j v.divides e)
                (ap (λ k. (entry_at c m.table k).key) shift ∙ key)
                (ap (λ k. (entry_at c m.table k).probe_dist) shift ∙ dist ∙ (omega arith))
                (omega arith) in
            let run' = ap (λ d. find_from m id n ((slot + 1) % 2 ^ 32) d) next ∙ run in
            (s, ground arith, place ∙ ap (λ k. k % c) shift)
      ]

  -- The loop stops at the slot of a key that is there.
  pub find_from-Stored :
      (x : ℕ)
      → Stored c m.table id x
      → (s : ℕ) × (find_from m id c (hash_slot m id) 0 ≡ some (some s))
        × ((m.table (s % c)).value ≡ x)
  find_from-Stored x (s, key, value) =
      let held : (entry_at c m.table s).key ≢ 0 = λ z. valid_id (sym key ∙ z) in
      let d = (entry_at c m.table s).probe_dist in
      let home : (hash_slot m id + (0 + d)) % c ≡ s % c =
        ap (λ i. (hash_slot m id + i) % c) (omega arith)
        ∙ ap (λ k. (hash_slot m k + d) % c) (sym key)
        ∙ v.probed.placed s held in
      let t = ap m.table home in
      let (s', run, place) =
        find_from_stored (hash_slot m id) 0 d c (hash_slot m id) (ap (λ i. i % c) (omega arith))
          (ap (λ (x : MapEntry). x.key) t ∙ key)
          (ap (λ (x : MapEntry). x.probe_dist) t ∙ (omega arith))
          (omega (arith, v.probed.near s held, v.fits)) in
      (s', run, ap (λ i. (m.table i).value) (place ∙ home) ∙ value)

  -- A key that stands in a slot is found with its value.
  pub find-Stored : (x : ℕ) → Stored c m.table id x → find m id ≡ some x
  unfolding find
  find-Stored x stored =
      let (s, run, value) = find_from-Stored x stored in rw run (ap (λ i. some i) value)

  -- Each key stands in a slot or in none.
  pub Stored-cases :
      HasRoom m → ((x : ℕ) × Stored c m.table id x) ⊎ ((s : ℕ) → (entry_at c m.table s).key ≢ id)
  Stored-cases room =
      let (r, run) = find_from_total m id c (hash_slot m id) 0 room.0 (ahead m _ room) in
      cases r run
    where
      cases :
          (r : Option ℕ)
          → find_from m id c (hash_slot m id) 0 ≡ some r
          → ((x : ℕ) × Stored c m.table id x) ⊎ ((s : ℕ) → (entry_at c m.table s).key ≢ id)
      cases none run = inr (λ s key.
          let (s', run', value) = find_from-Stored (entry_at c m.table s).value (s, key, refl) in
          some-ne-none _ (some-injective _ _ (sym run' ∙ run)))
      cases (some s) run = inl (
        (entry_at c m.table s).value,
        (s, (find_from_found m id c (hash_slot m id) 0 s run).0, refl),
      )

  -- A key that stands in no slot is not found.
  pub find_absent :
      HasRoom m → ((s : ℕ) → (entry_at c m.table s).key ≢ id) → find m id ≡ some map_empty
  unfolding find
  find_absent room out =
      let (r, run) = find_from_total m id c (hash_slot m id) 0 room.0 (ahead m _ room) in
      absent r run
    where
      absent :
          (r : Option ℕ) → find_from m id c (hash_slot m id) 0 ≡ some r → find m id ≡ some map_empty
      absent none run = rw run refl
      absent (some s) run = absurd (out s (find_from_found m id c (hash_slot m id) 0 s run).0)
