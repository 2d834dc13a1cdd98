-- ===== src/Book/Map/History.antt =====
-- A whole history of calls on the map, against a finite map.
use itch_feed_handler.Common.{
  ℕ, zero, suc, ◌+◌, ◌%◌, ◌^◌, ◌<◌, ◌≡◌, ◌≢◌, arith, refl, sym, ap, ◌∙◌, subst, Option, none, some,
  ◌⊎◌, inl, inr, ◌↔◌, Bool, true, false, List, [], ◌∷◌, length, has, distinct-le, ℕ_discrete,
  Option-cases, min, ltb, lt→ltb,
}
use Prim.Native.Nat.{◌∣◌}
use mathlib.Core.Option.{some-injective, some-ne-none}
use itch_feed_handler.Book.Map.{OrderMap, capacity, find, reset, hash_slot}
use native.Mathlib.Nat.{mod-lt}
use itch_feed_handler.Book.Map.Inserted.{positive}
use itch_feed_handler.Book.Map.Places.{mod_apart}
use itch_feed_handler.Book.Map.Probed.{entry_at, free-IsProbed}
use itch_feed_handler.Book.Map.Rounds.{HasRoom, RoomAhead}
use itch_feed_handler.Book.Map.Found.{IsValid, find-Stored, find_absent}
use itch_feed_handler.Book.Map.Lookup.{Contains, Sets, insert-Sets, near-HasRoom}
use itch_feed_handler.Book.Map.Removed.{Erases, erase-Erases}
use itch_feed_handler.Book.Map.Calls.{
  Call, insert_call, find_call, erase_call, run, is_some, value_or_empty, set, run_map, AreKeys,
  insertions,
}

-- The table holds the finite map, with keys of a list.
pub record Models (w : ℕ) (m : OrderMap) (f : ℕ → Option ℕ) (keys : List ℕ) : Type 0 where
  pub valid : IsValid w m
  pub same : (k u : ℕ) → k ≢ 0 → Contains m k u ↔ (f k ≡ some u)
  pub known :
      (s : ℕ)
      → (entry_at (capacity m) m.table s).key ≢ 0
      → has (entry_at (capacity m) m.table s).key keys ≡ true

-- The first empty slot among n, or none.
look :
    (m : OrderMap) (slot n : ℕ)
    → RoomAhead m n slot ⊎ ((i : ℕ) → i < n → (entry_at (capacity m) m.table (slot + i)).key ≢ 0)
look m slot zero = inr (λ i h. absurd (omega arith))
look m slot (suc n) = elim (ℕ_discrete (entry_at (capacity m) m.table (slot + n)).key 0) [
  | yes free ↦ inl (n, omega arith, free)
  | no taken ↦ elim (look m slot n) [
    | inl (k, few, free) ↦ inl (k, omega arith, free)
    | inr all ↦ inr (λ i h e. elim (ℕ_discrete i n) [
      | yes last ↦ taken (ap (λ j. (entry_at (capacity m) m.table (slot + j)).key) (sym last) ∙ e)
      | no before ↦ all i (omega arith) e
    ])
  ]
]

-- With fewer keys than w there is an empty slot among any w.
few-RoomAhead :
    (w : ℕ) (m : OrderMap) (f : ℕ → Option ℕ) (keys : List ℕ) (slot : ℕ)
    → Models w m f keys
    → length keys < w
    → RoomAhead m w slot
few-RoomAhead w m f keys slot h few = elim (look m slot w) [
  | inl room ↦ room
  | inr all ↦
      let c = capacity m in
      let bound =
        distinct-le keys w (λ i. (entry_at c m.table (slot + i)).key)
          (λ i j low low' same.
            mod_apart c slot i j (omega (arith, h.valid.fits)) (omega (arith, h.valid.fits))
              (h.valid.once (slot + i) (slot + j) (all i low) same))
          (λ i low. h.known (slot + i) (all i low)) in
      absurd (omega arith)
]

few-HasRoom :
    (w : ℕ) (m : OrderMap) (f : ℕ → Option ℕ) (keys : List ℕ)
    → Models w m f keys
    → length keys < w
    → HasRoom m
few-HasRoom w m f keys h few = near-HasRoom w m 0 h.valid (few-RoomAhead w m f keys 0 h few)

find-Models :
    (w : ℕ) (m : OrderMap) (f : ℕ → Option ℕ) (keys : List ℕ) (id : ℕ)
    → Models w m f keys
    → length keys < w
    → id ≢ 0
    → find m id ≡ some (value_or_empty (f id))
find-Models w m f keys id h few held = elim (Option-cases (f id)) [
  | inl none_there ↦
      find_absent w m h.valid id held (few-HasRoom w m f keys h few) (λ s key. some-ne-none _ (
        sym ((h.same id (entry_at (capacity m) m.table s).value held).0 (s, key, refl))
        ∙ none_there))
      ∙ ap (λ v. some (value_or_empty v)) (sym none_there)
  | inr (v, there) ↦
      find-Stored w m h.valid id held v ((h.same id v held).1 there)
      ∙ ap (λ v. some (value_or_empty v)) (sym there)
]

insert-Models :
    (w : ℕ) (m m' : OrderMap) (f : ℕ → Option ℕ) (keys : List ℕ) (id v : ℕ)
    → Models w m f keys
    → id ≢ 0
    → Sets w m id v m'
    → Models w m' (set f id (some v)) (id ∷ keys)
insert-Models w m m' f keys id v h held sets = record {
  valid = sets.valid;
  same = λ k u some_key. elim (ℕ_discrete k id) [
    | yes here ↦
        let (s', key', value') = sets.new in
        (
          λ (s, key, value).
              let place =
                sets.valid.once s s' (λ z. some_key (sym key ∙ z)) (key ∙ here ∙ sym key') in
              let v_is_u : v ≡ u = sym value' ∙ ap (λ i. (m'.table i).value) (sym place) ∙ value in
              ground arith,
          λ e.
              let v_is_u : v ≡ u = some-injective _ _ (ground arith) in
              (s', key' ∙ sym here, value' ∙ v_is_u),
        )
    | no other ↦
        let (on, off) = sets.others k u some_key other in
        let (model, back) = h.same k u some_key in
        (λ stored. ground (arith, model (off stored)), λ e. on (back (ground arith)))
  ];
  known = λ s taken. elim (ℕ_discrete (entry_at (capacity m') m'.table s).key id) [
    | yes here ↦ ground arith
    | no other ↦
        let (s', key, value) = (sets.others _ _ taken other).1 (s, refl, refl) in
        let kept : has (entry_at (capacity m') m'.table s).key keys ≡ true =
          subst (λ k. has k keys ≡ true) key (h.known s' (λ z. taken (sym key ∙ z))) in
        ground (arith, kept)
  ];
}

erase-Models :
    (w : ℕ) (m m' : OrderMap) (f : ℕ → Option ℕ) (keys : List ℕ) (id : ℕ) (done : Bool)
    → Models w m f keys
    → id ≢ 0
    → Erases w m id m' done
    → Models w m' (set f id none) keys
erase-Models w m m' f keys id done h held e = record {
  valid = e.valid;
  same = λ k u some_key. elim (ℕ_discrete k id) [
    | yes here ↦
        (λ (s, key, value). absurd (e.gone s (key ∙ here)), λ some_value. absurd (ground arith))
    | no other ↦
        let (on, off) = e.others k u some_key other in
        let (model, back) = h.same k u some_key in
        (λ stored. ground (arith, model (off stored)), λ e. on (back (ground arith)))
  ];
  known = λ s taken.
      let other : (entry_at (capacity m') m'.table s).key ≢ id = e.gone s in
      let (s', key, value) = (e.others _ _ taken other).1 (s, refl, refl) in
      subst (λ k. has k keys ≡ true) key (h.known s' (λ z. taken (sym key ∙ z)));
}

erase-answer :
    (w : ℕ) (m m' : OrderMap) (f : ℕ → Option ℕ) (keys : List ℕ) (id : ℕ) (done : Bool)
    → Models w m f keys
    → id ≢ 0
    → Erases w m id m' done
    → done ≡ is_some (f id)
erase-answer w m m' f keys id true h held e =
    let (u, stored) = e.answers.0 refl in ap is_some (sym ((h.same id u held).0 stored))
erase-answer w m m' f keys id false h held e = elim (Option-cases (f id)) [
  | inl none_there ↦ ap is_some (sym none_there)
  | inr (u, there) ↦ e.answers.1 (u, (h.same id u held).1 there) ∙ ap is_some (sym there)
]

pub run-Models :
    (w : ℕ) (m : OrderMap) (f : ℕ → Option ℕ) (keys : List ℕ) (calls : List Call)
    → Models w m f keys
    → AreKeys calls
    → length keys + insertions calls < w
    → run m calls ≡ some (run_map f calls)
run-Models w m f keys [] h all few = refl
run-Models w m f keys (insert_call id v ∷ calls) h all few =
    let (m', step, sets) =
      insert-Sets w m id v h.valid (few-RoomAhead w m f keys (hash_slot m id) h (omega arith))
        all.0 in
    let rest =
      run-Models w m' (set f id (some v)) (id ∷ keys) calls
        (insert-Models w m m' f keys id v h all.0 sets) all.1 (omega arith) in
    rw (step, rest) refl
run-Models w m f keys (find_call id ∷ calls) h all few =
    let step = find-Models w m f keys id h (omega arith) all.0 in
    let rest = run-Models w m f keys calls h all.1 few in rw (step, rest) refl
run-Models w m f keys (erase_call id ∷ calls) h all few =
    let (m', done, step, e) =
      erase-Erases w m id h.valid (few-HasRoom w m f keys h (omega arith)) all.0 in
    let rest =
      run-Models w m' (set f id none) keys calls (erase-Models w m m' f keys id done h all.0 e)
        all.1 few in
    rw (step, rest, erase-answer w m m' f keys id done h all.0 e) refl

reset_empty : (m : OrderMap) (s : ℕ) → (entry_at (capacity m) (reset m).table s).key ≡ 0
unfolding reset
reset_empty m s =
    let low : ltb (s % capacity m) (capacity m) ≡ true =
      lt→ltb (s % capacity m) (capacity m) (mod-lt s (positive m.bits (λ i. i) 0)) in
    rw low refl

reset-Models :
    (m : OrderMap)
    → capacity m ∣ 2 ^ 32
    → Models (min (capacity m) (2 ^ 16)) (reset m) (λ k. none) []
unfolding reset
reset-Models m d =
    let w = min (capacity m) (2 ^ 16) in
    let (probed, once) =
      free-IsProbed (capacity m) (hash_slot (reset m)) w (reset m).table (reset_empty m) in
    record {
      valid = record {
        divides = d;
        fits = omega arith;
        small = omega arith;
        probed = probed;
        once = once;
      };
      same = λ k u some_key. (
        λ (s, key, value). absurd (some_key (sym key ∙ reset_empty m s)),
        λ e. absurd (some-ne-none _ (sym e)),
      );
      known = λ s taken. absurd (taken (reset_empty m s));
    }

-- Any calls on a map that was reset, with keys that are not 0 and fewer insertions than the table has
-- slots and than 2^16: every call returns, and returns what the finite map does.
pub run-reset :
    (m : OrderMap) (calls : List Call)
    → capacity m ∣ 2 ^ 32
    → AreKeys calls
    → insertions calls < capacity m
    → insertions calls < 2 ^ 16
    → run (reset m) calls ≡ some (run_map (λ k. none) calls)
run-reset m calls d all few small =
    run-Models (min (capacity m) (2 ^ 16)) (reset m) (λ k. none) [] calls (reset-Models m d) all
      (omega arith)
