-- ===== src/Book/Map/Probed.antt =====
-- The order of a Robin Hood table: each entry lies as far behind its home slot as its probe distance
-- says, and a probe distance is at most one more than that of the slot before.
use itch_feed_handler.Common.{
  ℕ, zero, suc, ◌+◌, ◌%◌, ◌≤◌, ◌<◌, ◌≡◌, ◌≢◌, arith, ap, ◌∙◌, ℕ_discrete, update, ◌⊎◌,
}
use itch_feed_handler.Book.Map.{MapEntry, empty_entry}
use itch_feed_handler.Book.Map.Places.{mod_congr}

-- The entry of a slot in a table of c entries.
abbrev pub entry_at : ℕ → (ℕ → MapEntry) → ℕ → MapEntry
entry_at c t s = t (s % c)

module _ (c : ℕ) where
  -- No key has two places.
  abbrev pub IsOnce : (ℕ → MapEntry) → Type 0
  IsOnce t =
      (s s' : ℕ)
      → (entry_at c t s).key ≢ 0
      → (entry_at c t s).key ≡ (entry_at c t s').key
      → s % c ≡ s' % c

  -- A key stands in a slot with a value.
  abbrev pub Stored : (ℕ → MapEntry) → ℕ → ℕ → Type 0
  Stored t k v = (s : ℕ) × ((entry_at c t s).key ≡ k) × ((entry_at c t s).value ≡ v)

module _ (c : ℕ) (home : ℕ → ℕ) (w : ℕ) where
  pub record IsProbed (t : ℕ → MapEntry) : Type 0 where
    pub placed :
        (s : ℕ)
        → (entry_at c t s).key ≢ 0
        → (home (entry_at c t s).key + (entry_at c t s).probe_dist) % c ≡ s % c
    pub lean :
        (s : ℕ)
        → (entry_at c t (s + 1)).key ≢ 0
        → 0 < (entry_at c t (s + 1)).probe_dist
        → ((entry_at c t s).key ≢ 0)
          × ((entry_at c t (s + 1)).probe_dist ≤ (entry_at c t s).probe_dist + 1)
    pub near : (s : ℕ) → (entry_at c t s).key ≢ 0 → (entry_at c t s).probe_dist < w

  -- An entry may stand in a slot: it belongs there, the slot before lets it be as far from home as it
  -- is, and the slot behind keeps the order.
  pub record Fits (t : ℕ → MapEntry) (p : ℕ) (e : MapEntry) : Type 0 where
    pub belongs : (home e.key + e.probe_dist) % c ≡ p % c
    pub close : e.probe_dist < w
    pub before :
        0 < e.probe_dist
        → (s : ℕ) → (s + 1) % c ≡ p % c
        → ((entry_at c t s).key ≢ 0) × (e.probe_dist ≤ (entry_at c t s).probe_dist + 1)

  pub put-IsProbed :
      (t : ℕ → MapEntry) (p : ℕ) (e : MapEntry)
      → 0 < c
      → IsProbed t
      → Fits t p e
      → e.key ≢ 0
      → ((entry_at c t (p + 1)).key ≢ 0 → (entry_at c t (p + 1)).probe_dist ≤ e.probe_dist + 1)
      → IsProbed (update t (p % c) e)
  put-IsProbed t p e pos v f held next = record {
    placed = λ s h. elim (ℕ_discrete (s % c) (p % c)) [
      | yes here ↦ ground (arith, f.belongs, v.placed s)
      | no other ↦ ground (arith, v.placed s)
    ];
    lean = λ s h d. elim (ℕ_discrete ((s + 1) % c) (p % c)) [
      | yes here ↦ elim (ℕ_discrete (s % c) (p % c)) [
        | yes both ↦ ground (arith, v.lean s)
        | no other ↦ ground (arith, f.before (ground arith) s here)
      ]
      | no there ↦ elim (ℕ_discrete (s % c) (p % c)) [
        | yes behind ↦ ground (arith, next, mod_congr c s p 1 behind)
        | no other ↦ ground (arith, v.lean s)
      ]
    ];
    near = λ s h. elim (ℕ_discrete (s % c) (p % c)) [
      | yes here ↦ ground (arith, f.close)
      | no other ↦ ground (arith, v.near s)
    ];
  }

  -- A slot may be cleared when nothing behind it relies on it.
  pub clear-IsProbed :
      (t : ℕ → MapEntry) (p : ℕ)
      → IsProbed t
      → ((entry_at c t (p + 1)).key ≡ 0) ⊎ ((entry_at c t (p + 1)).probe_dist ≡ 0)
      → IsProbed (update t (p % c) empty_entry)
  clear-IsProbed t p v free = record {
    placed = λ s h. elim (ℕ_discrete (s % c) (p % c)) [
      | yes here ↦ ground arith
      | no other ↦ ground (arith, v.placed s)
    ];
    lean = λ s h d. elim (ℕ_discrete ((s + 1) % c) (p % c)) [
      | yes here ↦ ground arith
      | no there ↦ elim (ℕ_discrete (s % c) (p % c)) [
        | yes behind ↦ ground (arith, free, mod_congr c s p 1 behind)
        | no other ↦ ground (arith, v.lean s)
      ]
    ];
    near = λ s h. elim (ℕ_discrete (s % c) (p % c)) [
      | yes here ↦ ground arith
      | no other ↦ ground (arith, v.near s)
    ];
  }

  -- The slots between the home of an entry and the entry are taken, each at least as far from its home
  -- as it is from this one.
  pub chain :
      (t : ℕ → MapEntry) (a j k : ℕ)
      → IsProbed t
      → (entry_at c t (a + (j + k))).key ≢ 0
      → j + k ≤ (entry_at c t (a + (j + k))).probe_dist
      → ((entry_at c t (a + j)).key ≢ 0) × (j ≤ (entry_at c t (a + j)).probe_dist)
  chain t a j zero v held far =
      let same : a + (j + 0) ≡ a + j = omega arith in
      let e = ap (λ i. entry_at c t i) same in
      (
        λ z. held (ap (λ (x : MapEntry). x.key) e ∙ z),
        omega (arith, ap (λ (x : MapEntry). x.probe_dist) e),
      )
  chain t a j (suc k) v held far =
      let same : a + (j + suc k) ≡ a + (j + k) + 1 = omega arith in
      let e = ap (λ i. entry_at c t i) same in
      let key = ap (λ (x : MapEntry). x.key) e in
      let dist = ap (λ (x : MapEntry). x.probe_dist) e in
      let (held', less) = v.lean (a + (j + k)) (λ z. held (key ∙ z)) (omega arith) in
      chain t a j k v held' (omega arith)

  empty-IsProbed : (t : ℕ → MapEntry) → ((s : ℕ) → (entry_at c t s).key ≡ 0) → IsProbed t
  empty-IsProbed t empty = record {
    placed = λ s h. absurd (h (empty s));
    lean = λ s h. absurd (h (empty (s + 1)));
    near = λ s h. absurd (h (empty s));
  }

  pub free-IsProbed :
      (t : ℕ → MapEntry) → ((s : ℕ) → (entry_at c t s).key ≡ 0) → IsProbed t × IsOnce c t
  free-IsProbed t empty = (empty-IsProbed t empty, λ s s' h. absurd (h (empty s)))
