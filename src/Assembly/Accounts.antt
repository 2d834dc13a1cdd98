-- ===== src/Assembly/Accounts.antt =====
-- src/app/feed_handler.cpp, `allocate_memory`: which blocks it has at each point, wherever the requests fail.
use itch_feed_handler.Common.{
  ℕ, ◌≤◌, ◌<◌, ◌≡◌, arith, refl, sym, ap, ◌∙◌, Bool, true, false, ◌||◌, ◌&&◌, Option, none, some,
  List, [], ◌∷◌, ◌==◌, update_ne, Bool-cases, Option-cases, inl, inr, ◌⊎◌, ℕ_discrete,
}
use itch_feed_handler.Assembly.Memory.{
  Heap, alloc, Sizes, pool_bytes, map_bytes, slab_bytes, ShardMem, FeedMemory, no_memory,
  allocate_shard, allocate_shards, allocate_memory,
}

-- Whether a pointer is to the address, with the size.
abbrev pub points : Option ℕ → ℕ → ℕ → ℕ → Bool
points none size a n = false
points (some p) size a n = (p == a) && (n == size)

-- The blocks that a shard has, in the order of the requests.
abbrev owns_shard : Sizes → ShardMem → ℕ → ℕ → Bool
owns_shard z m a n =
    (points m.order_pool_mem (pool_bytes z) a n || points m.order_map_mem (map_bytes z) a n)
    || points m.slab (slab_bytes z) a n

abbrev pub owns_shards : Sizes → List ShardMem → ℕ → ℕ → Bool
owns_shards z [] a n = false
owns_shards z (m ∷ rest) a n = owns_shard z m a n || owns_shards z rest a n

-- Since the heap `base`, every block that came into use is owned, and nothing else is.
pub record Accounted (base h : Heap) (owns : ℕ → ℕ → Bool) : Type 0 where
  pub later : base.asked ≤ h.asked
  pub fresh : (a : ℕ) → h.asked ≤ a → h.blocks a ≡ none
  pub kept : (a : ℕ) → a < base.asked → h.blocks a ≡ base.blocks a
  pub owned :
      (a : ℕ)
      → base.asked ≤ a
      → (h.blocks a ≡ none) ⊎ ((n : ℕ) × (h.blocks a ≡ some n) × (owns a n ≡ true))
  pub apart : (a n : ℕ) → a < base.asked → owns a n ≡ false

Accounted-congr :
    {base h : Heap} {v w : ℕ → ℕ → Bool}
    → ((a n : ℕ) → v a n ≡ w a n)
    → Accounted base h v
    → Accounted base h w
Accounted-congr same acc = record {
  later = acc.later;
  fresh = acc.fresh;
  kept = acc.kept;
  owned = λ a late. elim (acc.owned a late) [
    | inl k ↦ inl k
    | inr (n, k, own) ↦ inr (n, k, sym (same a n) ∙ own)
  ];
  apart = λ a n early. sym (same a n) ∙ acc.apart a n early;
}

alloc-Accounted :
    {base h : Heap} {owns : ℕ → ℕ → Bool} (size : ℕ)
    → Accounted base h owns
    → let (h', p) = alloc h size in Accounted base h' (λ a n. owns a n || points p size a n)
unfolding alloc
alloc-Accounted {base = base} {h = h} {owns = owns} size acc =
    elim (Bool-cases (h.grants h.asked)) [
      | inl granted ↦
          rw (alloc, granted)
            (record {
              later = ground (arith, acc.later);
              fresh = λ a late. ground (arith, acc.later, acc.fresh a);
              kept = λ a early. ground (arith, acc.later, acc.kept a);
              owned = λ a late. elim (ℕ_discrete a h.asked) [
                | yes e ↦ inr (size, ground arith, ground arith)
                | no ne ↦ elim (acc.owned a late) [
                  | inl k ↦ inl (update_ne h.blocks h.asked (some size) a ne ∙ k)
                  | inr (n, k, own) ↦
                      inr (n, update_ne h.blocks h.asked (some size) a ne ∙ k, ground arith)
                ]
              ];
              apart = λ a n early. ground (arith, acc.later, acc.apart a n);
            })
      | inr refused ↦
          rw (alloc, refused)
            (record {
              later = ground (arith, acc.later);
              fresh = λ a late. ground (arith, acc.fresh a);
              kept = acc.kept;
              owned = λ a late. elim (acc.owned a late) [
                | inl k ↦ inl k
                | inr (n, k, own) ↦ inr (n, k, ground arith)
              ];
              apart = λ a n early. ground (arith, acc.apart a n);
            })
    ]

allocate_shard-Accounted :
    {base h : Heap} {owns : ℕ → ℕ → Bool} (z : Sizes)
    → Accounted base h owns
    → let (h', m, ok) = allocate_shard z h in
      Accounted base h' (λ a n. owns a n || owns_shard z m a n)
unfolding allocate_shard
allocate_shard-Accounted {base = base} {h = h} {owns = owns} z acc =
    let one = alloc-Accounted (pool_bytes z) acc in
    let two = alloc-Accounted (map_bytes z) one in
    let three = alloc-Accounted (slab_bytes z) two in
    let first = alloc h (pool_bytes z) in
    let second = alloc first.0 (map_bytes z) in
    elim (Option-cases first.1) [
      | inl e ↦ rw (allocate_shard, e) (Accounted-congr (λ a n. rw e refl) one)
      | inr (p, e) ↦ elim (Option-cases second.1) [
        | inl f ↦ rw (allocate_shard, e, f) (Accounted-congr (λ a n. rw (e, f) (ground arith)) two)
        | inr (q, f) ↦
            rw (allocate_shard, e, f) (Accounted-congr (λ a n. rw (e, f) (ground arith)) three)
      ]
    ]

pub or_assoc : (x y w : Bool) → ((x || y) || w) ≡ (x || (y || w))
or_assoc x y w = ground arith

allocate_shards-Accounted :
    (z : Sizes) (base : Heap) (ms : List ShardMem) (h : Heap) (owns : ℕ → ℕ → Bool)
    → ((a n : ℕ) → owns_shards z ms a n ≡ false)
    → Accounted base h owns
    → let (h', ms', ok) = allocate_shards z h ms in
      Accounted base h' (λ a n. owns a n || owns_shards z ms' a n)
unfolding allocate_shards
allocate_shards-Accounted z base [] h owns empty acc = Accounted-congr (λ a n. ground arith) acc
allocate_shards-Accounted z base (m ∷ rest) h owns empty acc =
    let step = allocate_shard-Accounted z acc in
    let (h1, m1, ok1) = allocate_shard z h in
    let owns1 : ℕ → ℕ → Bool = λ a n. owns a n || owns_shard z m1 a n in
    let none_yet : (a n : ℕ) → owns_shards z rest a n ≡ false = λ a n. ground (arith, empty a n) in
    elim (Bool-cases ok1) [
      | inl ok ↦
          rw (allocate_shards, ok)
            (Accounted-congr (λ a n. or_assoc (owns a n) (owns_shard z m1 a n) _)
              (allocate_shards-Accounted z base rest h1 owns1 none_yet step))
      | inr failed ↦
          rw (allocate_shards, failed)
            (Accounted-congr
              (λ a n.
                ap (λ t. owns a n || t)
                  (sym (ap (λ t. owns_shard z m1 a n || t) (none_yet a n) ∙ ground arith)))
              step)
    ]

-- All blocks, in the order of the requests.
abbrev pub owns_all : Sizes → FeedMemory → ℕ → ℕ → Bool
owns_all z m a n =
    (points m.ring_buf z.ring a n || points m.secondary_ring_buf z.ring a n)
    || owns_shards z m.shard_mem a n

nothing_yet :
    (h : Heap) → ((a : ℕ) → h.asked ≤ a → h.blocks a ≡ none) → Accounted h h (λ a n. false)
nothing_yet h fresh = record {
  later = omega arith;
  fresh = fresh;
  kept = λ a early. refl;
  owned = λ a late. inl (fresh a late);
  apart = λ a n early. refl;
}

pub allocate_memory-Accounted :
    (z : Sizes) (secondary : Bool) (h : Heap)
    → ((a : ℕ) → h.asked ≤ a → h.blocks a ≡ none)
    → let (h', m, ok) = allocate_memory z secondary h in Accounted h h' (owns_all z m)
unfolding allocate_memory
allocate_memory-Accounted z true h fresh =
    let one = alloc-Accounted z.ring (nothing_yet h fresh) in
    let two = alloc-Accounted z.ring one in
    let first = alloc h z.ring in
    let second = alloc first.0 z.ring in
    let all = allocate_shards-Accounted z h no_memory.shard_mem second.0 _ (λ a n. refl) two in
    elim (Option-cases first.1) [
      | inl e ↦ rw (allocate_memory, e) (Accounted-congr (λ a n. rw e refl) one)
      | inr (r, e) ↦ elim (Option-cases second.1) [
        | inl f ↦ rw (allocate_memory, e, f) (Accounted-congr (λ a n. rw (e, f) (ground arith)) two)
        | inr (r2, f) ↦
            rw (allocate_memory, e, f) (Accounted-congr (λ a n. rw (e, f) (ground arith)) all)
      ]
    ]
allocate_memory-Accounted z false h fresh =
    let one = alloc-Accounted z.ring (nothing_yet h fresh) in
    let first = alloc h z.ring in
    let all = allocate_shards-Accounted z h no_memory.shard_mem first.0 _ (λ a n. refl) one in
    elim (Option-cases first.1) [
      | inl e ↦ rw (allocate_memory, e) (Accounted-congr (λ a n. rw e refl) one)
      | inr (r, e) ↦ rw (allocate_memory, e) (Accounted-congr (λ a n. rw e (ground arith)) all)
    ]
