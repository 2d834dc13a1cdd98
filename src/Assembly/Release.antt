-- ===== src/Assembly/Release.antt =====
-- src/app/feed_handler.cpp, the destructor after `allocate_memory`: no memory is left behind, wherever the
-- requests failed.
use itch_feed_handler.Common.{
  ℕ, ◌≤◌, ◌≡◌, arith, refl, sym, ap, fun_ext, ◌∙◌, dec_lt, Bool, true, false, ◌||◌, ◌&&◌, Option,
  none, some, List, [], ◌∷◌, ◌==◌, if◌then◌else◌, update, update_ne, Bool-cases, Option-cases, inl,
  inr, ℕ_discrete,
}
use itch_feed_handler.Assembly.Memory.{
  Heap, is_block, free, Sizes, pool_bytes, map_bytes, slab_bytes, ShardMem, FeedMemory,
  allocate_memory, free_shards, free_slabs, destroy,
}
use itch_feed_handler.Assembly.Accounts.{
  points, owns_shards, owns_all, or_assoc, allocate_memory-Accounted,
}

-- What is left at an address of which the blocks of some sizes are freed.
abbrev dropped : (ℕ → Bool) → Option ℕ → Option ℕ
dropped w none = none
dropped w (some n) = if w n then none else some n

dropped_twice :
    (v w : ℕ → Bool) (b : Option ℕ) → dropped w (dropped v b) ≡ dropped (λ n. v n || w n) b
dropped_twice v w none = refl
dropped_twice v w (some n) = ground arith

dropped_none : (b : Option ℕ) → dropped (λ n. false) b ≡ b
dropped_none none = refl
dropped_none (some n) = refl

free_lem :
    (h : Heap) (p : Option ℕ) (size a : ℕ)
    → (free h p size).blocks a ≡ dropped (points p size a) (h.blocks a)
unfolding free
free_lem h none size a = sym (dropped_none (h.blocks a))
free_lem h (some p) size a = elim (ℕ_discrete p a) [
  | yes e ↦ elim (Option-cases (h.blocks a)) [
    | inl k ↦ let there : h.blocks p ≡ none = ap h.blocks e ∙ k in rw (free, there, k) refl
    | inr (n, k) ↦
        let there : h.blocks p ≡ some n = ap h.blocks e ∙ k in rw (free, there, k) (ground arith)
  ]
  | no ne ↦
      let other : update h.blocks p none a ≡ h.blocks a =
        update_ne h.blocks p none a (λ e. ne (sym e)) in
      let elsewhere : (p == a) ≡ false = ground arith in
      let keep : dropped (points (some p) size a) (h.blocks a) ≡ h.blocks a =
        ap (λ t. dropped (λ n. t && (n == size)) (h.blocks a)) elsewhere
        ∙ dropped_none (h.blocks a) in
      elim (Bool-cases (is_block (h.blocks p) size)) [
        | inl hit ↦ rw (free, hit, other) (sym keep)
        | inr miss ↦ rw (free, miss) (sym keep)
      ]
]

-- The blocks that the body of the destructor frees for the shards, and those of their books.
abbrev in_bodies : Sizes → List ShardMem → ℕ → ℕ → Bool
in_bodies z [] a n = false
in_bodies z (m ∷ rest) a n =
    (points m.order_pool_mem (pool_bytes z) a n || points m.order_map_mem (map_bytes z) a n)
    || in_bodies z rest a n

abbrev in_slabs : Sizes → List ShardMem → ℕ → ℕ → Bool
in_slabs z [] a n = false
in_slabs z (m ∷ rest) a n = points m.slab (slab_bytes z) a n || in_slabs z rest a n

owns_shards_split :
    (z : Sizes) (ms : List ShardMem) (a n : ℕ)
    → owns_shards z ms a n ≡ (in_bodies z ms a n || in_slabs z ms a n)
owns_shards_split z [] a n = refl
owns_shards_split z (m ∷ rest) a n = rw (owns_shards_split z rest a n) (ground arith)

free_shards_lem :
    (z : Sizes) (h : Heap) (ms : List ShardMem) (a : ℕ)
    → (free_shards z h ms).blocks a ≡ dropped (in_bodies z ms a) (h.blocks a)
unfolding free_shards
free_shards_lem z h [] a = sym (dropped_none (h.blocks a))
free_shards_lem z h (m ∷ rest) a =
    let h1 = free h m.order_pool_mem (pool_bytes z) in
    let h2 = free h1 m.order_map_mem (map_bytes z) in
    let two : h2.blocks a ≡ dropped _ (h.blocks a) =
      free_lem h1 m.order_map_mem (map_bytes z) a
      ∙ ap (dropped _) (free_lem h m.order_pool_mem (pool_bytes z) a)
      ∙ dropped_twice _ _ (h.blocks a) in
    free_shards_lem z h2 rest a ∙ ap (dropped _) two ∙ dropped_twice _ _ (h.blocks a)

free_slabs_lem :
    (z : Sizes) (h : Heap) (ms : List ShardMem) (a : ℕ)
    → (free_slabs z h ms).blocks a ≡ dropped (in_slabs z ms a) (h.blocks a)
unfolding free_slabs
free_slabs_lem z h [] a = sym (dropped_none (h.blocks a))
free_slabs_lem z h (m ∷ rest) a =
    free_slabs_lem z (free h m.slab (slab_bytes z)) rest a
    ∙ ap (dropped _) (free_lem h m.slab (slab_bytes z) a)
    ∙ dropped_twice _ _ (h.blocks a)

destroy_lem :
    (z : Sizes) (h : Heap) (m : FeedMemory) (a : ℕ)
    → (destroy z h m).blocks a ≡ dropped (owns_all z m a) (h.blocks a)
unfolding destroy
destroy_lem z h m a =
    let h1 = free h m.ring_buf z.ring in
    let h2 = free h1 m.secondary_ring_buf z.ring in
    let h3 = free_shards z h2 m.shard_mem in
    let rings : h2.blocks a ≡ dropped _ (h.blocks a) =
      free_lem h1 m.secondary_ring_buf z.ring a
      ∙ ap (dropped _) (free_lem h m.ring_buf z.ring a)
      ∙ dropped_twice _ _ (h.blocks a) in
    let bodies : h3.blocks a ≡ dropped _ (h.blocks a) =
      free_shards_lem z h2 m.shard_mem a ∙ ap (dropped _) rings ∙ dropped_twice _ _ (h.blocks a) in
    free_slabs_lem z h3 m.shard_mem a
    ∙ ap (dropped _) bodies
    ∙ dropped_twice _ _ (h.blocks a)
    ∙ ap (λ w. dropped w (h.blocks a))
        (fun_ext (λ n.
          let rings_have : Bool =
            points m.ring_buf z.ring a n || points m.secondary_ring_buf z.ring a n in
          or_assoc rings_have (in_bodies z m.shard_mem a n) (in_slabs z m.shard_mem a n)
          ∙ ap (λ t. rings_have || t) (sym (owns_shards_split z m.shard_mem a n))))

dropped_hit : (w : ℕ → Bool) (b : Option ℕ) (n : ℕ) → b ≡ some n → w n ≡ true → dropped w b ≡ none
dropped_hit w b n e own = rw e (rw own refl)

-- Wherever the requests fail, the destructor gives back every block that `allocate_memory` was granted,
-- with the size that it was asked for with, and no other block: what is in use is what was in use
-- before.
pub destroy-allocate_memory :
    (z : Sizes) (secondary : Bool) (h : Heap)
    → ((a : ℕ) → h.asked ≤ a → h.blocks a ≡ none)
    → let (h', m, ok) = allocate_memory z secondary h in
      (a : ℕ) → (destroy z h' m).blocks a ≡ h.blocks a
destroy-allocate_memory z secondary h fresh a =
    let (h', m, ok) = allocate_memory z secondary h in
    let acc = allocate_memory-Accounted z secondary h fresh in
    destroy_lem z h' m a ∙ (elim (dec_lt a h.asked) [
      | yes early ↦
          ap (λ w. dropped w (h'.blocks a)) (fun_ext (λ n. acc.apart a n early))
          ∙ dropped_none (h'.blocks a)
          ∙ acc.kept a early
      | no late ↦ elim (acc.owned a (omega arith)) [
        | inl k ↦ rw (k, fresh a (omega arith)) refl
        | inr (n, k, own) ↦ dropped_hit _ _ n k own ∙ sym (fresh a (omega arith))
      ]
    ])
