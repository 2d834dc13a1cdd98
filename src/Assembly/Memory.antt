-- ===== src/Assembly/Memory.antt =====
-- src/app/feed_handler.cpp, `allocate_memory` and the destructor: what is asked for is given back, with
-- the size that it was asked for with. The pages come from the system, through
-- src/system/cpu_affinity.cpp; the sizes of the structures are arguments.
use itch_feed_handler.Common.{
  ℕ, ◌+◌, ◌*◌, Bool, true, false, Option, none, some, List, [], ◌∷◌, ◌==◌, if◌then◌else◌, update,
}
use itch_feed_handler.Shard.Worker.{books_per_shard}

-- Which requests the system grants, how many were made, and the sizes of the blocks that are in use, by
-- their addresses. Request i gets the address i.
pub record Heap : Type 0 where
  pub grants : ℕ → Bool
  pub asked : ℕ
  pub blocks : ℕ → Option ℕ

-- `CpuAffinity::alloc_on_numa` and `alloc_packet_ring_buffer`
unfoldable pub alloc : Heap → ℕ → Heap × Option ℕ
alloc h size =
    if h.grants h.asked
    then (
      record h { asked = h.asked + 1; blocks = update h.blocks h.asked (some size) },
      some h.asked,
    )
    else (record h { asked = h.asked + 1 }, none)

abbrev pub is_block : Option ℕ → ℕ → Bool
is_block none size = false
is_block (some n) size = n == size

-- `CpuAffinity::free_numa` and `free_packet_ring_buffer`: nothing for a null pointer. A block that is not
-- in use, or has another size, is left as it is.
unfoldable pub free : Heap → Option ℕ → ℕ → Heap
free h none size = h
free h (some p) size =
    if is_block (h.blocks p) size then record h { blocks = update h.blocks p none } else h

-- `sizeof` of the structures.
pub record Sizes : Type 0 where
  pub ring : ℕ
  pub order : ℕ
  pub entry : ℕ
  pub book : ℕ

abbrev pub max_orders_per_shard : ℕ
max_orders_per_shard = 2000000

abbrev pub order_map_capacity : ℕ
order_map_capacity = 4194304

abbrev pub pool_bytes : Sizes → ℕ
pool_bytes z = max_orders_per_shard * (z.order + 4)

abbrev pub map_bytes : Sizes → ℕ
map_bytes z = order_map_capacity * z.entry

abbrev pub slab_bytes : Sizes → ℕ
slab_bytes z = books_per_shard * z.book

-- `ShardMem`, with the memory of the `OrderBookPool`.
pub record ShardMem : Type 0 where
  pub order_pool_mem : Option ℕ
  pub order_map_mem : Option ℕ
  pub slab : Option ℕ

pub record FeedMemory : Type 0 where
  pub ring_buf : Option ℕ
  pub secondary_ring_buf : Option ℕ
  pub shard_mem : List ShardMem

abbrev pub no_shard : ShardMem
no_shard = record { order_pool_mem = none; order_map_mem = none; slab = none }

-- The body of the loop of `allocate_memory`.
unfoldable pub allocate_shard : Sizes → Heap → Heap × ShardMem × Bool
allocate_shard z h =
    let (h1, pool) = alloc h (pool_bytes z) in
    let (h2, map) = alloc h1 (map_bytes z) in
    let (h3, slab) = alloc h2 (slab_bytes z) in
    elim pool [
      | none ↦ (h1, no_shard, false)
      | some p ↦ elim map [
        | none ↦ (h2, record no_shard { order_pool_mem = some p }, false)
        | some q ↦ (
          h3,
          record { order_pool_mem = some p; order_map_mem = some q; slab = slab },
          elim slab [ none ↦ false | some s ↦ true ],
        )
      ]
    ]

-- The loop, over as many shards as there are left.
unfoldable pub allocate_shards : Sizes → Heap → List ShardMem → Heap × List ShardMem × Bool
allocate_shards z h [] = (h, [], true)
allocate_shards z h (m ∷ rest) =
    let (h', m', ok) = allocate_shard z h in
    let (h'', rest', ok') = allocate_shards z h' rest in
    if ok then (h'', m' ∷ rest', ok') else (h', m' ∷ rest, false)

abbrev pub no_memory : FeedMemory
no_memory = record {
  ring_buf = none;
  secondary_ring_buf = none;
  shard_mem =
      no_shard ∷ no_shard ∷ no_shard ∷ no_shard ∷ no_shard ∷ no_shard ∷ no_shard ∷ no_shard ∷ [];
}

-- `FeedHandler::allocate_memory`, with whether a second feed is configured.
unfoldable pub allocate_memory : Sizes → Bool → Heap → Heap × FeedMemory × Bool
allocate_memory z secondary h =
    let (h1, ring) = alloc h z.ring in
    let (h2, ring2) = if secondary then alloc h1 z.ring else (h1, none) in
    elim ring [
      | none ↦ (h1, no_memory, false)
      | some r ↦
          let (h3, shards, ok) = allocate_shards z h2 no_memory.shard_mem in
          let done : Heap × FeedMemory × Bool = (
            h3,
            record { ring_buf = some r; secondary_ring_buf = ring2; shard_mem = shards },
            ok,
          ) in
          elim ring2 [
            | none ↦ if secondary then (h2, record no_memory { ring_buf = some r }, false) else done
            | some r2 ↦ done
          ]
    ]

-- The loop of the destructor.
unfoldable pub free_shards : Sizes → Heap → List ShardMem → Heap
free_shards z h [] = h
free_shards z h (m ∷ rest) =
    free_shards z (free (free h m.order_pool_mem (pool_bytes z)) m.order_map_mem (map_bytes z)) rest

-- `OrderBookPool::~OrderBookPool`, for each shard.
unfoldable pub free_slabs : Sizes → Heap → List ShardMem → Heap
free_slabs z h [] = h
free_slabs z h (m ∷ rest) = free_slabs z (free h m.slab (slab_bytes z)) rest

-- `FeedHandler::~FeedHandler` after `stop`: its body, and then the destructors of the members.
unfoldable pub destroy : Sizes → Heap → FeedMemory → Heap
destroy z h m =
    let h1 = free h m.ring_buf z.ring in
    let h2 = free h1 m.secondary_ring_buf z.ring in
    free_slabs z (free_shards z h2 m.shard_mem) m.shard_mem
