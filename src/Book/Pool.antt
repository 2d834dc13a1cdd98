-- ===== src/Book/Pool.antt =====
-- src/orderbook/order_pool.cpp: the slab of orders. A pointer to an order is its index; `freelist` is
-- the memory at `freelist_`, of which the array has the first `capacity` places.
pub mod Slots
use itch_feed_handler.Common.{
  ℕ, ◌+◌, ◌-◌, ◌%◌, ◌^◌, Option, none, some, ◌==◌, ltb, if◌then◌else◌, update,
}
use itch_feed_handler.Types.{Price, Side}

pub record Order : Type 0 where
  pub id : ℕ
  pub price : Price
  pub qty : ℕ
  pub prev_idx : ℕ
  pub next_idx : ℕ
  pub level_idx : ℕ
  pub side : Side

-- `kInvalidIdx`, UINT32_MAX
abbrev pub invalid_idx : ℕ
invalid_idx = 2 ^ 32 - 1

pub record OrderPool : Type 0 where
  pub orders : ℕ → Order
  pub capacity : ℕ
  pub freelist : ℕ → ℕ
  pub freelist_top : ℕ
  pub allocated : ℕ

-- `for (i = 0; i < capacity; ++i) freelist[i] = capacity - 1 - i;`
abbrev refill : ℕ → (ℕ → ℕ) → ℕ → ℕ
refill capacity freelist i = if ltb i capacity then capacity - 1 - i else freelist i

-- The constructor, on backing memory that holds `orders` and `freelist`.
unfoldable pub new_pool : ℕ → (ℕ → Order) → (ℕ → ℕ) → OrderPool
new_pool capacity orders freelist = record {
  orders = orders;
  capacity = capacity;
  freelist = refill capacity freelist;
  freelist_top = capacity;
  allocated = 0;
}

-- `OrderPool::alloc`, with `none` for the null pointer
unfoldable pub alloc : OrderPool → Option (ℕ × OrderPool)
alloc p =
    let idx = p.freelist (p.freelist_top - 1) in
    if p.freelist_top == 0
    then none
    else some (
      idx,
      record p {
        orders =
            update p.orders idx
              (record (p.orders idx) { prev_idx = invalid_idx; next_idx = invalid_idx });
        freelist_top = p.freelist_top - 1;
        allocated = (p.allocated + 1) % 2 ^ 32;
      },
    )

-- `OrderPool::free`: no check, as in the source.
unfoldable pub free : OrderPool → ℕ → OrderPool
free p idx = record p {
  freelist = update p.freelist p.freelist_top idx;
  freelist_top = (p.freelist_top + 1) % 2 ^ 32;
  allocated = (p.allocated + 2 ^ 32 - 1) % 2 ^ 32;
}

-- `OrderPool::reset`
unfoldable pub reset : OrderPool → OrderPool
reset p = record p {
  freelist = refill p.capacity p.freelist;
  freelist_top = p.capacity;
  allocated = 0;
}
