-- ===== src/Book/Fifo/Unlink.antt =====
-- An order leaves the queue of its level.
use itch_feed_handler.Common.{
  ℕ, ◌+◌, ◌-◌, ◌%◌, ◌^◌, ◌<◌, ◌≡◌, ◌≢◌, arith, ap, ◌∙◌, ℕ_discrete, dec_lt, ltb, ◌==◌,
  if◌then◌else◌,
}
use itch_feed_handler.Book.Pool.{Order, invalid_idx}
use itch_feed_handler.Book.Levels.{PriceLevel}
use itch_feed_handler.Book.Fifo.{unlink_order}
use itch_feed_handler.Book.Fifo.Queue.{IsQueue}

-- The queue without the order at a place.
abbrev pub without : (ℕ → ℕ) → ℕ → ℕ → ℕ
without q k i = if ltb i k then q i else q (i + 1)

-- The links after `unlink_order`, if the order is not its own neighbour.
module _ (lvl : PriceLevel) (orders : ℕ → Order) (idx : ℕ) (not_prev : (orders idx).prev_idx ≢ idx)
    (not_next : (orders idx).next_idx ≢ idx) where
  unlinked : ℕ → Order
  unfolding unlink_order
  unlinked = (unlink_order lvl orders idx).1

  next_at :
      (j : ℕ)
      → j ≡ (orders idx).prev_idx
      → j ≢ invalid_idx
      → (unlinked j).next_idx ≡ (orders idx).next_idx
  unfolding unlinked unlink_order
  next_at j h k = ground arith

  next_of : (j : ℕ) → j ≢ (orders idx).prev_idx → (unlinked j).next_idx ≡ (orders j).next_idx
  unfolding unlinked unlink_order
  next_of j h = elim (ℕ_discrete j (orders idx).next_idx) [
    | yes e ↦ let moved = ap (λ k. (orders k).next_idx) e in ground arith
    | no q ↦ ground arith
  ]

  prev_at :
      (j : ℕ)
      → j ≡ (orders idx).next_idx
      → j ≢ invalid_idx
      → (unlinked j).prev_idx ≡ (orders idx).prev_idx
  unfolding unlinked unlink_order
  prev_at j h k = ground arith

  prev_of : (j : ℕ) → j ≢ (orders idx).next_idx → (unlinked j).prev_idx ≡ (orders j).prev_idx
  unfolding unlinked unlink_order
  prev_of j h = elim (ℕ_discrete j (orders idx).prev_idx) [
    | yes e ↦ let moved = ap (λ k. (orders k).prev_idx) e in ground arith
    | no q ↦ ground arith
  ]

  unlinked_level :
      let lvl' = (unlink_order lvl orders idx).0 in
      (lvl'.head_order_idx ≡ (
        if (orders idx).prev_idx == invalid_idx then (orders idx).next_idx else lvl.head_order_idx))
      × (lvl'.tail_order_idx ≡ (
          if (orders idx).next_idx == invalid_idx
          then (orders idx).prev_idx
          else lvl.tail_order_idx))
      × (lvl'.total_qty ≡ (lvl.total_qty + 2 ^ 32 - (orders idx).qty) % 2 ^ 32)
  unfolding unlink_order
  unlinked_level = ground arith

module _ (lvl : PriceLevel) (orders : ℕ → Order) (q : ℕ → ℕ) (n k : ℕ) (v : IsQueue lvl orders q n)
    (inside : k < n) where
  own_prev : (orders (q k)).prev_idx ≢ q k
  own_prev = ground (arith, v.prev k, v.once (k - 1) k, v.valid k)

  own_next : (orders (q k)).next_idx ≢ q k
  own_next = ground (arith, v.next k, v.once (k + 1) k, v.valid k)

  left : ℕ → Order
  left = unlinked lvl orders (q k) own_prev own_next

  left-next :
      (i : ℕ)
      → i < n
      → i ≢ k
      → (left (q i)).next_idx
        ≡ (if i + 1 == k then (orders (q k)).next_idx else (orders (q i)).next_idx)
  unfolding left
  left-next i h j = elim (ℕ_discrete (i + 1) k) [
    | yes e ↦
        let place : q i ≡ q (k - 1) = ap q (omega arith) in
        let p : q i ≡ (orders (q k)).prev_idx = ground (arith, v.prev k) in
        next_at lvl orders (q k) own_prev own_next (q i) p (v.valid i h) ∙ ground arith
    | no b ↦
        let p : q i ≢ (orders (q k)).prev_idx =
          λ e. ground (arith, v.prev k, v.once i (k - 1), v.valid i) in
        next_of lvl orders (q k) own_prev own_next (q i) p ∙ ground arith
  ]

  left-prev :
      (i : ℕ)
      → i < n
      → i ≢ k
      → (left (q i)).prev_idx
        ≡ (if i == k + 1 then (orders (q k)).prev_idx else (orders (q i)).prev_idx)
  unfolding left
  left-prev i h j = elim (ℕ_discrete i (k + 1)) [
    | yes e ↦
        let place : q i ≡ q (k + 1) = ap q e in
        let p : q i ≡ (orders (q k)).next_idx = ground (arith, v.next k) in
        prev_at lvl orders (q k) own_prev own_next (q i) p (v.valid i h) ∙ ground arith
    | no b ↦
        let p : q i ≢ (orders (q k)).next_idx =
          λ e. ground (arith, v.next k, v.once i (k + 1), v.valid i) in
        prev_of lvl orders (q k) own_prev own_next (q i) p ∙ ground arith
  ]

  without_below : (i : ℕ) → i < k → without q k i ≡ q i
  without_below i h = ground arith

  without_above : (i : ℕ) → ¬ (i < k) → without q k i ≡ q (i + 1)
  without_above i h = ground arith

  left-next_without :
      (i : ℕ)
      → i < n - 1
      → (left (without q k i)).next_idx
        ≡ (if ltb (i + 1) (n - 1) then without q k (i + 1) else invalid_idx)
  left-next_without i h = elim (dec_lt i k) [
    | yes p ↦
        rw (without_below i p)
          (left-next i (omega arith) (omega arith) ∙ ground (arith, v.next i, v.next k))
    | no p ↦
        rw (without_above i p)
          (left-next (i + 1) (omega arith) (omega arith) ∙ ground (arith, v.next (i + 1)))
  ]

  left-prev_without :
      (i : ℕ)
      → i < n - 1
      → (left (without q k i)).prev_idx ≡ (if ltb 0 i then without q k (i - 1) else invalid_idx)
  left-prev_without i h = elim (dec_lt i k) [
    | yes p ↦
        rw (without_below i p) (left-prev i (omega arith) (omega arith) ∙ ground (arith, v.prev i))
    | no p ↦
        rw (without_above i p)
          (left-prev (i + 1) (omega arith) (omega arith) ∙ ground (arith, v.prev (i + 1), v.prev k))
  ]

  without_once : (i j : ℕ) → i < n - 1 → j < n - 1 → without q k i ≡ without q k j → i ≡ j
  without_once i j h l e = elim (dec_lt i k) [
    | yes a ↦ elim (dec_lt j k) [
      | yes b ↦ ground (arith, v.once i j)
      | no b ↦ ground (arith, v.once i (j + 1))
    ]
    | no a ↦ elim (dec_lt j k) [
      | yes b ↦ ground (arith, v.once (i + 1) j)
      | no b ↦ ground (arith, v.once (i + 1) (j + 1))
    ]
  ]

  left_head :
      (unlink_order lvl orders (q k)).0.head_order_idx
      ≡ (if ltb 0 (n - 1) then without q k 0 else invalid_idx)
  left_head = (unlinked_level lvl orders (q k) own_prev own_next).0 ∙ elim (ℕ_discrete k 0) [
    | yes z ↦
        let second : q (k + 1) ≡ q 1 = ap (λ x. q (x + 1)) z in ground (arith, v.prev k, v.next k)
    | no z ↦ ground (arith, v.prev k, v.valid (k - 1), v.head)
  ]

  left_tail :
      (unlink_order lvl orders (q k)).0.tail_order_idx
      ≡ (if ltb 0 (n - 1) then without q k (n - 1 - 1) else invalid_idx)
  left_tail = (unlinked_level lvl orders (q k) own_prev own_next).1 ∙ elim (ℕ_discrete (k + 1) n) [
    | yes z ↦
        let last : q (n - 1 - 1) ≡ q (k - 1) = ap q (omega arith) in
        ground (arith, v.prev k, v.next k)
    | no z ↦
        let last : q (n - 1 - 1 + 1) ≡ q (n - 1) = ap q (omega arith) in
        ground (arith, v.next k, v.valid (k + 1), v.tail)
  ]

  -- Unlinking the order at a place of the queue leaves the queue of the others in the same order,
  -- wherever it stood, and takes its quantity off the level's.
  pub unlink_order-IsQueue :
      let (lvl', orders') = unlink_order lvl orders (q k) in
      IsQueue lvl' orders' (without q k) (n - 1)
      × (lvl'.total_qty ≡ (lvl.total_qty + 2 ^ 32 - (orders (q k)).qty) % 2 ^ 32)
  unfolding left unlinked unlink_order
  unlink_order-IsQueue = (
    record {
      counted = ground (arith, v.counted, v.small);
      small = ground (arith, v.small);
      valid = λ i h. ground (arith, v.valid i, v.valid (i + 1));
      once = without_once;
      head = left_head;
      tail = left_tail;
      next = left-next_without;
      prev = left-prev_without;
    },
    (unlinked_level lvl orders (q k) own_prev own_next).2,
  )
