-- ===== src/Book/Fifo/Queue.antt =====
-- The doubly linked list against a sequence of orders, oldest first.
use itch_feed_handler.Common.{
  ℕ, ◌+◌, ◌-◌, ◌%◌, ◌^◌, ◌<◌, ◌≡◌, ◌≢◌, arith, ap, ◌∙◌, ℕ_discrete, ltb, if◌then◌else◌,
}
use itch_feed_handler.Book.Pool.{Order, invalid_idx}
use itch_feed_handler.Book.Levels.{PriceLevel}
use itch_feed_handler.Book.Fifo.{link_order_tail}

-- The level and the links are those of the queue `q 0`, …, `q (n - 1)` of pool indices.
pub record IsQueue (lvl : PriceLevel) (orders : ℕ → Order) (q : ℕ → ℕ) (n : ℕ) : Type 0 where
  pub counted : lvl.order_count ≡ n
  pub small : n < 2 ^ 32
  pub valid : (i : ℕ) → i < n → q i ≢ invalid_idx
  pub once : (i j : ℕ) → i < n → j < n → q i ≡ q j → i ≡ j
  pub head : lvl.head_order_idx ≡ (if ltb 0 n then q 0 else invalid_idx)
  pub tail : lvl.tail_order_idx ≡ (if ltb 0 n then q (n - 1) else invalid_idx)
  pub next :
      (i : ℕ) → i < n → (orders (q i)).next_idx ≡ (if ltb (i + 1) n then q (i + 1) else invalid_idx)
  pub prev :
      (i : ℕ) → i < n → (orders (q i)).prev_idx ≡ (if ltb 0 i then q (i - 1) else invalid_idx)

-- The queue with an order at its end.
abbrev pub put_last : (ℕ → ℕ) → ℕ → ℕ → ℕ → ℕ
put_last q n idx i = if ltb i n then q i else idx

-- The links after `link_order_tail`, if the order was not the last of the level.
module _ (lvl : PriceLevel) (orders : ℕ → Order) (idx : ℕ) (other : lvl.tail_order_idx ≢ idx) where
  linked : ℕ → Order
  unfolding link_order_tail
  linked = (link_order_tail lvl orders idx).1

  linked_self :
      ((linked idx).prev_idx ≡ lvl.tail_order_idx)
      × ((linked idx).next_idx ≡ invalid_idx)
      × ((linked idx).qty ≡ (orders idx).qty)
  unfolding linked link_order_tail
  linked_self = ground arith

  linked_tail : (j : ℕ) → j ≡ lvl.tail_order_idx → j ≢ invalid_idx → (linked j).next_idx ≡ idx
  unfolding linked link_order_tail
  linked_tail j h k = ground arith

  linked_prev : (j : ℕ) → j ≢ idx → (linked j).prev_idx ≡ (orders j).prev_idx
  unfolding linked link_order_tail
  linked_prev j h = elim (ℕ_discrete j lvl.tail_order_idx) [
    | yes e ↦ let moved = ap (λ k. (orders k).prev_idx) e in ground arith
    | no q ↦ ground arith
  ]

  linked_next :
      (j : ℕ) → j ≢ idx → j ≢ lvl.tail_order_idx → (linked j).next_idx ≡ (orders j).next_idx
  unfolding linked link_order_tail
  linked_next j h k = ground arith

tail_other :
    (lvl : PriceLevel) (orders : ℕ → Order) (q : ℕ → ℕ) (n idx : ℕ)
    → IsQueue lvl orders q n
    → idx ≢ invalid_idx
    → ((i : ℕ) → i < n → q i ≢ idx)
    → lvl.tail_order_idx ≢ idx
tail_other lvl orders q n idx v valid new = ground (arith, v.tail, new (n - 1))

put_at : (q : ℕ → ℕ) (n idx i : ℕ) → i ≡ n → put_last q n idx i ≡ idx
put_at q n idx i h = ground arith

put_before : (q : ℕ → ℕ) (n idx i : ℕ) → i < n → put_last q n idx i ≡ q i
put_before q n idx i h = ground arith

last_place : (i n : ℕ) → i + 1 ≡ n → i ≡ n - 1
last_place i n h = omega arith

linked-next :
    (lvl : PriceLevel) (orders : ℕ → Order) (q : ℕ → ℕ) (n idx : ℕ)
    → (other : lvl.tail_order_idx ≢ idx) → IsQueue lvl orders q n
    → ((i : ℕ) → i < n → q i ≢ idx)
    → (i : ℕ) → i < n + 1
    → (linked lvl orders idx other (put_last q n idx i)).next_idx
      ≡ (if ltb (i + 1) (n + 1) then put_last q n idx (i + 1) else invalid_idx)
linked-next lvl orders q n idx other v new i h = elim (ℕ_discrete i n) [
  | yes e ↦
      let self = linked_self lvl orders idx other in rw (put_at q n idx i e) (self.1 ∙ ground arith)
  | no b ↦ rw (put_before q n idx i (omega arith)) (elim (ℕ_discrete (i + 1) n) [
    | yes e ↦
        let t : q i ≡ lvl.tail_order_idx = ground (arith, v.tail, ap q (last_place i n e)) in
        linked_tail lvl orders idx other (q i) t (v.valid i (omega arith)) ∙ ground arith
    | no c ↦
        let t : q i ≢ lvl.tail_order_idx = λ e. c (ground (arith, v.once i (n - 1), v.tail)) in
        linked_next lvl orders idx other (q i) (new i (omega arith)) t
        ∙ v.next i (omega arith)
        ∙ ground arith
  ])
]

linked-prev :
    (lvl : PriceLevel) (orders : ℕ → Order) (q : ℕ → ℕ) (n idx : ℕ)
    → (other : lvl.tail_order_idx ≢ idx) → IsQueue lvl orders q n
    → ((i : ℕ) → i < n → q i ≢ idx)
    → (i : ℕ) → i < n + 1
    → (linked lvl orders idx other (put_last q n idx i)).prev_idx
      ≡ (if ltb 0 i then put_last q n idx (i - 1) else invalid_idx)
linked-prev lvl orders q n idx other v new i h = elim (ℕ_discrete i n) [
  | yes e ↦
      let self = linked_self lvl orders idx other in
      let before = ap (λ k. q (k - 1)) e in rw (put_at q n idx i e) (self.0 ∙ v.tail ∙ ground arith)
  | no b ↦ rw (put_before q n idx i (omega arith)) (
      linked_prev lvl orders idx other (q i) (new i (omega arith))
      ∙ v.prev i (omega arith)
      ∙ ground arith)
]

linked-head :
    (lvl : PriceLevel) (orders : ℕ → Order) (q : ℕ → ℕ) (n idx : ℕ)
    → IsQueue lvl orders q n
    → (link_order_tail lvl orders idx).0.head_order_idx
      ≡ (if ltb 0 (n + 1) then put_last q n idx 0 else invalid_idx)
unfolding link_order_tail
linked-head lvl orders q n idx v = ground (arith, v.head, v.tail, v.valid (n - 1))

-- Linking an order that is not in the queue puts it last, where it has the lowest time priority, and
-- adds its quantity to the level's.
pub link_order_tail-IsQueue :
    (lvl : PriceLevel) (orders : ℕ → Order) (q : ℕ → ℕ) (n idx : ℕ)
    → IsQueue lvl orders q n
    → n + 1 < 2 ^ 32
    → idx ≢ invalid_idx
    → ((i : ℕ) → i < n → q i ≢ idx)
    → let (lvl', orders') = link_order_tail lvl orders idx in
      IsQueue lvl' orders' (put_last q n idx) (n + 1)
      × (lvl'.total_qty ≡ (lvl.total_qty + (orders idx).qty) % 2 ^ 32)
unfolding link_order_tail linked
link_order_tail-IsQueue lvl orders q n idx v room valid new =
    let other = tail_other lvl orders q n idx v valid new in
    let self = linked_self lvl orders idx other in
    (
      record {
        counted = ground (arith, v.counted);
        small = room;
        valid = λ i h. ground (arith, v.valid i);
        once = λ i j h k e. ground (arith, v.once i j, new i, new j);
        head = linked-head lvl orders q n idx v;
        tail = ground arith;
        next = linked-next lvl orders q n idx other v new;
        prev = linked-prev lvl orders q n idx other v new;
      },
      ap (λ x. (lvl.total_qty + x) % 2 ^ 32) self.2,
    )
