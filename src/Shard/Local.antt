-- ===== src/Shard/Local.antt =====
-- What a call of the shard worker leaves untouched: the books of other symbols and their prices.
use itch_feed_handler.Common.{
  ℕ, ◌<◌, ◌≡◌, ◌≢◌, arith, refl, ap, sym, ◌∙◌, subst, Bool, true, false, Option, some, leb,
  update_self, update_ne, Bool-cases, inl, inr,
}
use mathlib.Core.Option.{some-injective}
use itch_feed_handler.Types.{Timestamp}
use itch_feed_handler.Message.{ItchMsg}
use itch_feed_handler.Book.Handlers.{Level2Book, get_bbo}
use itch_feed_handler.Book.Published.{BboPublisher, publish, read}
use itch_feed_handler.Shard.Worker.{
  ShardWorker, slab_index, close_book, activate_book, publish_book,
}

-- The shard after a message for one book: the other books and the prices of other symbols are as
-- they were, the book stays active if it was, and is as it was if it is not.
pub record IsLocal (w w' : ShardWorker) (msg : ItchMsg) : Type 0 where
  pub books : (i : ℕ) → i ≢ slab_index msg.locate → w'.slab i ≡ w.slab i
  pub active : (i : ℕ) → i ≢ slab_index msg.locate → w'.book_active i ≡ w.book_active i
  pub prices : (loc : ℕ) → loc ≢ msg.locate → read w'.bbo_pub loc ≡ read w.bbo_pub loc
  pub stays :
      w.book_active (slab_index msg.locate) ≡ true → w'.book_active (slab_index msg.locate) ≡ true
  pub idle :
      w'.book_active (slab_index msg.locate) ≡ false
      → w'.slab (slab_index msg.locate) ≡ w.slab (slab_index msg.locate)

-- What was published last for the symbol is its book's best prices, at the time of the message.
abbrev pub IsPublished : ShardWorker → ItchMsg → Type 0
IsPublished w' msg =
    read w'.bbo_pub msg.locate
    ≡ record (get_bbo (w'.slab (slab_index msg.locate))) { ts = msg.timestamp }

read-publish_other :
    (p : BboPublisher) (loc loc' : ℕ) (b : _)
    → loc' ≢ loc
    → read (publish p loc b) loc' ≡ read p loc'
unfolding read publish
read-publish_other p loc loc' b h = ground arith

pub on_and_off : {b : Bool} → b ≡ true → b ≡ false → ⊥
on_and_off p q = ground arith

pub off_before : (b b' : Bool) → (b ≡ true → b' ≡ true) → b' ≡ false → b ≡ false
off_before true b' h off = absurd (on_and_off (h refl) off)
off_before false b' h off = refl

pub activate_book-active :
    (w : ShardWorker) (loc : ℕ) → (activate_book w loc).book_active (slab_index loc) ≡ true
unfolding activate_book
activate_book-active w loc = elim (Bool-cases (w.book_active (slab_index loc))) [
  | inl active ↦ rw (activate_book, active) active
  | inr idle ↦ rw (activate_book, idle) (update_self w.book_active (slab_index loc) true)
]

pub close_book-IsLocal :
    (w : ShardWorker) (msg : ItchMsg) (b : Level2Book) (after : Timestamp)
    → w.book_active (slab_index msg.locate) ≡ true
    → IsLocal w (publish_book (close_book w (slab_index msg.locate) b) msg b after) msg
unfolding publish_book close_book
close_book-IsLocal w msg b after on = record {
  books = λ i h. update_ne w.slab (slab_index msg.locate) b i h;
  active = λ i h. refl;
  prices = λ loc h. read-publish_other w.bbo_pub msg.locate loc _ h;
  stays = λ h. h;
  idle = λ h. absurd (on_and_off on h);
}

pub close_book-IsPublished :
    (w : ShardWorker) (msg : ItchMsg) (b : Level2Book) (after : Timestamp)
    → msg.locate < w.bbo_pub.capacity
    → IsPublished (publish_book (close_book w (slab_index msg.locate) b) msg b after) msg
unfolding publish_book close_book read publish
close_book-IsPublished w msg b after h =
    let self = update_self w.slab (slab_index msg.locate) b in
    let bbo = record (get_bbo b) { ts = msg.timestamp } in
    let slot = update_self w.bbo_pub.slots msg.locate bbo in
    let small : leb w.bbo_pub.capacity msg.locate ≡ false = ground arith in
    rw (read, publish, small, small)
      (slot ∙ ap (λ x. record (get_bbo x) { ts = msg.timestamp }) (sym self))

pub IsLocal-refl : (w : ShardWorker) (msg : ItchMsg) → IsLocal w w msg
IsLocal-refl w msg = record {
  books = λ i h. refl;
  active = λ i h. refl;
  prices = λ loc h. refl;
  stays = λ h. h;
  idle = λ h. refl;
}

pub IsLocal-trans :
    (w w' w'' : ShardWorker) (msg : ItchMsg)
    → IsLocal w w' msg
    → IsLocal w' w'' msg
    → IsLocal w w'' msg
IsLocal-trans w w' w'' msg v v' = record {
  books = λ i h. v'.books i h ∙ v.books i h;
  active = λ i h. v'.active i h ∙ v.active i h;
  prices = λ loc h. v'.prices loc h ∙ v.prices loc h;
  stays = λ h. v'.stays (v.stays h);
  idle = λ h. v'.idle h ∙ v.idle (off_before _ _ v'.stays h);
}

pub activate_book-IsLocal :
    (w : ShardWorker) (msg : ItchMsg) → IsLocal w (activate_book w msg.locate) msg
unfolding activate_book
activate_book-IsLocal w msg = elim (Bool-cases (w.book_active (slab_index msg.locate))) [
  | inl active ↦ rw (activate_book, active) (IsLocal-refl w msg)
  | inr idle ↦
      rw (activate_book, idle)
        (record {
          books = λ i h. update_ne w.slab (slab_index msg.locate) _ i h;
          active = λ i h. update_ne w.book_active (slab_index msg.locate) true i h;
          prices = λ loc h. refl;
          stays = λ h. update_self w.book_active (slab_index msg.locate) true;
          idle =
              λ h. absurd (on_and_off (update_self w.book_active (slab_index msg.locate) true) h);
        })
]

-- A call has one result.
pub IsLocal-result :
    {w w0 w' : ShardWorker} {msg : ItchMsg} {x : Option ShardWorker}
    → x ≡ some w'
    → x ≡ some w0
    → IsLocal w w0 msg
    → IsLocal w w' msg
IsLocal-result {w} {msg = msg} e run v =
    subst (λ t. IsLocal w t msg) (some-injective _ _ (sym run ∙ e)) v
