-- ===== src/Assembly/Threads.antt =====
-- src/app/feed_handler.cpp, `start_workers` and `stop_workers`: the order in which the threads start and
-- stop.
use itch_feed_handler.Common.{
  ℕ, zero, suc, ◌+◌, ◌<◌, ◌≡◌, arith, refl, ap, subst, ◌⊎◌, inl, inr, Bool, true, false, List, [],
  ◌∷◌, ◌++◌,
}
use itch_feed_handler.Types.{num_shards}

pub data Worker : Type 0 where
  metrics recovery persist_seq parser feed_merger secondary_receiver receiver : Worker
  shard : ℕ → Worker

-- The loop over the shards, from shard i on with n left.
abbrev pub shards_from : ℕ → ℕ → List Worker
shards_from zero i = []
shards_from (suc n) i = Worker.shard i ∷ shards_from n (i + 1)

-- `if (secondary_receiver_)`
abbrev if_secondary : Bool → List Worker
if_secondary true = Worker.secondary_receiver ∷ []
if_secondary false = []

abbrev consumers : List Worker
consumers = Worker.metrics ∷ Worker.recovery ∷ Worker.persist_seq ∷ shards_from num_shards 0

abbrev producers : Bool → List Worker
producers secondary =
    Worker.parser ∷ Worker.feed_merger ∷ if_secondary secondary ++ Worker.receiver ∷ []

-- `FeedHandler::start_workers`
unfoldable pub start_workers : Bool → List Worker
start_workers secondary = consumers ++ producers secondary

abbrev last_stopped : List Worker
last_stopped = Worker.recovery ∷ Worker.metrics ∷ []

abbrev behind_sources : List Worker
behind_sources =
    Worker.feed_merger ∷ Worker.parser ∷ Worker.persist_seq ∷ shards_from num_shards 0
    ++ last_stopped

-- `FeedHandler::stop_workers`
unfoldable pub stop_workers : Bool → List Worker
stop_workers secondary = (Worker.receiver ∷ if_secondary secondary) ++ behind_sources

-- Which thread hands something to which.
pub data Feeds (secondary : Bool) : Worker → Worker → Type 0 where
  first_line : Feeds secondary Worker.receiver Worker.feed_merger
  second_line : secondary ≡ true → Feeds secondary Worker.secondary_receiver Worker.feed_merger
  merged : Feeds secondary Worker.feed_merger Worker.parser
  position : Feeds secondary Worker.parser Worker.persist_seq
  gaps : Feeds secondary Worker.parser Worker.recovery
  messages : (i : ℕ) → i < num_shards → Feeds secondary Worker.parser (Worker.shard i)

abbrev In : Worker → List Worker → Type 0
In w [] = ⊥
In w (x ∷ xs) = (x ≡ w) ⊎ In w xs

-- The one stands before the other.
abbrev pub Before : Worker → Worker → List Worker → Type 0
Before a b [] = ⊥
Before a b (x ∷ xs) = ((x ≡ a) × In b xs) ⊎ Before a b xs

In-right : (w : Worker) (xs ys : List Worker) → In w ys → In w (xs ++ ys)
In-right w [] ys h = h
In-right w (x ∷ xs) ys h = inr (In-right w xs ys h)

In-left : (w : Worker) (xs ys : List Worker) → In w xs → In w (xs ++ ys)
In-left w [] ys h = absurd h
In-left w (x ∷ xs) ys (inl e) = inl e
In-left w (x ∷ xs) ys (inr h) = inr (In-left w xs ys h)

Before-append : (a b : Worker) (xs ys : List Worker) → In a xs → In b ys → Before a b (xs ++ ys)
Before-append a b [] ys k h = absurd k
Before-append a b (x ∷ xs) ys (inl e) h = inl (e, In-right b xs ys h)
Before-append a b (x ∷ xs) ys (inr k) h = inr (Before-append a b xs ys k h)

shard-In : (n i j : ℕ) → j < n → In (Worker.shard (i + j)) (shards_from n i)
shard-In zero i j h = absurd (omega arith)
shard-In (suc n) i zero h = inl (ap Worker.shard (omega arith))
shard-In (suc n) i (suc j) h = inr (
    subst (λ k. In (Worker.shard k) (shards_from n (i + 1))) (omega arith)
      (shard-In n (i + 1) j (omega arith)))

this_shard-In : (i : ℕ) → i < num_shards → In (Worker.shard i) (shards_from num_shards 0)
this_shard-In i h =
    subst (λ k. In (Worker.shard k) (shards_from num_shards 0)) (omega arith)
      (shard-In num_shards 0 i h)

Before-right : (a b : Worker) (xs ys : List Worker) → Before a b ys → Before a b (xs ++ ys)
Before-right a b [] ys h = h
Before-right a b (x ∷ xs) ys h = inr (Before-right a b xs ys h)

secondary-In :
    (secondary : Bool) → secondary ≡ true → In Worker.secondary_receiver (if_secondary secondary)
secondary-In true h = inl refl
secondary-In false h = absurd (ground arith)

started :
    (secondary : Bool) (a b : Worker) → Feeds secondary a b → Before b a (start_workers secondary)
unfolding start_workers
started secondary a b first_line =
    Before-right b a consumers (producers secondary)
      (inr (inl (refl, In-right a (if_secondary secondary) (Worker.receiver ∷ []) (inl refl))))
started secondary a b (second_line on) = Before-right b a consumers (producers secondary) (
    inr (
      inl (
        refl,
        In-left a (if_secondary secondary) (Worker.receiver ∷ []) (secondary-In secondary on),
      )))
started secondary a b merged =
    Before-right b a consumers (producers secondary) (inl (refl, inl refl))
started secondary a b position =
    Before-append b a consumers (producers secondary) (inr (inr (inl refl))) (inl refl)
started secondary a b gaps =
    Before-append b a consumers (producers secondary) (inr (inl refl)) (inl refl)
started secondary a b (messages i h) =
    Before-append b a consumers (producers secondary) (inr (inr (inr (this_shard-In i h))))
      (inl refl)

stopped :
    (secondary : Bool) (a b : Worker) → Feeds secondary a b → Before a b (stop_workers secondary)
unfolding stop_workers
stopped secondary a b first_line =
    Before-append a b (Worker.receiver ∷ if_secondary secondary) behind_sources (inl refl)
      (inl refl)
stopped secondary a b (second_line on) =
    Before-append a b (Worker.receiver ∷ if_secondary secondary) behind_sources
      (inr (secondary-In secondary on)) (inl refl)
stopped secondary a b merged =
    Before-right a b (Worker.receiver ∷ if_secondary secondary) behind_sources
      (inl (refl, inl refl))
stopped secondary a b position =
    Before-right a b (Worker.receiver ∷ if_secondary secondary) behind_sources
      (inr (inl (refl, inl refl)))
stopped secondary a b gaps =
    Before-right a b (Worker.receiver ∷ if_secondary secondary) behind_sources
      (inr (inl (refl, inr (In-right b (shards_from num_shards 0) last_stopped (inl refl)))))
stopped secondary a b (messages i h) =
    Before-right a b (Worker.receiver ∷ if_secondary secondary) behind_sources (
      inr (inl (refl, inr (In-left b (shards_from num_shards 0) last_stopped (this_shard-In i h)))))

-- Whichever thread hands something to another: the receiving one is started first, and stopped last.
workers-Before :
    (secondary : Bool) (a b : Worker)
    → Feeds secondary a b
    → Before b a (start_workers secondary) × Before a b (stop_workers secondary)
workers-Before secondary a b f = (started secondary a b f, stopped secondary a b f)
