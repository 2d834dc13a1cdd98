-- ===== src/Routing/Router.antt =====
-- src/routing/shard_router.cpp and include/routing/shard_router.hpp: the queues of the shards.
use itch_feed_handler.Common.{
  ℕ, zero, suc, ◌+◌, ◌%◌, ◌^◌, ◌≤◌, ◌<◌, ◌≡◌, ◌≢◌, arith, refl, sym, ap, ◌∙◌, subst, update_self,
  update_ne, Bool, true, false, if◌then◌else◌, update, ℕ_discrete,
}
use itch_feed_handler.Types.{MessageType, num_shards}
use itch_feed_handler.Message.{ItchMsg}
use itch_feed_handler.Spsc.{SpscQueue, try_push, size_approx, is_pressure_high}
use itch_feed_handler.Routing.Directory.{shard_for_locate}

-- `SHARD_QUEUE_DEPTH`
abbrev pub shard_queue_depth : ℕ
shard_queue_depth = 262144

pub data RouteResult : Type 0 where
  ok queue_full : RouteResult

-- The queues, and the drop counters of `FeedStats`, by shard. The directory is only asked for the
-- shard of a locate code, which depends on nothing in it.
pub record ShardRouter : Type 0 where
  pub queues : ℕ → SpscQueue ItchMsg
  pub shard_queue_drops : ℕ → ℕ
  pub pressure_threshold : ℕ

-- `ShardRouter::queue_depth` and `ShardRouter::is_pressure_high`
unfoldable pub queue_depth : ShardRouter → ℕ → ℕ
queue_depth r shard = size_approx (r.queues shard)

unfoldable pub is_shard_pressure_high : ShardRouter → ℕ → Bool
is_shard_pressure_high r shard = is_pressure_high (r.queues shard) r.pressure_threshold

-- `ShardRouter::is_admin_message`
unfoldable pub is_admin_message : MessageType → Bool
is_admin_message MessageType.system_event = true
is_admin_message MessageType.stock_directory = true
is_admin_message MessageType.stock_trading_action = true
is_admin_message MessageType.reg_sho = true
is_admin_message MessageType.mwcb_decline = true
is_admin_message MessageType.mwcb_status = true
is_admin_message MessageType.operational_halt = true
is_admin_message _ = false

-- One `try_push`, and the drop counter of the shard if it fails.
unfoldable pub deliver : ShardRouter → ItchMsg → ℕ → ShardRouter × Bool
deliver r msg s =
    let (q, pushed) = try_push shard_queue_depth (r.queues s) msg in
    (
      record r {
        queues = update r.queues s q;
        shard_queue_drops =
            if pushed
            then r.shard_queue_drops
            else update r.shard_queue_drops s ((r.shard_queue_drops s + 1) % 2 ^ 64);
      },
      pushed,
    )

-- The loop of `broadcast`, from shard s on with n shards left.
unfoldable pub broadcast_from :
    ℕ → ShardRouter → ItchMsg → ℕ → RouteResult → RouteResult × ShardRouter
broadcast_from zero r msg s result = (result, r)
broadcast_from (suc n) r msg s result =
    let (r', pushed) = deliver r msg s in
    broadcast_from n r' msg (s + 1) (if pushed then result else RouteResult.queue_full)

-- `ShardRouter::broadcast`
unfoldable pub broadcast : ShardRouter → ItchMsg → RouteResult × ShardRouter
broadcast r msg = broadcast_from num_shards r msg 0 RouteResult.ok

-- `ShardRouter::route`
unfoldable pub route : ShardRouter → ItchMsg → RouteResult × ShardRouter
route r msg =
    let (r', pushed) = deliver r msg (shard_for_locate msg.locate) in
    if is_admin_message msg.type
    then broadcast r msg
    else (if pushed then RouteResult.ok else RouteResult.queue_full, r')

-- The drop counter of a shard after a push to it.
abbrev pub counted : Bool → ℕ → ℕ
counted true drops = drops
counted false drops = (drops + 1) % 2 ^ 64

-- What a push to the queue of a shard gives.
abbrev pub pushed_to : ShardRouter → ItchMsg → ℕ → SpscQueue ItchMsg × Bool
pushed_to r msg s = try_push shard_queue_depth (r.queues s) msg

counted_self :
    (b : Bool) (f : ℕ → ℕ) (s : ℕ)
    → (if b then f else update f s ((f s + 1) % 2 ^ 64)) s ≡ counted b (f s)
counted_self true f s = refl
counted_self false f s = update_self f s _

counted_other : (b : Bool) (f : ℕ → ℕ) (s v t : ℕ) → t ≢ s → (if b then f else update f s v) t ≡ f t
counted_other true f s v t h = refl
counted_other false f s v t h = update_ne f s v t h

-- Shard t of the second router is as a push of the message to it leaves the first.
abbrev pub Delivered : ShardRouter → ItchMsg → ShardRouter → ℕ → Type 0
Delivered r msg r' t =
    (r'.queues t ≡ (pushed_to r msg t).0)
    × (r'.shard_queue_drops t ≡ counted (pushed_to r msg t).1 (r.shard_queue_drops t))

abbrev pub Untouched : ShardRouter → ShardRouter → ℕ → Type 0
Untouched r r' t = (r'.queues t ≡ r.queues t) × (r'.shard_queue_drops t ≡ r.shard_queue_drops t)

deliver-Delivered :
    (r : ShardRouter) (msg : ItchMsg) (s : ℕ)
    → Delivered r msg (deliver r msg s).0 s × ((deliver r msg s).1 ≡ (pushed_to r msg s).1)
unfolding deliver
deliver-Delivered r msg s = (
  (
    update_self r.queues s (pushed_to r msg s).0,
    counted_self (pushed_to r msg s).1 r.shard_queue_drops s,
  ),
  refl,
)

deliver-Untouched :
    (r : ShardRouter) (msg : ItchMsg) (s t : ℕ) → t ≢ s → Untouched r (deliver r msg s).0 t
unfolding deliver
deliver-Untouched r msg s t h = (
  update_ne r.queues s (pushed_to r msg s).0 t h,
  counted_other (pushed_to r msg s).1 r.shard_queue_drops s _ t h,
)

-- A shard that a step left alone is delivered to as before the step.
Delivered-Untouched :
    (r r' r'' : ShardRouter) (msg : ItchMsg) (t : ℕ)
    → Untouched r r' t
    → Delivered r' msg r'' t
    → Delivered r msg r'' t
Delivered-Untouched r r' r'' msg t (q, d) (q', d') = (
  q' ∙ ap (λ x. (try_push shard_queue_depth x msg).0) q,
  d'
      ∙ ap (λ x. counted (try_push shard_queue_depth x msg).1 (r'.shard_queue_drops t)) q
      ∙ ap (counted (pushed_to r msg t).1) d,
)

Untouched-trans :
    (r r' r'' : ShardRouter) (t : ℕ) → Untouched r r' t → Untouched r' r'' t → Untouched r r'' t
Untouched-trans r r' r'' t (q, d) (q', d') = (q' ∙ q, d' ∙ d)

broadcast_from-Untouched :
    (n : ℕ) (r : ShardRouter) (msg : ItchMsg) (s : ℕ) (result : RouteResult) (t : ℕ)
    → t < s
    → Untouched r (broadcast_from n r msg s result).1 t
unfolding broadcast_from
broadcast_from-Untouched zero r msg s result t h = (refl, refl)
broadcast_from-Untouched (suc n) r msg s result t h =
    let (r', pushed) = deliver r msg s in
    let result' = if pushed then result else RouteResult.queue_full in
    Untouched-trans r r' (broadcast_from n r' msg (s + 1) result').1 t
      (deliver-Untouched r msg s t (omega arith))
      (broadcast_from-Untouched n r' msg (s + 1) result' t (omega arith))

broadcast_from-Delivered :
    (n : ℕ) (r : ShardRouter) (msg : ItchMsg) (s : ℕ) (result : RouteResult) (t : ℕ)
    → s ≤ t
    → t < s + n
    → Delivered r msg (broadcast_from n r msg s result).1 t
unfolding broadcast_from
broadcast_from-Delivered zero r msg s result t h k = absurd (omega arith)
broadcast_from-Delivered (suc n) r msg s result t h k =
    let (r', pushed) = deliver r msg s in
    let result' = if pushed then result else RouteResult.queue_full in
    let last = (broadcast_from n r' msg (s + 1) result').1 in
    elim (ℕ_discrete t s) [
      | yes e ↦
          let own = (deliver-Delivered r msg s).0 in
          let later = broadcast_from-Untouched n r' msg (s + 1) result' s (omega arith) in
          subst (Delivered r msg last) (sym e) (later.0 ∙ own.0, later.1 ∙ own.1)
      | no other ↦
          Delivered-Untouched r r' last msg t (deliver-Untouched r msg s t other)
            (broadcast_from-Delivered n r' msg (s + 1) result' t (omega arith) (omega arith))
    ]

-- A message of a symbol is pushed to the queue of the symbol's shard and to no other, and the result
-- says whether it fitted; an administrative message is pushed to the queue of every shard. A push
-- that does not fit is counted as a drop of its shard.
pub route_lem :
    (r : ShardRouter) (msg : ItchMsg)
    → let (result, r') = route r msg in
      let shard = shard_for_locate msg.locate in
      (is_admin_message msg.type ≡ false
        → (shard < num_shards)
          × Delivered r msg r' shard
          × ((t : ℕ) → t ≢ shard → Untouched r r' t)
          × (result
              ≡ (if (pushed_to r msg shard).1 then RouteResult.ok else RouteResult.queue_full)))
      × (is_admin_message msg.type ≡ true → (t : ℕ) → t < num_shards → Delivered r msg r' t)
unfolding route broadcast
route_lem r msg =
    let shard = shard_for_locate msg.locate in
    let own = deliver-Delivered r msg shard in
    (
      λ symbol.
          rw (route, symbol)
            (
              omega arith,
              own.0,
              deliver-Untouched r msg shard,
              ap (λ b. if b then RouteResult.ok else RouteResult.queue_full) own.1,
            ),
      λ admin t h.
          rw (route, admin)
            (broadcast_from-Delivered num_shards r msg 0 RouteResult.ok t (omega arith) h),
    )

pub broadcast-Delivered :
    (r : ShardRouter) (msg : ItchMsg) (t : ℕ)
    → t < num_shards
    → Delivered r msg (broadcast r msg).1 t
unfolding broadcast
broadcast-Delivered r msg t h =
    broadcast_from-Delivered num_shards r msg 0 RouteResult.ok t (omega arith) h
