-- ===== src/Lifecycle/Manager.antt =====
-- include/session/session_manager.hpp and src/session/session_manager.cpp, `SessionManager`: its state
-- and what it changes in the components that it refers to. The log lines are left out. The byte
-- that ends the session name, always 0, is left out.
use itch_feed_handler.Common.{
  ℕ, zero, suc, ◌+◌, ◌/◌, ◌%◌, ◌^◌, Bool, true, false, ◌&&◌, ◌||◌, not, Option, none, some, List,
  [], ◌∷◌, ◌++◌, ltb, leb, ◌==◌, if◌then◌else◌, update, bit_and, bit_or,
}
use itch_feed_handler.Types.{MessageType, max_locate, num_shards}
use itch_feed_handler.Message.{Chars8, Body, ItchMsg}
use itch_feed_handler.Mold.{Session}
use itch_feed_handler.Sequence.{SequenceTracker}
use itch_feed_handler.Routing.Directory.{SymbolDirectory}
use itch_feed_handler.Routing.Router.{ShardRouter, broadcast}
use itch_feed_handler.Book.Published.{BboPublisher}
use itch_feed_handler.Sequence
use itch_feed_handler.Routing.Directory
use itch_feed_handler.Book.Published

pub data SessionState : Type 0 where
  unknown pre_open open_session closed : SessionState

abbrev pub max_watched_tickers : ℕ
max_watched_tickers = 256

-- `eod_callbacks` says which of the registered callbacks can be called.
pub record SessionManager : Type 0 where
  pub session : Session
  pub state : SessionState
  pub eod_archive_enabled : Bool
  pub eod_callbacks : ℕ → Bool
  pub eod_callback_count : ℕ
  pub watched_bits : ℕ → ℕ
  pub watched_tickers : ℕ → Chars8
  pub watched_ticker_count : ℕ

abbrev pub no_session : Session
no_session = record {
  c0 = 0;
  c1 = 0;
  c2 = 0;
  c3 = 0;
  c4 = 0;
  c5 = 0;
  c6 = 0;
  c7 = 0;
  c8 = 0;
  c9 = 0;
}

-- `memcmp(a, b, 10) == 0` and `memcmp(a, b, 8) == 0`
unfoldable pub same_session : Session → Session → Bool
same_session a b =
    a.c0 == b.c0
    && a.c1 == b.c1
    && a.c2 == b.c2
    && a.c3 == b.c3
    && a.c4 == b.c4
    && a.c5 == b.c5
    && a.c6 == b.c6
    && a.c7 == b.c7
    && a.c8 == b.c8
    && a.c9 == b.c9

unfoldable pub same_ticker : Chars8 → Chars8 → Bool
same_ticker a b =
    a.c0 == b.c0
    && a.c1 == b.c1
    && a.c2 == b.c2
    && a.c3 == b.c3
    && a.c4 == b.c4
    && a.c5 == b.c5
    && a.c6 == b.c6
    && a.c7 == b.c7

-- `SessionManager::register_eod_callback`
unfoldable pub register_eod_callback : SessionManager → Bool → SessionManager
register_eod_callback m callable =
    if ltb m.eod_callback_count num_shards
    then record m {
      eod_callbacks = update m.eod_callbacks m.eod_callback_count callable;
      eod_callback_count = m.eod_callback_count + 1;
    }
    else m

-- `SessionManager::add_watched_symbol`
unfoldable pub add_watched_symbol : SessionManager → ℕ → SessionManager
add_watched_symbol m loc =
    if ltb loc max_locate
    then record m {
      watched_bits =
          update m.watched_bits (loc / 64) (bit_or (m.watched_bits (loc / 64)) (2 ^ (loc % 64)));
    }
    else m

-- `SessionManager::add_watched_ticker`
unfoldable pub add_watched_ticker : SessionManager → Chars8 → SessionManager
add_watched_ticker m ticker8 =
    if leb max_watched_tickers m.watched_ticker_count then m else record m {
      watched_tickers = update m.watched_tickers m.watched_ticker_count ticker8;
      watched_ticker_count = m.watched_ticker_count + 1;
    }

-- The loop of `try_resolve_watched`, from entry i on with n entries left.
unfoldable pub resolve_from : ℕ → SessionManager → ℕ → ℕ → Chars8 → SessionManager
resolve_from zero m i loc ticker8 = m
resolve_from (suc n) m i loc ticker8 =
    let rest = resolve_from n m (i + 1) loc ticker8 in
    if same_ticker (m.watched_tickers i) ticker8 then add_watched_symbol m loc else rest

-- `SessionManager::try_resolve_watched`
unfoldable pub try_resolve_watched : SessionManager → ℕ → Chars8 → SessionManager
try_resolve_watched m loc ticker8 =
    if m.watched_ticker_count == 0 then m else resolve_from m.watched_ticker_count m 0 loc ticker8

-- `SessionManager::is_warmup_symbol`
unfoldable pub is_warmup_symbol : SessionManager → ℕ → Bool
is_warmup_symbol m loc =
    if not m.eod_archive_enabled || leb max_locate loc
    then false
    else not (bit_and (m.watched_bits (loc / 64) / 2 ^ (loc % 64)) 1 == 0)

-- `SessionManager::is_open` and `SessionManager::is_pre_open`
abbrev pub is_open_state : SessionState → Bool
is_open_state SessionState.open_session = true
is_open_state _ = false

abbrev pub is_pre_open_state : SessionState → Bool
is_pre_open_state SessionState.pre_open = true
is_pre_open_state _ = false

-- `SessionManager::event_code_to_state`
unfoldable pub event_code_to_state : ℕ → SessionState
event_code_to_state code =
    if code == b'S'
    then SessionState.pre_open
    else if code == b'O'
    then SessionState.open_session
    else if code == b'C'
    then SessionState.open_session
    else if code == b'Q'
    then SessionState.closed
    else if code == b'M'
    then SessionState.closed
    else if code == b'E'
    then SessionState.closed
    else SessionState.unknown

-- The manager and what it refers to. `eod_calls` holds the calls of callbacks, the earliest first:
-- which callback, the count of books that it is given, and the session.
pub record Subsystems : Type 0 where
  pub manager : SessionManager
  pub seq_tracker : SequenceTracker
  pub sym_dir : SymbolDirectory
  pub bbo_pub : BboPublisher
  pub router : ShardRouter
  pub eod_calls : List (ℕ × ℕ × Session)

-- `ItchMsg reset_msg{}` with its type
abbrev pub reset_message : ItchMsg
reset_message = record {
  type = MessageType.internal_session_reset;
  locate = 0;
  timestamp = 0;
  recv_timestamp = 0;
  body = Body.untouched;
}

-- `SessionManager::reset_session`
unfoldable pub reset_session : Subsystems → Session → Subsystems
reset_session s new_session = record {
  manager = record s.manager { session = new_session; state = SessionState.unknown };
  seq_tracker = Sequence.reset s.seq_tracker 0;
  sym_dir = Directory.reset s.sym_dir;
  bbo_pub = Published.reset s.bbo_pub;
  router = (broadcast s.router reset_message).1;
  eod_calls = s.eod_calls;
}

-- The loop of `on_eod_archival`, from callback i on with n callbacks left.
unfoldable pub archive_from :
    ℕ → SessionManager → ℕ → List (ℕ × ℕ × Session) → List (ℕ × ℕ × Session)
archive_from zero m i calls = calls
archive_from (suc n) m i calls =
    archive_from n m (i + 1) (if m.eod_callbacks i then calls ++ (i, 0, m.session) ∷ [] else calls)

-- `SessionManager::on_eod_archival`
unfoldable pub on_eod_archival : Subsystems → Subsystems
on_eod_archival s = record s {
  eod_calls = archive_from s.manager.eod_callback_count s.manager 0 s.eod_calls;
}

-- The test for a new session name in `on_system_event`.
unfoldable pub is_new_session : Session → Session → Bool
is_new_session old raw = not (same_session old raw) && (not (old.c0 == 0) || not (raw.c0 == 0))

-- The rest of `on_system_event`, for the state that the event code stands for.
unfoldable pub enter : Subsystems → SessionState → Subsystems
enter s SessionState.unknown = s
enter s SessionState.pre_open = record s {
  manager = record s.manager { state = SessionState.pre_open };
}
enter s SessionState.open_session = record s {
  manager = record s.manager { state = SessionState.open_session };
}
enter s SessionState.closed =
    let s' = if s.manager.eod_archive_enabled then on_eod_archival s else s in
    record s' { manager = record s'.manager { state = SessionState.closed } }

-- `SessionManager::on_system_event`, with `none` for a null pointer
unfoldable pub on_system_event : Subsystems → ℕ → Option Session → Subsystems
on_system_event s code none = enter s (event_code_to_state code)
on_system_event s code (some raw) =
    enter (if is_new_session s.manager.session raw then reset_session s raw else s)
      (event_code_to_state code)
