-- ===== src/Assembly/Startup.antt =====
-- src/app/feed_handler.cpp, `init_workers` and `init`, with the constructor of the session manager: what a
-- configuration makes of the parts, and when the process starts. What the constructors of the other
-- parts may throw, the sockets and the file of the last sequence number are arguments.
use itch_feed_handler.Common.{
  ℕ, zero, suc, ◌+◌, Bool, true, false, ◌&&◌, not, List, [], ◌∷◌, ltb, ◌==◌, if◌then◌else◌,
}
use itch_feed_handler.Message.{Chars8}
use itch_feed_handler.Mold.{Session}
use itch_feed_handler.Sequence.{SequenceTracker}
use itch_feed_handler.Sequence
use itch_feed_handler.Lifecycle.Manager.{
  SessionManager, SessionState, no_session, register_eod_callback, add_watched_ticker,
}
use itch_feed_handler.Recovery.Persist.{File, LoadedSeq}
use itch_feed_handler.Recovery.Persist
use itch_feed_handler.Snapshots.Names.{Text, is_empty, starts_with, insert_suffix, BookSnapshot}
use itch_feed_handler.Snapshots.Files.{same_path}
use itch_feed_handler.Assembly.Config.{codes, FeedHandlerConfig, placeholder}
use itch_feed_handler.Assembly.Memory.{Heap, Sizes, FeedMemory, allocate_memory}

-- A byte of a text, and what stands behind its end.
abbrev byte_or : ℕ → Text → ℕ → ℕ
byte_or d [] i = d
byte_or d (x ∷ s) zero = x
byte_or d (x ∷ s) (suc i) = byte_or d s i

-- The test of the constructor of `SessionManager`: the first eleven characters.
abbrev pub is_auto_detect : Text → Bool
is_auto_detect name = starts_with (codes "AUTO_DETECT") name

-- `strncpy` into the session.
unfoldable pub session_of : Text → Session
session_of s = record {
  c0 = byte_or 0 s 0;
  c1 = byte_or 0 s 1;
  c2 = byte_or 0 s 2;
  c3 = byte_or 0 s 3;
  c4 = byte_or 0 s 4;
  c5 = byte_or 0 s 5;
  c6 = byte_or 0 s 6;
  c7 = byte_or 0 s 7;
  c8 = byte_or 0 s 8;
  c9 = byte_or 0 s 9;
}

-- `SessionManager::SessionManager`
unfoldable pub new_manager : Text → Bool → SessionManager
new_manager initial_session archive = record {
  session = if is_auto_detect initial_session then no_session else session_of initial_session;
  state = SessionState.unknown;
  eod_archive_enabled = archive;
  eod_callbacks = λ i. false;
  eod_callback_count = 0;
  watched_bits = λ i. 0;
  watched_tickers = λ i. record { c0 = 0; c1 = 0; c2 = 0; c3 = 0; c4 = 0; c5 = 0; c6 = 0; c7 = 0 };
  watched_ticker_count = 0;
}

-- The ticker of `init_workers`: eight characters, filled up with spaces.
unfoldable pub ticker8 : Text → Chars8
ticker8 sym = record {
  c0 = byte_or b' ' sym 0;
  c1 = byte_or b' ' sym 1;
  c2 = byte_or b' ' sym 2;
  c3 = byte_or b' ' sym 3;
  c4 = byte_or b' ' sym 4;
  c5 = byte_or b' ' sym 5;
  c6 = byte_or b' ' sym 6;
  c7 = byte_or b' ' sym 7;
}

-- The name of a shard's archive, for a shard of one digit.
unfoldable pub shard_template : Text → ℕ → Text
shard_template t s = insert_suffix t (b'_' ∷ b's' ∷ (b'0' + s) ∷ [])

-- The loops of `init_workers` over the shards that are left, and over the watched symbols.
unfoldable pub register_archives : ℕ → SessionManager → SessionManager
register_archives zero m = m
register_archives (suc n) m = register_archives n (register_eod_callback m true)

unfoldable pub watch_all : List Text → SessionManager → SessionManager
watch_all [] m = m
watch_all (sym ∷ rest) m = watch_all rest (add_watched_ticker m (ticker8 sym))

-- Which addresses can be bound, and which groups joined on which interface.
pub record Net : Type 0 where
  pub binds : Text → ℕ → Bool
  pub joins : Text → Text → Bool

-- `ReceiverThread::open`
unfoldable pub receiver_open : Net → Text → ℕ → Text → Text → Bool
receiver_open net addr port mcast_group mcast_iface =
    if not (net.binds addr port)
    then false
    else if not (is_empty mcast_group) && not (net.joins mcast_group mcast_iface)
    then false
    else true

pub record Handler : Type 0 where
  pub heap : Heap
  pub memory : FeedMemory
  pub manager : SessionManager
  pub seq_tracker : SequenceTracker
  pub secondary_receiver : Bool

-- `init` ends the process, returns false, or returns true.
pub data InitResult : Type 0 where
  exited : InitResult
  failed : Heap → FeedMemory → InitResult
  ready : Handler → InitResult

abbrev pub new_tracker : SequenceTracker
new_tracker = record {
  seq = 0;
  gap_count = 0;
  dup_count = 0;
  last_gap_start = 0;
  last_gap_end = 0;
  last_gap_ts = 0;
}

-- The tracker after the persisted position was read.
unfoldable pub warm_start : SequenceTracker → LoadedSeq → SequenceTracker
warm_start t loaded = if ltb 0 loaded.seq then Sequence.reset t loaded.seq else t

module _ {Real : Type 0} where
  abbrev pub eod_snapshot : FeedHandlerConfig Real → ℕ → BookSnapshot
  eod_snapshot cfg s = record {
    dir = cfg.snapshot_dir;
    tmpl = shard_template cfg.snapshot_filename_template s;
  }

  -- The session manager that `init_workers` sets up.
  unfoldable pub init_manager : FeedHandlerConfig Real → SessionManager
  init_manager cfg =
      let m = new_manager cfg.initial_session cfg.eod_archive_enabled in
      watch_all cfg.watched_symbols (if cfg.eod_archive_enabled then register_archives 8 m else m)

  abbrev pub has_secondary : FeedHandlerConfig Real → Bool
  has_secondary cfg = not (is_empty cfg.multicast_group_secondary)

  -- The opening of the second receiver: the port and the interface of the first where its own are not
  -- set.
  unfoldable pub open_secondary : FeedHandlerConfig Real → Net → Bool
  open_secondary cfg net =
      let port = if cfg.port_secondary == 0 then cfg.port else cfg.port_secondary in
      let iface =
        if is_empty cfg.interface_secondary then cfg.interface else cfg.interface_secondary in
      has_secondary cfg && receiver_open net iface port cfg.multicast_group_secondary iface

  -- `FeedHandler::init`. `constructed` is false where `init_workers` throws.
  unfoldable pub init : FeedHandlerConfig Real → Sizes → Heap → Bool → File → Net → InitResult
  init cfg z h0 constructed file net =
      let (h, m, allocated) = allocate_memory z (has_secondary cfg) h0 in
      if same_path cfg.retransmit_address placeholder
      then InitResult.exited
      else if not (allocated && constructed)
      then InitResult.failed h m
      else if not (receiver_open net cfg.interface cfg.port cfg.multicast_group cfg.interface)
      then InitResult.failed h m
      else InitResult.ready (record {
        heap = h;
        memory = m;
        manager = init_manager cfg;
        seq_tracker = warm_start new_tracker (Persist.load file);
        secondary_receiver = open_secondary cfg net;
      })
