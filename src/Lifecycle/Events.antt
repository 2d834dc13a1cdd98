-- ===== src/Lifecycle/Events.antt =====
-- The session states, and what a new session resets.
use itch_feed_handler.Common.{
  ℕ, zero, suc, ◌+◌, ◌^◌, ◌<◌, ◌≡◌, ◌≢◌, arith, Bool, true, false, ◌&&◌, none, List, [], ◌∷◌, ◌++◌,
  if◌then◌else◌,
}
use itch_feed_handler.Types.{num_shards, Timestamp}
use itch_feed_handler.Mold.{Session}
use itch_feed_handler.Sequence.{try_advance}
use itch_feed_handler.Sequence
use itch_feed_handler.Routing.Directory.{lookup}
use itch_feed_handler.Routing.Directory
use itch_feed_handler.Routing.Router.{Delivered}
use itch_feed_handler.Book.Published.{read, no_bbo}
use itch_feed_handler.Book.Published
use itch_feed_handler.Lifecycle.Manager.{
  SessionManager, SessionState, Subsystems, reset_session, reset_message,
}

-- The state that an event code stands for.
pub data Means : ℕ → SessionState → Type 0 where
  start_of_hours : Means b'S' SessionState.pre_open
  start_of_trading : Means b'O' SessionState.open_session
  resumed : Means b'C' SessionState.open_session
  end_of_trading : Means b'Q' SessionState.closed
  end_of_messages : Means b'M' SessionState.closed
  end_of_hours : Means b'E' SessionState.closed
  no_meaning :
      {code : ℕ}
      → code ≢ b'S'
      → code ≢ b'O'
      → code ≢ b'C'
      → code ≢ b'Q'
      → code ≢ b'M'
      → code ≢ b'E'
      → Means code SessionState.unknown

-- The state after an event, from the state before and the one that its code stands for.
abbrev pub next_state : SessionState → SessionState → SessionState
next_state old SessionState.unknown = old
next_state old SessionState.pre_open = SessionState.pre_open
next_state old SessionState.open_session = SessionState.open_session
next_state old SessionState.closed = SessionState.closed

abbrev pub is_close : SessionState → Bool
is_close SessionState.closed = true
is_close _ = false

-- The registered callbacks that can be called, from callback i on with n left.
abbrev pub callable : ℕ → (ℕ → Bool) → ℕ → List ℕ
callable zero f i = []
callable (suc n) f i = if f i then i ∷ callable n f (i + 1) else callable n f (i + 1)

-- One call of each, with no books.
abbrev pub calls_of : List ℕ → Session → List (ℕ × ℕ × Session)
calls_of [] session = []
calls_of (i ∷ rest) session = (i, 0, session) ∷ calls_of rest session

-- Nothing of the old session is left.
pub record IsReset (s s' : Subsystems) : Type 0 where
  pub sequence : s'.seq_tracker.seq ≡ 0
  pub gaps : s'.seq_tracker.gap_count ≡ 0
  pub dups : s'.seq_tracker.dup_count ≡ 0
  pub symbols : (loc : ℕ) → lookup s'.sym_dir loc ≡ none
  pub prices : (loc : ℕ) → read s'.bbo_pub loc ≡ no_bbo
  pub shards : (t : ℕ) → t < num_shards → Delivered s.router reset_message s'.router t

-- The other parts are as they were.
abbrev pub IsKept : Subsystems → Subsystems → Type 0
IsKept s s' =
    (s'.seq_tracker ≡ s.seq_tracker)
    × (s'.sym_dir ≡ s.sym_dir)
    × (s'.bbo_pub ≡ s.bbo_pub)
    × (s'.router ≡ s.router)

-- The calls of the callbacks after an event: those before, and at a close one call for each.
abbrev pub calls_after :
    SessionManager → Session → SessionState → List (ℕ × ℕ × Session) → List (ℕ × ℕ × Session)
calls_after m session new calls =
    if is_close new && m.eod_archive_enabled
    then calls ++ calls_of (callable m.eod_callback_count m.eod_callbacks 0) session
    else calls

-- The tracker is reset after the number of the current packet was taken. So the next packet of the
-- new session is reported as a gap that starts at 1, though none is missing.
pub reset_session-false_gap :
    (s : Subsystems) (raw : Session) (seq : ℕ) (now : Timestamp)
    → 0 < seq
    → seq + 1 < 2 ^ 64
    → let (t, in_order) = try_advance (reset_session s raw).seq_tracker (seq + 1) now in
      (in_order ≡ false) × (t.gap_count ≡ 1) × (t.last_gap_start ≡ 1) × (t.last_gap_end ≡ seq)
unfolding reset_session Sequence.reset try_advance
reset_session-false_gap s raw seq now some_seq small = ground arith
