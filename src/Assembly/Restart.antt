-- ===== src/Assembly/Restart.antt =====
-- src/app/feed_handler.cpp, `init`: when the process starts, and where it takes up the feed.
use mathlib.Core.Option.{some-injective, some-ne-none}
use itch_feed_handler.Common.{
  ℕ, zero, suc, ◌≡◌, ◌≢◌, arith, refl, sym, ap, ◌∙◌, subst, Bool, true, false, ◌&&◌, Option, none,
  some, List, [], ◌∷◌, if◌then◌else◌, Bool-cases, Option-cases, inl, inr,
}
use itch_feed_handler.Mold.{Session}
use itch_feed_handler.Sequence.{SequenceTracker, try_advance}
use itch_feed_handler.Sequence
use itch_feed_handler.Lifecycle.Manager.{
  SessionManager, Subsystems, no_session, on_system_event, is_new_session, reset_session, enter,
  SessionState, add_watched_ticker, register_eod_callback, on_eod_archival, reset_message,
  event_code_to_state, same_session,
}
use itch_feed_handler.Recovery.Persist.{File, SaveResult, save_sync, load-save_sync}
use itch_feed_handler.Routing.Router.{broadcast}
use itch_feed_handler.Recovery.Persist
use itch_feed_handler.Snapshots.Names.{Text}
use itch_feed_handler.Snapshots.Files.{same_path}
use itch_feed_handler.Assembly.Config.{
  FeedHandlerConfig, placeholder, Toml, text_at, section, with_section, default_config,
  read_network, read_threads, read_monitoring, read_recovery, read_session, read_persistence,
  read_sharding, read_config, load_config,
}
use itch_feed_handler.Assembly.Memory.{Heap, Sizes, allocate_memory}
use itch_feed_handler.Assembly.Startup.{
  Net, receiver_open, Handler, InitResult, new_tracker, warm_start, has_secondary, open_secondary,
  init_manager, is_auto_detect, init, watch_all, register_archives, new_manager, ticker8,
}

warm_start_lem : (f : File) → (warm_start new_tracker (Persist.load f)).seq ≡ (Persist.load f).seq
unfolding warm_start Sequence.reset
warm_start_lem f = ground arith

abbrev handler_of : InitResult → Option Handler
handler_of InitResult.exited = none
handler_of (InitResult.failed h m) = none
handler_of (InitResult.ready s) = some s

module _ {Real : Type 0} where
  -- What holds of a handler that is ready.
  pub record IsReady (cfg : FeedHandlerConfig Real) (z : Sizes) (h0 : Heap) (file : File)
      (net : Net) (s : Handler) : Type 0 where
    pub real_address : same_path cfg.retransmit_address placeholder ≡ false
    pub allocated : (allocate_memory z (has_secondary cfg) h0).2 ≡ true
    pub opened : receiver_open net cfg.interface cfg.port cfg.multicast_group cfg.interface ≡ true
    pub position : s.seq_tracker.seq ≡ (Persist.load file).seq
    pub second_feed : s.secondary_receiver ≡ open_secondary cfg net
    pub manager : s.manager ≡ init_manager cfg

  -- What `init` gives where nothing fails.
  abbrev booted : FeedHandlerConfig Real → Sizes → Heap → File → Net → Handler
  booted cfg z h0 file net =
      let (h, m, allocated) = allocate_memory z (has_secondary cfg) h0 in
      record {
        heap = h;
        memory = m;
        manager = init_manager cfg;
        seq_tracker = warm_start new_tracker (Persist.load file);
        secondary_receiver = open_secondary cfg net;
      }

  -- A handler that is ready has a real retransmission server, all its memory and an open first receiver;
  -- it takes up the feed at the number in the file, and has a second receiver just if a second feed is
  -- configured and could be opened.
  init-IsReady :
      (cfg : FeedHandlerConfig Real) (z : Sizes) (h0 : Heap) (constructed : Bool) (file : File)
      (net : Net) (s : Handler)
      → init cfg z h0 constructed file net ≡ InitResult.ready s
      → IsReady cfg z h0 file net s
  unfolding init
  init-IsReady cfg z h0 constructed file net s run =
      let run' : handler_of (init cfg z h0 constructed file net) ≡ some s = ap handler_of run in
      elim (Bool-cases (same_path cfg.retransmit_address placeholder)) [
        | inl e ↦ absurd (some-ne-none _ (sym run' ∙ rw (init, e) refl))
        | inr e ↦ elim (Bool-cases ((allocate_memory z (has_secondary cfg) h0).2 && constructed)) [
          | inr f ↦ absurd (some-ne-none _ (sym run' ∙ rw (init, e, f) refl))
          | inl f ↦
              elim (Bool-cases
                (receiver_open net cfg.interface cfg.port cfg.multicast_group cfg.interface)) [
                  | inr g ↦ absurd (some-ne-none _ (sym run' ∙ rw (init, e, f, g) refl))
                  | inl g ↦
                      let same : booted cfg z h0 file net ≡ s =
                        some-injective _ _ (sym (rw (init, e, f, g) refl) ∙ run') in
                      subst (IsReady cfg z h0 file net) same (record {
                        real_address = e;
                        allocated = ground arith;
                        opened = g;
                        position = warm_start_lem file;
                        second_feed = refl;
                        manager = refl;
                      })
                ]
        ]
      ]

-- The sections that do not hold a member leave it.
with_section_keeps :
    {Node C : Type 0} (f : C → Text) (s : Option Node) (read : Node → C → C) (c : C)
    → ((t : Node) (d : C) → f (read t d) ≡ f d)
    → f (with_section s read c) ≡ f c
with_section_keeps f none read c keeps = refl
with_section_keeps f (some t) read c keeps = keeps t c

module _ {Node Real : Type 0} (toml : Toml Node Real) where
  abbrev address_of : FeedHandlerConfig Real → Text
  address_of c = c.retransmit_address

  -- The document has no `retransmit_address` in a `[recovery]` section.
  abbrev pub HasNoServer : Node → Type 0
  HasNoServer tbl =
      (rec : Node)
      → section toml tbl "recovery" ≡ some rec
      → text_at toml rec "retransmit_address" ≡ none

  read_recovery-address :
      (tbl : Node) (c : FeedHandlerConfig Real)
      → HasNoServer tbl
      → (with_section (section toml tbl "recovery") (read_recovery toml) c).retransmit_address
        ≡ c.retransmit_address
  unfolding read_recovery
  read_recovery-address tbl c absent = elim (Option-cases (section toml tbl "recovery")) [
    | inl e ↦ rw e refl
    | inr (rec, e) ↦
        let missing : text_at toml rec "retransmit_address" ≡ none = absent rec e in
        rw e (rw missing refl)
  ]

  read_config-address :
      (tbl : Node) (c : FeedHandlerConfig Real)
      → HasNoServer tbl
      → (read_config toml tbl c).retransmit_address ≡ c.retransmit_address
  unfolding read_config read_network read_threads read_monitoring read_session read_persistence
      read_sharding
  read_config-address tbl c0 absent =
      let c1 = with_section (section toml tbl "network") (read_network toml) c0 in
      let c2 = with_section (section toml tbl "threads") (read_threads toml) c1 in
      let c3 = with_section (section toml tbl "monitoring") (read_monitoring toml) c2 in
      let c4 = with_section (section toml tbl "recovery") (read_recovery toml) c3 in
      let c5 = with_section (section toml tbl "session") (read_session toml) c4 in
      let c6 = with_section (section toml tbl "persistence") (read_persistence toml) c5 in
      with_section_keeps address_of (section toml tbl "sharding") (read_sharding toml) c6
        (λ t d. refl)
      ∙ with_section_keeps address_of (section toml tbl "persistence") (read_persistence toml) c5
          (λ t d. refl)
      ∙ with_section_keeps address_of (section toml tbl "session") (read_session toml) c4
          (λ t d. refl)
      ∙ read_recovery-address tbl c3 absent
      ∙ with_section_keeps address_of (section toml tbl "monitoring") (read_monitoring toml) c2
          (λ t d. refl)
      ∙ with_section_keeps address_of (section toml tbl "threads") (read_threads toml) c1
          (λ t d. refl)
      ∙ with_section_keeps address_of (section toml tbl "network") (read_network toml) c0
          (λ t d. refl)

  -- A process whose document names no retransmission server ends at once, whatever else it says.
  pub init-load_config :
      (threshold : Real) (path : Text) (tbl : Node) (c : FeedHandlerConfig Real) (z : Sizes)
      (h0 : Heap) (constructed : Bool) (file : File) (net : Net)
      → toml.parse path ≡ some tbl
      → HasNoServer tbl
      → load_config toml threshold path ≡ some c
      → init c z h0 constructed file net ≡ InitResult.exited
  unfolding load_config init
  init-load_config threshold path tbl c z h0 constructed file net parsed absent loaded =
      let tbl_read : read_config toml tbl (default_config threshold) ≡ c =
        some-injective _ _ (sym (rw (load_config, parsed) refl) ∙ loaded) in
      let address : c.retransmit_address ≡ placeholder =
        sym (ap address_of tbl_read) ∙ read_config-address tbl (default_config threshold) absent in
      rw (init, address) refl

watch_all-session : (syms : List Text) (m : SessionManager) → (watch_all syms m).session ≡ m.session
unfolding watch_all add_watched_ticker
watch_all-session [] m = refl
watch_all-session (sym ∷ rest) m =
    watch_all-session rest (add_watched_ticker m (ticker8 sym)) ∙ ground arith

register_archives-session :
    (n : ℕ) (m : SessionManager) → (register_archives n m).session ≡ m.session
unfolding register_archives register_eod_callback
register_archives-session zero m = refl
register_archives-session (suc n) m =
    register_archives-session n (register_eod_callback m true) ∙ ground arith

archives-session :
    (archive : Bool) (m : SessionManager)
    → (if archive then register_archives 8 m else m).session ≡ m.session
archives-session true m = register_archives-session 8 m
archives-session false m = refl

is_new_session-named :
    (old raw : Session) → old ≡ no_session → raw.c0 ≢ 0 → is_new_session old raw ≡ true
unfolding is_new_session same_session
is_new_session-named old raw blank named = rw (is_new_session, blank) (ground arith)

enter-seq :
    (s : Subsystems) (state : SessionState)
    → ((enter s state).seq_tracker ≡ s.seq_tracker) × ((enter s state).router ≡ s.router)
unfolding enter on_eod_archival
enter-seq s SessionState.unknown = (refl, refl)
enter-seq s SessionState.pre_open = (refl, refl)
enter-seq s SessionState.open_session = (refl, refl)
enter-seq s SessionState.closed = ground arith

module _ {Real : Type 0} where
  init_manager-session :
      (cfg : FeedHandlerConfig Real)
      → is_auto_detect cfg.initial_session ≡ true
      → (init_manager cfg).session ≡ no_session
  unfolding init_manager new_manager
  init_manager-session cfg auto =
      let m = new_manager cfg.initial_session cfg.eod_archive_enabled in
      let m' = if cfg.eod_archive_enabled then register_archives 8 m else m in
      let blank : m.session ≡ no_session = rw (new_manager, auto) refl in
      watch_all-session cfg.watched_symbols m' ∙ archives-session cfg.eod_archive_enabled m ∙ blank

  -- A handler that was started to detect the session takes the feed up at the number in the file, but has
  -- no session name, even if the file held one. So the first system event, whatever its code, under a
  -- session name that does not begin with a zero byte takes the tracker back to 0 and tells every shard to
  -- clear its books.
  pub on_system_event-init :
      (cfg : FeedHandlerConfig Real) (z : Sizes) (h0 : Heap) (constructed : Bool) (file : File)
      (net : Net) (s : Handler) (sub : Subsystems) (code : ℕ) (raw : Session)
      → init cfg z h0 constructed file net ≡ InitResult.ready s
      → is_auto_detect cfg.initial_session ≡ true
      → sub.manager ≡ s.manager
      → sub.seq_tracker ≡ s.seq_tracker
      → raw.c0 ≢ 0
      → let sub' = on_system_event sub code (some raw) in
        (sub.seq_tracker.seq ≡ (Persist.load file).seq)
        × (sub'.seq_tracker.seq ≡ 0)
        × (sub'.router ≡ (broadcast sub.router reset_message).1)
  unfolding on_system_event reset_session Sequence.reset
  on_system_event-init cfg z h0 constructed file net s sub code raw run auto manager tracker named =
      let up = init-IsReady cfg z h0 constructed file net s run in
      let blank : sub.manager.session ≡ no_session =
        ap (λ (m : SessionManager). m.session) (manager ∙ up.manager)
        ∙ init_manager-session cfg auto in
      let new : is_new_session sub.manager.session raw ≡ true =
        is_new_session-named sub.manager.session raw blank named in
      let (seq, router) = enter-seq (reset_session sub raw) (event_code_to_state code) in
      (
        ap (λ (t : SequenceTracker). t.seq) tracker ∙ up.position,
        rw (on_system_event, new) (ap (λ (t : SequenceTracker). t.seq) seq),
        rw (on_system_event, new) router,
      )
