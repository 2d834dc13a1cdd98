-- ===== src/Assembly/Config.antt =====
-- src/app/feed_handler.cpp and include/app/feed_handler.hpp, `FeedHandlerConfig` and `load_config`. The
-- TOML parser is a parameter: what a document is, and how a node of it is read. An `int64_t` and an
-- `int` are their bit patterns.
use Prim.Native.Char.{code}
use Prim.Native.String.{String}
use itch_feed_handler.Common.{
  ℕ, ◌%◌, ◌^◌, Bool, true, false, Option, none, some, List, [], ◌∷◌, ◌++◌,
}
use itch_feed_handler.Snapshots.Names.{Text}

-- The bytes of a literal.
abbrev pub codes : String → Text
codes String.[] = []
codes (String.◌∷◌ c s) = code c ∷ codes s

pub record FeedHandlerConfig (Real : Type 0) : Type 0 where
  pub multicast_group : Text
  pub port : ℕ
  pub interface : Text
  pub multicast_group_secondary : Text
  pub port_secondary : ℕ
  pub interface_secondary : Text
  pub failover_timeout_ms : ℕ
  pub receiver_core : ℕ
  pub parser_core : ℕ
  pub shard_cores : List ℕ
  pub recovery_core : ℕ
  pub merger_core : ℕ
  pub report_interval_sec : ℕ
  pub gap_timeout_ms : ℕ
  pub snapshot_interval_sec : ℕ
  pub retransmit_address : Text
  pub retransmit_port : ℕ
  pub retransmit_address_secondary : Text
  pub retransmit_port_secondary : ℕ
  pub retransmit_username : Text
  pub retransmit_password : Text
  pub require_login : Bool
  pub snapshot_dir : Text
  pub snapshot_filename_template : Text
  pub initial_session : Text
  pub eod_archive_enabled : Bool
  pub watched_symbols : List Text
  pub last_sequence_dir : Text
  pub queue_full_alert_threshold : Real

-- The address that stands for none in the documentation.
abbrev pub placeholder : Text
placeholder = codes "198.51.100.1"

-- The members' initial values. `threshold` is 0.8.
abbrev pub default_config : {Real : Type 0} → Real → FeedHandlerConfig Real
default_config threshold = record {
  multicast_group = codes "233.54.12.111";
  port = 26477;
  interface = codes "0.0.0.0";
  multicast_group_secondary = [];
  port_secondary = 0;
  interface_secondary = codes "0.0.0.0";
  failover_timeout_ms = 5000;
  receiver_core = 1;
  parser_core = 2;
  shard_cores = 3 ∷ 4 ∷ 5 ∷ 6 ∷ 7 ∷ 8 ∷ 9 ∷ 10 ∷ [];
  recovery_core = 11;
  merger_core = 12;
  report_interval_sec = 10;
  gap_timeout_ms = 500;
  snapshot_interval_sec = 60;
  retransmit_address = placeholder;
  retransmit_port = 17001;
  retransmit_address_secondary = [];
  retransmit_port_secondary = 0;
  retransmit_username = [];
  retransmit_password = [];
  require_login = false;
  snapshot_dir = codes "/var/lib/itch/snapshots";
  snapshot_filename_template = codes "itch_{session}_{timestamp}.snap";
  initial_session = codes "AUTO_DETECT";
  eod_archive_enabled = true;
  watched_symbols = [];
  last_sequence_dir = codes "/var/lib/itch";
  queue_full_alert_threshold = threshold;
}

-- What the code uses of the parser: a member of a table, and a node read as a table, an array, a
-- string, an integer, a truth value or a floating-point number. `parse` has no result where
-- `toml::parse_file` throws.
pub record Toml (Node Real : Type 0) : Type 0 where
  pub parse : Text → Option Node
  pub member : Node → String → Option Node
  pub as_table : Node → Option Node
  pub as_array : Node → Option (List Node)
  pub string : Node → Option Text
  pub int64 : Node → Option ℕ
  pub bool : Node → Option Bool
  pub real : Node → Option Real

abbrev and_then : {A B : Type 0} → Option A → (A → Option B) → Option B
and_then none f = none
and_then (some x) f = f x

-- `if (auto v = …) member = *v`
abbrev pub or_else : {A : Type 0} → Option A → A → A
or_else none d = d
or_else (some x) d = x

abbrev pub narrow : (w : ℕ) → Option ℕ → Option ℕ
narrow w none = none
narrow w (some x) = some (x % 2 ^ w)

abbrev pub with_section : {Node C : Type 0} → Option Node → (Node → C → C) → C → C
with_section none read c = c
with_section (some t) read c = read t c

module _ {Node Real : Type 0} (toml : Toml Node Real) where
  abbrev pub section : Node → String → Option Node
  section tbl name = and_then (toml.member tbl name) toml.as_table

  abbrev pub text_at : Node → String → Option Text
  text_at t name = and_then (toml.member t name) toml.string

  abbrev int_at : Node → String → Option ℕ
  int_at t name = and_then (toml.member t name) toml.int64

  abbrev bool_at : Node → String → Option Bool
  bool_at t name = and_then (toml.member t name) toml.bool

  -- `[network]`
  unfoldable pub read_network : Node → FeedHandlerConfig Real → FeedHandlerConfig Real
  read_network net cfg = record cfg {
    multicast_group = or_else (text_at net "multicast_group") cfg.multicast_group;
    port = or_else (narrow 16 (int_at net "port")) cfg.port;
    interface = or_else (text_at net "interface") cfg.interface;
    multicast_group_secondary =
        or_else (text_at net "multicast_group_secondary") cfg.multicast_group_secondary;
    port_secondary = or_else (narrow 16 (int_at net "port_secondary")) cfg.port_secondary;
    interface_secondary = or_else (text_at net "interface_secondary") cfg.interface_secondary;
    failover_timeout_ms =
        or_else (narrow 64 (int_at net "failover_timeout_ms")) cfg.failover_timeout_ms;
  }

  -- The loop over `shard_cores`: as many as both have.
  unfoldable pub read_cores : List Node → List ℕ → List ℕ
  read_cores nodes [] = []
  read_cores [] (c ∷ cores) = c ∷ cores
  read_cores (n ∷ nodes) (c ∷ cores) = or_else (narrow 32 (toml.int64 n)) c ∷ read_cores nodes cores

  abbrev pub read_array : Option (List Node) → List ℕ → List ℕ
  read_array none cores = cores
  read_array (some nodes) cores = read_cores nodes cores

  -- `[threads]`
  unfoldable pub read_threads : Node → FeedHandlerConfig Real → FeedHandlerConfig Real
  read_threads threads cfg = record cfg {
    receiver_core = or_else (narrow 32 (int_at threads "receiver_core")) cfg.receiver_core;
    parser_core = or_else (narrow 32 (int_at threads "parser_core")) cfg.parser_core;
    recovery_core = or_else (narrow 32 (int_at threads "recovery_core")) cfg.recovery_core;
    merger_core = or_else (narrow 32 (int_at threads "merger_core")) cfg.merger_core;
    shard_cores =
        read_array (and_then (toml.member threads "shard_cores") toml.as_array) cfg.shard_cores;
  }

  -- `[monitoring]`
  unfoldable pub read_monitoring : Node → FeedHandlerConfig Real → FeedHandlerConfig Real
  read_monitoring mon cfg = record cfg {
    report_interval_sec =
        or_else (narrow 32 (int_at mon "report_interval_sec")) cfg.report_interval_sec;
  }

  -- `[recovery]`
  unfoldable pub read_recovery : Node → FeedHandlerConfig Real → FeedHandlerConfig Real
  read_recovery rec cfg = record cfg {
    gap_timeout_ms = or_else (narrow 64 (int_at rec "gap_timeout_ms")) cfg.gap_timeout_ms;
    snapshot_interval_sec =
        or_else (narrow 32 (int_at rec "snapshot_interval_sec")) cfg.snapshot_interval_sec;
    retransmit_address = or_else (text_at rec "retransmit_address") cfg.retransmit_address;
    retransmit_port = or_else (narrow 16 (int_at rec "retransmit_port")) cfg.retransmit_port;
    retransmit_address_secondary =
        or_else (text_at rec "retransmit_address_secondary") cfg.retransmit_address_secondary;
    retransmit_port_secondary =
        or_else (narrow 16 (int_at rec "retransmit_port_secondary")) cfg.retransmit_port_secondary;
    retransmit_username = or_else (text_at rec "retransmit_username") cfg.retransmit_username;
    retransmit_password = or_else (text_at rec "retransmit_password") cfg.retransmit_password;
    require_login = or_else (bool_at rec "require_login") cfg.require_login;
    snapshot_dir = or_else (text_at rec "snapshot_directory") cfg.snapshot_dir;
    snapshot_filename_template =
        or_else (text_at rec "snapshot_filename_template") cfg.snapshot_filename_template;
  }

  -- The loop over `watched_symbols`: the elements that are strings.
  unfoldable pub read_symbols : List Node → List Text
  read_symbols [] = []
  read_symbols (n ∷ nodes) =
      let rest = read_symbols nodes in elim (toml.string n) [ none ↦ rest | some s ↦ s ∷ rest ]

  -- `[session]`
  unfoldable pub read_session : Node → FeedHandlerConfig Real → FeedHandlerConfig Real
  read_session ses cfg = record cfg {
    initial_session = or_else (text_at ses "initial_session") cfg.initial_session;
    eod_archive_enabled = or_else (bool_at ses "eod_archive_enabled") cfg.eod_archive_enabled;
    watched_symbols = elim (and_then (toml.member ses "watched_symbols") toml.as_array) [
      | none ↦ cfg.watched_symbols
      | some nodes ↦ cfg.watched_symbols ++ read_symbols nodes
    ];
  }

  -- `[persistence]`
  unfoldable pub read_persistence : Node → FeedHandlerConfig Real → FeedHandlerConfig Real
  read_persistence per cfg = record cfg {
    last_sequence_dir = or_else (text_at per "last_sequence_dir") cfg.last_sequence_dir;
  }

  -- `[sharding]`
  unfoldable pub read_sharding : Node → FeedHandlerConfig Real → FeedHandlerConfig Real
  read_sharding shard cfg = record cfg {
    queue_full_alert_threshold =
        or_else (and_then (toml.member shard "queue_full_alert_threshold") toml.real)
          cfg.queue_full_alert_threshold;
  }

  -- The part of `load_config` behind the parser.
  unfoldable pub read_config : Node → FeedHandlerConfig Real → FeedHandlerConfig Real
  read_config tbl c0 =
      let c1 = with_section (section tbl "network") read_network c0 in
      let c2 = with_section (section tbl "threads") read_threads c1 in
      let c3 = with_section (section tbl "monitoring") read_monitoring c2 in
      let c4 = with_section (section tbl "recovery") read_recovery c3 in
      let c5 = with_section (section tbl "session") read_session c4 in
      let c6 = with_section (section tbl "persistence") read_persistence c5 in
      with_section (section tbl "sharding") read_sharding c6

  -- `load_config`; there is no result where it throws.
  unfoldable pub load_config : Real → Text → Option (FeedHandlerConfig Real)
  load_config threshold path = elim (toml.parse path) [
    | none ↦ none
    | some tbl ↦ some (read_config tbl (default_config threshold))
  ]
