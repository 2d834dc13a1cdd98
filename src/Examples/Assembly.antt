-- ===== src/Examples/Assembly.antt =====
-- The theorems on the assembled program at a document without sections, and at a process that resumes.
use itch_feed_handler.Common.{ℕ, ◌≡◌, arith, refl, true, false, none, some, [], ltb}
use itch_feed_handler.Mold.{Session}
use itch_feed_handler.Routing.Router.{broadcast}
use itch_feed_handler.Lifecycle.Manager.{Subsystems, no_session, on_system_event, reset_message}
use itch_feed_handler.Book.Published.{no_bbo}
use itch_feed_handler.Recovery.Persist.{File, PersistRecord, whole, file_magic}
use itch_feed_handler.Recovery.Persist
use itch_feed_handler.Assembly.Config.{
  codes, FeedHandlerConfig, default_config, Toml, load_config, read_config,
}
use itch_feed_handler.Assembly.Memory.{
  Heap, Sizes, alloc, allocate_shard, allocate_shards, allocate_memory, destroy,
}
use itch_feed_handler.Assembly.Release.{destroy-allocate_memory}
use itch_feed_handler.Assembly.Startup.{
  Net, receiver_open, Handler, InitResult, new_tracker, warm_start, open_secondary, init_manager,
  init,
}
use itch_feed_handler.Assembly.Restart.{HasNoServer, init-load_config, on_system_event-init}
use itch_feed_handler.Examples.Routing.{directory, router}

abbrev sizes : Sizes
sizes = record { ring = 100; order = 40; entry = 16; book = 8000 }

-- The sixth request is refused.
abbrev short_heap : Heap
short_heap = record { grants = λ i. ltb i 5; asked = 0; blocks = λ a. none }

destroy-allocate_memory_example :
    let (h, m, ok) = allocate_memory sizes true short_heap in
    (destroy sizes h m).blocks 3 ≡ short_heap.blocks 3
destroy-allocate_memory_example = destroy-allocate_memory sizes true short_heap (λ a h. refl) 3

abbrev defaults : FeedHandlerConfig ℕ
defaults = default_config 8

-- Every document is a table without members.
abbrev toml : Toml ℕ ℕ
toml = record {
  parse = λ path. some 0;
  member = λ n name. none;
  as_table = λ n. some n;
  as_array = λ n. none;
  string = λ n. none;
  int64 = λ n. none;
  bool = λ n. none;
  real = λ n. none;
}

abbrev heap : Heap
heap = record { grants = λ i. true; asked = 0; blocks = λ a. none }

abbrev net : Net
net = record { binds = λ addr port. true; joins = λ group iface. true }

abbrev file : File
file = whole (record { magic = file_magic; session = no_session; version = 1; seq = 41 })

toml-HasNoServer : HasNoServer toml 0
toml-HasNoServer rec e = refl

default-loaded : load_config toml 8 (codes "a.toml") ≡ some defaults
unfolding load_config read_config
default-loaded = refl

init-load_config_example : init defaults sizes heap true file net ≡ InitResult.exited
init-load_config_example =
    init-load_config toml 8 (codes "a.toml") 0 defaults sizes heap true file net refl
      toml-HasNoServer default-loaded

abbrev config : FeedHandlerConfig ℕ
config = record defaults { retransmit_address = codes "10.0.1.10" }

abbrev handler : Handler
handler = record {
  heap = (allocate_memory sizes false heap).0;
  memory = (allocate_memory sizes false heap).1;
  manager = init_manager config;
  seq_tracker = warm_start new_tracker (Persist.load file);
  secondary_receiver = open_secondary config net;
}

handler-ready : init config sizes heap true file net ≡ InitResult.ready handler
unfolding init alloc allocate_shard allocate_shards allocate_memory receiver_open
handler-ready = refl

abbrev subsystems : Subsystems
subsystems = record {
  manager = handler.manager;
  seq_tracker = handler.seq_tracker;
  sym_dir = directory;
  bbo_pub = record { slots = λ i. no_bbo; capacity = 100 };
  router = router;
  eod_calls = [];
}

abbrev today : Session
today = record no_session { c0 = 50; c9 = 49 }

on_system_event-init_example :
    let after = on_system_event subsystems b'C' (some today) in
    (subsystems.seq_tracker.seq ≡ (Persist.load file).seq)
    × (after.seq_tracker.seq ≡ 0)
    × (after.router ≡ (broadcast subsystems.router reset_message).1)
on_system_event-init_example =
    on_system_event-init config sizes heap true file net handler subsystems b'C' today handler-ready
      refl refl refl (λ e. absurd (omega arith))
