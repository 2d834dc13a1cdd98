-- ===== src/Assembly/Limits.antt =====
-- src/app/feed_handler.cpp, `load_config`: every member stays within its type, and there is one core for
-- each shard.
use native.Mathlib.Nat.{one-le-pow}
use mathlib.Core.Option.{some-injective, some-ne-none}
use itch_feed_handler.Common.{
  ℕ, suc, ◌^◌, ◌<◌, ◌≡◌, arith, refl, ap, ◌∙◌, Option, none, some, List, [], ◌∷◌, length,
  Option-cases, inl, inr, sym, subst,
}
use itch_feed_handler.Types.{num_shards}
use itch_feed_handler.Snapshots.Names.{Text}
use itch_feed_handler.Assembly.Config.{
  FeedHandlerConfig, default_config, Toml, or_else, narrow, with_section, read_network, read_cores,
  read_array, read_threads, read_monitoring, read_recovery, read_session, read_persistence,
  read_sharding, read_config, load_config,
}

abbrev Below : ℕ → List ℕ → Type 0
Below n [] = Unit
Below n (x ∷ xs) = (x < n) × Below n xs

module _ {Real : Type 0} (c : FeedHandlerConfig Real) where
  abbrev NetworkFits : Type 0
  NetworkFits = (c.port < 2 ^ 16) × (c.port_secondary < 2 ^ 16) × (c.failover_timeout_ms < 2 ^ 64)

  abbrev ThreadsFit : Type 0
  ThreadsFit =
      (c.receiver_core < 2 ^ 32)
      × (c.parser_core < 2 ^ 32)
      × (c.recovery_core < 2 ^ 32)
      × (c.merger_core < 2 ^ 32)
      × Below (2 ^ 32) c.shard_cores
      × (length c.shard_cores ≡ num_shards)

  abbrev RecoveryFits : Type 0
  RecoveryFits =
      (c.gap_timeout_ms < 2 ^ 64)
      × (c.snapshot_interval_sec < 2 ^ 32)
      × (c.retransmit_port < 2 ^ 16)
      × (c.retransmit_port_secondary < 2 ^ 16)

  pub record IsConfig : Type 0 where
    pub network : NetworkFits
    pub threads : ThreadsFit
    pub monitoring : c.report_interval_sec < 2 ^ 32
    pub recovery : RecoveryFits

or_else-narrow : (w : ℕ) (v : Option ℕ) (d : ℕ) → d < 2 ^ w → or_else (narrow w v) d < 2 ^ w
or_else-narrow w none d h = h
or_else-narrow w (some x) d h = ground (arith, one-le-pow w 2 (omega arith))

module _ {Node Real : Type 0} (toml : Toml Node Real) where
  read_cores-Below :
      (nodes : List Node) (cores : List ℕ)
      → Below (2 ^ 32) cores
      → Below (2 ^ 32) (read_cores toml nodes cores)
        × (length (read_cores toml nodes cores) ≡ length cores)
  unfolding read_cores
  read_cores-Below nodes [] h = (tt, refl)
  read_cores-Below [] (c ∷ cores) h = (h, refl)
  read_cores-Below (n ∷ nodes) (c ∷ cores) h =
      let (rest, same) = read_cores-Below nodes cores h.1 in
      ((or_else-narrow 32 (toml.int64 n) c h.0, rest), ap suc same)

  read_array-Below :
      (nodes : Option (List Node)) (cores : List ℕ)
      → Below (2 ^ 32) cores
      → Below (2 ^ 32) (read_array toml nodes cores)
        × (length (read_array toml nodes cores) ≡ length cores)
  read_array-Below none cores h = (h, refl)
  read_array-Below (some nodes) cores h = read_cores-Below nodes cores h

  read_network-IsConfig :
      (t : Node) (c : FeedHandlerConfig Real) → IsConfig c → IsConfig (read_network toml t c)
  unfolding read_network
  read_network-IsConfig t c v = record {
    network = (
      or_else-narrow 16 _ c.port v.network.0,
      or_else-narrow 16 _ c.port_secondary v.network.1,
      or_else-narrow 64 _ c.failover_timeout_ms v.network.2,
    );
    threads = v.threads;
    monitoring = v.monitoring;
    recovery = v.recovery;
  }

  read_threads-IsConfig :
      (t : Node) (c : FeedHandlerConfig Real) → IsConfig c → IsConfig (read_threads toml t c)
  unfolding read_threads
  read_threads-IsConfig t c v =
      let (receiver, parser, recovery, merger, below, same) = v.threads in
      let (kept, long) = read_array-Below _ c.shard_cores below in
      record {
        network = v.network;
        threads = (
          or_else-narrow 32 _ c.receiver_core receiver,
          or_else-narrow 32 _ c.parser_core parser,
          or_else-narrow 32 _ c.recovery_core recovery,
          or_else-narrow 32 _ c.merger_core merger,
          kept,
          long ∙ same,
        );
        monitoring = v.monitoring;
        recovery = v.recovery;
      }

  read_monitoring-IsConfig :
      (t : Node) (c : FeedHandlerConfig Real) → IsConfig c → IsConfig (read_monitoring toml t c)
  unfolding read_monitoring
  read_monitoring-IsConfig t c v = record {
    network = v.network;
    threads = v.threads;
    monitoring = or_else-narrow 32 _ c.report_interval_sec v.monitoring;
    recovery = v.recovery;
  }

  read_recovery-IsConfig :
      (t : Node) (c : FeedHandlerConfig Real) → IsConfig c → IsConfig (read_recovery toml t c)
  unfolding read_recovery
  read_recovery-IsConfig t c v = record {
    network = v.network;
    threads = v.threads;
    monitoring = v.monitoring;
    recovery = (
      or_else-narrow 64 _ c.gap_timeout_ms v.recovery.0,
      or_else-narrow 32 _ c.snapshot_interval_sec v.recovery.1,
      or_else-narrow 16 _ c.retransmit_port v.recovery.2,
      or_else-narrow 16 _ c.retransmit_port_secondary v.recovery.3,
    );
  }

  -- The other sections hold nothing with a limit.
  read_session-IsConfig :
      (t : Node) (c : FeedHandlerConfig Real) → IsConfig c → IsConfig (read_session toml t c)
  unfolding read_session
  read_session-IsConfig t c v = record {
    network = v.network;
    threads = v.threads;
    monitoring = v.monitoring;
    recovery = v.recovery;
  }

  read_persistence-IsConfig :
      (t : Node) (c : FeedHandlerConfig Real) → IsConfig c → IsConfig (read_persistence toml t c)
  unfolding read_persistence
  read_persistence-IsConfig t c v = record {
    network = v.network;
    threads = v.threads;
    monitoring = v.monitoring;
    recovery = v.recovery;
  }

  read_sharding-IsConfig :
      (t : Node) (c : FeedHandlerConfig Real) → IsConfig c → IsConfig (read_sharding toml t c)
  unfolding read_sharding
  read_sharding-IsConfig t c v = record {
    network = v.network;
    threads = v.threads;
    monitoring = v.monitoring;
    recovery = v.recovery;
  }

  with_section-IsConfig :
      (s : Option Node) (read : Node → FeedHandlerConfig Real → FeedHandlerConfig Real)
      (c : FeedHandlerConfig Real)
      → ((t : Node) (d : FeedHandlerConfig Real) → IsConfig d → IsConfig (read t d))
      → IsConfig c
      → IsConfig (with_section s read c)
  with_section-IsConfig none read c step v = v
  with_section-IsConfig (some t) read c step v = step t c v

  read_config-IsConfig :
      (tbl : Node) (c : FeedHandlerConfig Real) → IsConfig c → IsConfig (read_config toml tbl c)
  unfolding read_config
  read_config-IsConfig tbl c v =
      with_section-IsConfig _ (read_sharding toml) _ read_sharding-IsConfig (
        with_section-IsConfig _ (read_persistence toml) _ read_persistence-IsConfig (
          with_section-IsConfig _ (read_session toml) _ read_session-IsConfig (
            with_section-IsConfig _ (read_recovery toml) _ read_recovery-IsConfig (
              with_section-IsConfig _ (read_monitoring toml) _ read_monitoring-IsConfig (
                with_section-IsConfig _ (read_threads toml) _ read_threads-IsConfig
                  (with_section-IsConfig _ (read_network toml) c read_network-IsConfig v))))))

  default-IsConfig : (threshold : Real) → IsConfig (default_config threshold)
  default-IsConfig threshold = record {
    network = ground arith;
    threads = ground arith;
    monitoring = omega arith;
    recovery = ground arith;
  }

  -- Whatever a document holds, a configuration that is loaded has its ports below 2^16, its times and
  -- cores within their types, and eight shard cores.
  load_config-IsConfig :
      (threshold : Real) (path : Text) (c : FeedHandlerConfig Real)
      → load_config toml threshold path ≡ some c
      → IsConfig c
  unfolding load_config
  load_config-IsConfig threshold path c h = elim (Option-cases (toml.parse path)) [
    | inl e ↦ absurd (some-ne-none _ (sym h ∙ rw (load_config, e) refl))
    | inr (tbl, e) ↦
        subst IsConfig (some-injective _ _ (sym (rw (load_config, e) refl) ∙ h))
          (read_config-IsConfig tbl (default_config threshold) (default-IsConfig threshold))
  ]
