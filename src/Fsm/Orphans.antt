-- ===== src/Fsm/Orphans.antt =====
-- A partition whose leader is no broker that the cluster knows.
pub mod Failover
pub mod Replay
use mathlib.Core.Path.{subst}
use mathlib.Core.Option
use aero_mq.Prelude.{
  ℕ, Bool, true, false, not, Option, none, some, List, [], ◌∷◌, All, Text, nat_key, text_key, ◌==◌,
  ◌≡◌, ◌≢◌, refl, sym, ap, ◌∙◌, Option-cases, Bool-cases, inl, inr, arith, nat_beq_iff,
  text_beq_iff, some_inj,
}
use aero_mq.Prelude.Map.{Map, lookup, adjust, keys, lookup-insert, lookup-adjust}
use aero_mq.Prelude.Range.{arrange}
use aero_mq.Json.{Json}
use aero_mq.Fsm.State.{BrokerStatus, PartitionState, TopicState, ClusterState, Env, each_partition}
use aero_mq.Fsm.State.Lookup.{find_in, find_partition, find_partition-each}
use aero_mq.Fsm.Replication.{refresh_partition, update_isr_and_hw}
use aero_mq.Fsm.Failover.{
  reelect, reelect_all, handle_broker_failure, deactivate, is_expired, sweep_broker, sweep,
  clean_inactive,
}
use aero_mq.Fsm.Brokers.{
  RegisterBrokerPayload, seen, HeartbeatPayload, register_broker, broker_heartbeat,
}
use aero_mq.Fsm.Brokers.Liveness.{broker_heartbeat-brokers, broker_heartbeat-offsets}
use aero_mq.Fsm.Topics.{CreateTopicPayload, create_topic}
use aero_mq.Fsm.Topics.Creation.{find_partition-create_topic, create_topic_existing}
use aero_mq.Fsm.Groups.{join_consumer_group}
use aero_mq.Fsm.Offsets.{commit_offset}
use aero_mq.Fsm.Apply.{Op, register, heartbeat, create, assign, join, commit, clean, skip, execute}
use aero_mq.Fsm.Replay.{replay}
use aero_mq.Fsm.Replay.Induction.{Leaves, entry_passes, replay_passing_inv}
use aero_mq.Fsm.WellFormed.{IsBroker}
use aero_mq.Prelude.Entries.{IsMap, insert-IsMap, adjust-IsMap, map-eq-some}

-- The leader that the state has for a partition.
abbrev pub leader_in : Text → ℕ → ClusterState → Option ℕ
leader_in t p s = Option.map (λ ps. ps.leader_id) (find_partition t p s.topics)

-- Registers no broker `id`, and assigns no partitions.
abbrev pub spares : ℕ → Op → Bool
spares id (register payload) = not (payload.id == id)
spares id (assign payload) = false
spares id _ = true

-- Every broker is stored under its own id, the broker `id` is unknown, and it leads the partition.
pub record IsOrphan (t : Text) (p id : ℕ) (s : ClusterState) : Type 0 where
  pub named : IsMap IsBroker s.brokers
  pub gone : lookup id s.brokers ≡ none
  pub led : leader_in t p s ≡ some id
