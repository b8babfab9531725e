-- ===== src/Fsm/WellFormed/Topics.antt =====
-- The operations on brokers, topics and offsets keep the invariant.
use mathlib.Core.Path.{subst}
use aero_mq.Prelude.{
  ℕ, zero, suc, ◌≡◌, refl, none, some, Option, List, [], ◌∷◌, Text, nat_key, text_key, Distinct,
  arith, Option-cases, inl, inr,
}
use aero_mq.Prelude.Map.{Map, lookup, insert, keys, insert-Distinct, keys-map_entries, keys-adjust}
use aero_mq.Prelude.Range.{arrange}
use aero_mq.Prelude.Entries.{IsMap, insert-IsMap, adjust-IsMap, map_entries-IsMap}
use aero_mq.Fsm.State.{PartitionState, TopicState, ClusterState, Env, each_partition, over_topic}
use aero_mq.Fsm.Replication.{update_isr_and_hw, refresh_partition}
use aero_mq.Fsm.Failover.{get_active_broker_ids}
use aero_mq.Fsm.Topics.{
  CreateTopicPayload, create_topic, new_partition, new_partitions, AssignPartitionsPayload,
  assign_all, assign_partitions, with_offsets,
}
use aero_mq.Fsm.Offsets.{CommitOffsetPayload, commit_offset}
use aero_mq.Fsm.Brokers.{
  RegisterBrokerPayload, register_broker, HeartbeatPayload, ReplicaOffset, broker_heartbeat,
  report_offsets, report, seen, adjust_partition,
}
use aero_mq.Fsm.WellFormed.{IsTopic, IsWellFormed}

pub each_partition-IsMap :
    (f : PartitionState → PartitionState) (topics : Map Text TopicState)
    → IsMap IsTopic topics
    → IsMap IsTopic (each_partition f topics)
each_partition-IsMap f topics w =
    map_entries-IsMap (λ _ t. over_topic f t) topics
      (λ k t p. (p.0, rw (keys-map_entries (λ _ q. f q) t.partitions) p.1)) w

pub update_isr_and_hw-IsWellFormed :
    (now : ℕ) (s : ClusterState) → IsWellFormed s → IsWellFormed (update_isr_and_hw now s)
unfolding update_isr_and_hw
update_isr_and_hw-IsWellFormed now s w = record {
  brokers = w.brokers;
  topics = each_partition-IsMap (refresh_partition now s.brokers) s.topics w.topics;
  groups = w.groups;
  offsets = w.offsets;
}

pub register_broker-IsWellFormed :
    (env : Env) (payload : RegisterBrokerPayload) (s : ClusterState)
    → IsWellFormed s
    → IsWellFormed (register_broker env payload s)
unfolding register_broker
register_broker-IsWellFormed env payload s w = record {
  brokers = insert-IsMap payload.id _ s.brokers refl w.brokers;
  topics = w.topics;
  groups = w.groups;
  offsets = w.offsets;
}

report_offsets-IsMap :
    (id : ℕ) (ros : List ReplicaOffset) (topics : Map Text TopicState)
    → IsMap IsTopic topics
    → IsMap IsTopic (report_offsets id ros topics)
unfolding report_offsets
report_offsets-IsMap id [] topics w = w
report_offsets-IsMap id (ro ∷ rest) topics w = report_offsets-IsMap id rest _ (
    adjust-IsMap ro.topic (adjust_partition ro.partition (report id ro.offset)) topics
      (λ t p. (p.0, rw (keys-adjust ro.partition (report id ro.offset) t.partitions) p.1)) w)

pub broker_heartbeat-IsWellFormed :
    (env : Env) (payload : HeartbeatPayload) (s : ClusterState)
    → IsWellFormed s
    → IsWellFormed (broker_heartbeat env payload s)
unfolding broker_heartbeat
broker_heartbeat-IsWellFormed env payload s w = update_isr_and_hw-IsWellFormed env.later _ (record {
  brokers = adjust-IsMap payload.id (seen env.now) s.brokers (λ b p. p) w.brokers;
  topics = report_offsets-IsMap payload.id payload.replica_offsets s.topics w.topics;
  groups = w.groups;
  offsets = w.offsets;
})

new_partitions-Distinct :
    (ids : List ℕ) (factor rounds i : ℕ) (m : Map ℕ PartitionState)
    → Distinct (keys m)
    → Distinct (keys (new_partitions ids factor rounds i m))
unfolding new_partitions
new_partitions-Distinct ids factor zero i m d = d
new_partitions-Distinct ids factor (suc rounds) i m d =
    new_partitions-Distinct ids factor rounds (suc i) _
      (insert-Distinct i (new_partition ids factor i) m d)

pub create_topic-IsWellFormed :
    (env : Env) (payload : CreateTopicPayload) (s : ClusterState)
    → IsWellFormed s
    → IsWellFormed (create_topic env payload s)
unfolding create_topic
create_topic-IsWellFormed env payload s w = elim (Option-cases (lookup payload.name s.topics)) [
  | inr (t, e) ↦ rw (e, create_topic) w
  | inl e ↦
      rw (e, create_topic)
        (update_isr_and_hw-IsWellFormed env.later _ (record {
          brokers = w.brokers;
          topics =
              insert-IsMap payload.name _ s.topics
                (
                  refl,
                  new_partitions-Distinct (get_active_broker_ids env.active_order s)
                      payload.replication_factor payload.partitions 0 [] tt,
                )
                w.topics;
          groups = w.groups;
          offsets = w.offsets;
        }))
]

assign_all-Distinct :
    (ps : List (ℕ × Option PartitionState)) (m m' : Map ℕ PartitionState)
    → Distinct (keys m)
    → assign_all ps m ≡ some m'
    → Distinct (keys m')
unfolding assign_all
assign_all-Distinct [] m m' d h = ground arith
assign_all-Distinct ((id, none) ∷ rest) m m' d h = cc
assign_all-Distinct ((id, some p) ∷ rest) m m' d h =
    assign_all-Distinct rest _ m' (insert-Distinct id (with_offsets p) m d) h

pub commit_offset-IsWellFormed :
    (payload : CommitOffsetPayload) (s : ClusterState)
    → IsWellFormed s
    → IsWellFormed (commit_offset payload s)
unfolding commit_offset
commit_offset-IsWellFormed payload s w = record {
  brokers = w.brokers;
  topics = w.topics;
  groups = w.groups;
  offsets = insert-Distinct _ payload.offset s.offsets w.offsets;
}

assigned-IsWellFormed :
    (topic : Text) (t : TopicState) (m : Map ℕ PartitionState) (s : ClusterState)
    → t.name ≡ topic
    → Distinct (keys m)
    → IsWellFormed s
    → IsWellFormed (record s { topics = insert topic (record t { partitions = m }) s.topics })
assigned-IsWellFormed topic t m s n d w = record {
  brokers = w.brokers;
  topics = insert-IsMap topic (record t { partitions = m }) s.topics (n, d) w.topics;
  groups = w.groups;
  offsets = w.offsets;
}

-- A panic leaves no state.
assign_stops :
    (env : Env) (payload : AssignPartitionsPayload) (s s' : ClusterState) (t : TopicState)
    → lookup payload.topic s.topics ≡ some t
    → assign_all (arrange env.payload_order payload.partitions) t.partitions ≡ none
    → assign_partitions env payload s ≡ some s'
    → ⊥
unfolding assign_partitions
assign_stops env payload s s' t e p h = ground (arith, e, p, h)

pub assign_partitions-IsWellFormed :
    (env : Env) (payload : AssignPartitionsPayload) (s s' : ClusterState)
    → assign_partitions env payload s ≡ some s'
    → IsWellFormed s
    → IsWellFormed s'
unfolding assign_partitions
assign_partitions-IsWellFormed env payload s s' h w =
    elim (Option-cases (lookup payload.topic s.topics)) [
      | inl e ↦ subst IsWellFormed (ground (arith, e, h)) w
      | inr (t, e) ↦
          let ok : IsTopic payload.topic t = w.topics.each payload.topic t e in
          elim (Option-cases
            (assign_all (arrange env.payload_order payload.partitions) t.partitions)) [
              | inl p ↦ absurd (assign_stops env payload s s' t e p h)
              | inr (m, p) ↦ subst IsWellFormed (ground (arith, e, p, h)) (
                  update_isr_and_hw-IsWellFormed env.later _ (
                    assigned-IsWellFormed payload.topic t m s ok.0
                      (assign_all-Distinct (arrange env.payload_order payload.partitions)
                        t.partitions m ok.1 p)
                      w))
            ]
    ]
