-- ===== src/Fsm/Lasting.antt =====
-- A topic that is there stays there.
use mathlib.Core.Path.{subst}
use mathlib.Core.Option
use aero_mq.Prelude.{
  ℕ, Bool-cases, Option-cases, inl, inr, true, Option, none, some, List, [], ◌∷◌, ◌≡◌, refl, ap,
  ◌∙◌, Text, text_key, nat_key, text_beq_iff, arith,
}
use aero_mq.Prelude.Map.{
  Map, lookup, insert, adjust, keys, lookup-insert, lookup-adjust, lookup-map_entries,
}
use aero_mq.Prelude.Range.{arrange}
use aero_mq.Json.{Json}
use aero_mq.Fsm.State.{PartitionState, TopicState, ClusterState, Env, each_partition, over_topic}
use aero_mq.Fsm.Replication.{update_isr_and_hw, refresh_partition}
use aero_mq.Fsm.Topics.{
  CreateTopicPayload, create_topic, assign_all, AssignPartitionsPayload, assign_partitions,
}
use aero_mq.Fsm.Brokers.{
  ReplicaOffset, HeartbeatPayload, report, adjust_partition, report_offsets, broker_heartbeat,
  register_broker,
}
use aero_mq.Fsm.Groups.{join_consumer_group}
use aero_mq.Fsm.Offsets.{commit_offset}
use aero_mq.Fsm.Failover.{
  is_expired, reelect, reelect_all, handle_broker_failure, get_active_broker_ids, sweep_broker,
  sweep, clean_inactive, deactivate,
}
use aero_mq.Fsm.Apply.{
  Op, register, heartbeat, create, assign, join, commit, clean, skip, execute, or_panic,
}
use aero_mq.Fsm.Known.{is_some}
use aero_mq.Fsm.Replay.{replay}
use aero_mq.Fsm.Replay.Induction.{Leaves, replay_inv}

abbrev pub HasTopic : Text → ClusterState → Type 0
HasTopic t s = is_some (lookup t s.topics) ≡ true

is_some-map : {A B : Type 0} (f : A → B) (o : Option A) → is_some (Option.map f o) ≡ is_some o
is_some-map f none = refl
is_some-map f (some a) = refl

lookup-each_partition :
    (t : Text) (f : PartitionState → PartitionState) (m : Map Text TopicState)
    → is_some (lookup t (each_partition f m)) ≡ is_some (lookup t m)
lookup-each_partition t f m =
    ap is_some (lookup-map_entries (λ _ x. over_topic f x) t m)
    ∙ is_some-map (over_topic f) (lookup t m)

lookup-adjusted :
    (t u : Text) (f : TopicState → TopicState) (m : Map Text TopicState)
    → is_some (lookup t (adjust u f m)) ≡ is_some (lookup t m)
lookup-adjusted t u f m =
    ap is_some (lookup-adjust u t f m) ∙ ground (arith, is_some-map f (lookup t m))

insert-HasTopic :
    (t u : Text) (v : TopicState) (m : Map Text TopicState)
    → is_some (lookup t m) ≡ true
    → is_some (lookup t (insert u v m)) ≡ true
insert-HasTopic t u v m h = ground (arith, h, lookup-insert u t v m)

insert-HasTopic_key :
    (t : Text) (v : TopicState) (m : Map Text TopicState) → is_some (lookup t (insert t v m)) ≡ true
insert-HasTopic_key t v m = ground (arith, text_beq_iff t t, lookup-insert t t v m)

refreshed-HasTopic :
    (t : Text) (now : ℕ) (s : ClusterState) → HasTopic t s → HasTopic t (update_isr_and_hw now s)
unfolding update_isr_and_hw
refreshed-HasTopic t now s h =
    lookup-each_partition t (refresh_partition now s.brokers) s.topics ∙ h

lookup-report_offsets :
    (t : Text) (id : ℕ) (ros : List ReplicaOffset) (m : Map Text TopicState)
    → is_some (lookup t (report_offsets id ros m)) ≡ is_some (lookup t m)
unfolding report_offsets
lookup-report_offsets t id [] m = refl
lookup-report_offsets t id (ro ∷ ros) m =
    lookup-report_offsets t id ros _
    ∙ lookup-adjusted t ro.topic (adjust_partition ro.partition (report id ro.offset)) m

heartbeat-HasTopic :
    (t : Text) (env : Env) (p : HeartbeatPayload) (s : ClusterState)
    → HasTopic t s
    → HasTopic t (broker_heartbeat env p s)
unfolding broker_heartbeat
heartbeat-HasTopic t env p s h =
    refreshed-HasTopic t env.later _ (lookup-report_offsets t p.id p.replica_offsets s.topics ∙ h)

create-HasTopic :
    (t : Text) (env : Env) (p : CreateTopicPayload) (s : ClusterState)
    → HasTopic t s
    → HasTopic t (create_topic env p s)
unfolding create_topic
create-HasTopic t env p s h = elim (Option-cases (lookup p.name s.topics)) [
  | inr (u, e) ↦ rw (e, create_topic) h
  | inl e ↦
      rw (e, create_topic)
        (refreshed-HasTopic t env.later _ (insert-HasTopic t p.name _ s.topics h))
]

-- A topic is there once it has been created.
pub create-HasTopic_created :
    (env : Env) (p : CreateTopicPayload) (s : ClusterState) → HasTopic p.name (create_topic env p s)
unfolding create_topic
create-HasTopic_created env p s = elim (Option-cases (lookup p.name s.topics)) [
  | inr (u, e) ↦ rw (e, create_topic) (rw e refl)
  | inl e ↦
      rw (e, create_topic)
        (refreshed-HasTopic p.name env.later _ (insert-HasTopic_key p.name _ s.topics))
]

assign-HasTopic :
    (t : Text) (env : Env) (p : AssignPartitionsPayload) (s s' : ClusterState)
    → assign_partitions env p s ≡ some s'
    → HasTopic t s
    → HasTopic t s'
unfolding assign_partitions
assign-HasTopic t env p s s' k h = elim (Option-cases (lookup p.topic s.topics)) [
  | inl e ↦ subst (HasTopic t) {x = s} {y = s'} (ground (arith, e, k)) h
  | inr (u, e) ↦
      elim (Option-cases (assign_all (arrange env.payload_order p.partitions) u.partitions)) [
        | inl n ↦ absurd (ground (arith, e, n, k))
        | inr (m, n) ↦
            subst (HasTopic t)
              {x = update_isr_and_hw env.later
                (record s { topics = insert p.topic (record u { partitions = m }) s.topics })}
              {y = s'} (ground (arith, e, n, k))
              (refreshed-HasTopic t env.later
                (record s { topics = insert p.topic (record u { partitions = m }) s.topics })
                (insert-HasTopic t p.topic (record u { partitions = m }) s.topics h))
      ]
]

reelect_all-HasTopic :
    (t : Text) (failed : ℕ) (ids : List ℕ) (s : ClusterState)
    → HasTopic t s
    → HasTopic t (reelect_all failed ids s)
unfolding reelect_all
reelect_all-HasTopic t failed [] s h = h
reelect_all-HasTopic t failed (k ∷ ks) s h =
    lookup-each_partition t (reelect failed s.brokers k) s.topics ∙ h

sweep_broker-HasTopic :
    (t : Text) (env : Env) (k : ℕ) (s : ClusterState)
    → HasTopic t s
    → HasTopic t (sweep_broker env k s)
unfolding sweep_broker handle_broker_failure
sweep_broker-HasTopic t env k s h = elim (Option-cases (lookup k s.brokers)) [
  | inl e ↦ rw (e, sweep_broker) h
  | inr (b, e) ↦ elim (Bool-cases (is_expired env.now b)) [
    | inr n ↦ rw (e, n, sweep_broker) h
    | inl y ↦
        let marked : ClusterState = record s { brokers = adjust k deactivate s.brokers } in
        rw (e, y, sweep_broker)
          (reelect_all-HasTopic t b.id (get_active_broker_ids (env.failover_orders b.id) marked)
            marked h)
  ]
]

sweep-HasTopic :
    (t : Text) (env : Env) (ks : List ℕ) (s : ClusterState)
    → HasTopic t s
    → HasTopic t (sweep env ks s)
unfolding sweep
sweep-HasTopic t env [] s h = h
sweep-HasTopic t env (k ∷ ks) s h =
    sweep-HasTopic t env ks (sweep_broker env k s) (sweep_broker-HasTopic t env k s h)

clean_inactive-HasTopic :
    (t : Text) (env : Env) (s : ClusterState) → HasTopic t s → HasTopic t (clean_inactive env s)
unfolding clean_inactive
clean_inactive-HasTopic t env s h =
    refreshed-HasTopic t env.later _
      (sweep-HasTopic t env (keys (arrange env.sweep_order s.brokers)) s h)

execute-HasTopic :
    (t : Text) (env : Env) (op : Op) (s : ClusterState)
    → HasTopic t s
    → Leaves (HasTopic t) (execute env op s)
unfolding execute register_broker commit_offset join_consumer_group
execute-HasTopic t env (register p) s h = h
execute-HasTopic t env (heartbeat p) s h = heartbeat-HasTopic t env p s h
execute-HasTopic t env (create p) s h = create-HasTopic t env p s h
execute-HasTopic t env (assign p) s h = elim (Option-cases (assign_partitions env p s)) [
  | inl e ↦ rw (e, or_panic) tt
  | inr (s', e) ↦ rw (e, or_panic) (assign-HasTopic t env p s s' e h)
]
execute-HasTopic t env (join p) s h = h
execute-HasTopic t env (commit p) s h = h
execute-HasTopic t env clean s h = clean_inactive-HasTopic t env s h
execute-HasTopic t env skip s h = h

-- No log of entries removes a topic.
pub replay-HasTopic :
    (t : Text) (log : List (Env × Option Json)) (s s' : ClusterState)
    → HasTopic t s
    → replay log s ≡ some s'
    → HasTopic t s'
replay-HasTopic t =
    replay_inv (HasTopic t) (λ _. Unit) (λ _. tt) (λ env op s _ w. execute-HasTopic t env op s w)
