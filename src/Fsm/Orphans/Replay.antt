-- ===== src/Fsm/Orphans/Replay.antt =====
-- A partition whose leader is unknown keeps it.
use mathlib.Core.Path.{subst}
use mathlib.Core.Option
use aero_mq.Prelude.{
  ℕ, true, not, Option, none, some, List, All, Text, nat_key, text_key, ◌==◌, ◌≡◌, refl, sym, ap,
  ◌∙◌, Option-cases, Bool-cases, inl, inr, arith, nat_beq_iff, text_beq_iff,
}
use aero_mq.Prelude.Map.{lookup, lookup-insert}
use aero_mq.Json.{Json}
use aero_mq.Fsm.State.{PartitionState, ClusterState, Env}
use aero_mq.Fsm.State.Lookup.{find_in, find_partition}
use aero_mq.Fsm.Replication.{refresh_partition, update_isr_and_hw}
use aero_mq.Fsm.Brokers.{RegisterBrokerPayload, HeartbeatPayload, register_broker, broker_heartbeat}
use aero_mq.Fsm.Brokers.Liveness.{broker_heartbeat-brokers, broker_heartbeat-offsets}
use aero_mq.Fsm.Topics.{CreateTopicPayload, create_topic}
use aero_mq.Fsm.Topics.Creation.{find_partition-create_topic, create_topic_existing}
use aero_mq.Fsm.Groups.{join_consumer_group}
use aero_mq.Fsm.Offsets.{commit_offset}
use aero_mq.Fsm.Apply.{Op, register, heartbeat, create, assign, join, commit, clean, skip, execute}
use aero_mq.Fsm.Replay.{replay}
use aero_mq.Fsm.Replay.Induction.{Leaves, entry_passes, replay_passing_inv}
use aero_mq.Fsm.WellFormed.{IsBroker}
use aero_mq.Prelude.Entries.{IsMap, insert-IsMap, map-eq-some}
use aero_mq.Fsm.Orphans.{leader_in, spares, IsOrphan}
use aero_mq.Fsm.Orphans.Failover.{heartbeat-named, clean_inactive-IsOrphan}

module _ (t : Text) (p id : ℕ) where
  register_broker-IsOrphan :
      (env : Env) (payload : RegisterBrokerPayload) (s : ClusterState)
      → not (payload.id == id) ≡ true
      → IsOrphan t p id s
      → IsOrphan t p id (register_broker env payload s)
  unfolding register_broker
  register_broker-IsOrphan env payload s d w = record {
    named = insert-IsMap payload.id _ s.brokers refl w.named;
    gone =
        lookup-insert payload.id id _ s.brokers
        ∙ ground (arith, d, w.gone, nat_beq_iff id payload.id, nat_beq_iff payload.id id);
    led = w.led;
  }

  -- A partition that is led is there.
  led-found :
      (s : ClusterState)
      → leader_in t p s ≡ some id
      → (ps : PartitionState) × (find_partition t p s.topics ≡ some ps) × (ps.leader_id ≡ id)
  led-found s h = map-eq-some (λ ps. ps.leader_id) (find_partition t p s.topics) h

  broker_heartbeat-IsOrphan :
      (env : Env) (payload : HeartbeatPayload) (s : ClusterState)
      → IsOrphan t p id s
      → IsOrphan t p id (broker_heartbeat env payload s)
  broker_heartbeat-IsOrphan env payload s w =
      let (ps, found, lead) = led-found s w.led in
      let (qs, kept, same, _, _) = broker_heartbeat-offsets env payload s t p ps found in
      record {
        named = heartbeat-named env payload s w.named;
        gone = broker_heartbeat-brokers env payload s id ∙ ground (arith, w.gone);
        led = ap (Option.map (λ x. x.leader_id)) kept ∙ ap some (same ∙ lead);
      }

  create_topic-leader :
      (env : Env) (payload : CreateTopicPayload) (s : ClusterState)
      → lookup payload.name s.topics ≡ none
      → leader_in t p s ≡ some id
      → leader_in t p (create_topic env payload s) ≡ some id
  unfolding refresh_partition
  create_topic-leader env payload s e h =
      let (ps, found, lead) = led-found s h in
      elim (Bool-cases (t == payload.name)) [
        | inl y ↦ cc (
            sym found
            ∙ ap (λ x. find_in p (lookup x s.topics)) ((text_beq_iff t payload.name).0 y)
            ∙ ap (find_in p) e)
        | inr n ↦ rw (find_partition-create_topic env payload s t p e, n, found) (ap some lead)
      ]

  create_topic-brokers :
      (env : Env) (payload : CreateTopicPayload) (s : ClusterState)
      → lookup payload.name s.topics ≡ none
      → (create_topic env payload s).brokers ≡ s.brokers
  unfolding create_topic update_isr_and_hw
  create_topic-brokers env payload s e = rw (e, create_topic) refl

  create_topic-IsOrphan :
      (env : Env) (payload : CreateTopicPayload) (s : ClusterState)
      → IsOrphan t p id s
      → IsOrphan t p id (create_topic env payload s)
  create_topic-IsOrphan env payload s w = elim (Option-cases (lookup payload.name s.topics)) [
    | inr (old, e) ↦ subst (IsOrphan t p id) (sym (create_topic_existing env payload s old e)) w
    | inl e ↦
        let same = create_topic-brokers env payload s e in
        record {
          named = subst (IsMap IsBroker) (sym same) w.named;
          gone = ap (lookup id) same ∙ w.gone;
          led = create_topic-leader env payload s e w.led;
        }
  ]

  execute-IsOrphan :
      (env : Env) (op : Op) (s : ClusterState)
      → spares id op ≡ true
      → IsOrphan t p id s
      → Leaves (IsOrphan t p id) (execute env op s)
  unfolding execute join_consumer_group commit_offset
  execute-IsOrphan env (register x) s h w = register_broker-IsOrphan env x s h w
  execute-IsOrphan env (heartbeat x) s h w = broker_heartbeat-IsOrphan env x s w
  execute-IsOrphan env (create x) s h w = create_topic-IsOrphan env x s w
  execute-IsOrphan env (assign x) s h w = cc h
  execute-IsOrphan env (join x) s h w = record { named = w.named; gone = w.gone; led = w.led }
  execute-IsOrphan env (commit x) s h w = record { named = w.named; gone = w.gone; led = w.led }
  execute-IsOrphan env clean s h w = clean_inactive-IsOrphan t p id env s w
  execute-IsOrphan env skip s h w = w

-- A partition that an unknown broker leads, such as one of a topic created while no broker was
-- active, which is led by 0, keeps that leader for good: no log of entries gives it another, through
-- whatever brokers come, report and fail, unless an entry registers a broker of just that id or
-- assigns partitions.
pub replay-IsOrphan :
    (log : List (Env × Option Json)) (s s' : ClusterState) (t : Text) (p id : ℕ)
    → All (λ e. entry_passes (spares id) e.1 ≡ true) log
    → IsOrphan t p id s
    → replay log s ≡ some s'
    → IsOrphan t p id s'
replay-IsOrphan log s s' t p id =
    replay_passing_inv (IsOrphan t p id) (spares id) (execute-IsOrphan t p id) log s s'
