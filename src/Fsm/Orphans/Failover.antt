-- ===== src/Fsm/Orphans/Failover.antt =====
-- Failover leaves a partition whose leader is unknown alone.
use mathlib.Core.Option
use aero_mq.Prelude.{
  ℕ, none, some, List, [], ◌∷◌, Text, nat_key, text_key, ◌≡◌, ◌≢◌, sym, ap, ◌∙◌, Option-cases,
  Bool-cases, inl, inr, arith, nat_beq_iff, some_inj,
}
use aero_mq.Prelude.Map.{Map, lookup, adjust, keys, lookup-adjust}
use aero_mq.Prelude.Range.{arrange}
use aero_mq.Fsm.State.{BrokerStatus, PartitionState, TopicState, ClusterState, Env, each_partition}
use aero_mq.Fsm.State.Lookup.{find_partition, find_partition-each}
use aero_mq.Fsm.Replication.{refresh_partition, update_isr_and_hw}
use aero_mq.Fsm.Failover.{
  reelect, reelect_all, handle_broker_failure, deactivate, is_expired, sweep_broker, sweep,
  clean_inactive,
}
use aero_mq.Fsm.Brokers.{seen, HeartbeatPayload, broker_heartbeat}
use aero_mq.Fsm.WellFormed.{IsBroker}
use aero_mq.Prelude.Entries.{IsMap, adjust-IsMap}
use aero_mq.Fsm.Orphans.{IsOrphan}

leader-each :
    (t : Text) (p id : ℕ) (f : PartitionState → PartitionState) (topics : Map Text TopicState)
    → ((ps : PartitionState) → ps.leader_id ≡ id → (f ps).leader_id ≡ id)
    → Option.map (λ ps. ps.leader_id) (find_partition t p topics) ≡ some id
    → Option.map (λ ps. ps.leader_id) (find_partition t p (each_partition f topics)) ≡ some id
leader-each t p id f topics k h = elim (Option-cases (find_partition t p topics)) [
  | inl e ↦ cc (e, h)
  | inr (ps, e) ↦
      ap (Option.map (λ ps. ps.leader_id)) (find_partition-each f t p topics ∙ ap (Option.map f) e)
      ∙ ap some (k ps (some_inj (sym (ap (Option.map (λ ps. ps.leader_id)) e) ∙ h)))
]

reelect-other :
    (failed fallback id : ℕ) (brokers : Map ℕ BrokerStatus) (ps : PartitionState)
    → id ≢ failed
    → ps.leader_id ≡ id
    → (reelect failed brokers fallback ps).leader_id ≡ id
unfolding reelect
reelect-other failed fallback id brokers ps d h =
    ground (arith, d, h, nat_beq_iff ps.leader_id failed)

pub heartbeat-named :
    (env : Env) (payload : HeartbeatPayload) (s : ClusterState)
    → IsMap IsBroker s.brokers
    → IsMap IsBroker (broker_heartbeat env payload s).brokers
unfolding broker_heartbeat update_isr_and_hw
heartbeat-named env payload s w = adjust-IsMap payload.id (seen env.now) s.brokers (λ b h. h) w

module _ (t : Text) (p id : ℕ) where
  update-IsOrphan :
      (now : ℕ) (s : ClusterState) → IsOrphan t p id s → IsOrphan t p id (update_isr_and_hw now s)
  unfolding update_isr_and_hw refresh_partition
  update-IsOrphan now s w = record {
    named = w.named;
    gone = w.gone;
    led = leader-each t p id (refresh_partition now s.brokers) s.topics (λ ps h. h) w.led;
  }

  reelect_all-IsOrphan :
      (failed : ℕ) (ids : List ℕ) (s : ClusterState)
      → id ≢ failed
      → IsOrphan t p id s
      → IsOrphan t p id (reelect_all failed ids s)
  unfolding reelect_all
  reelect_all-IsOrphan failed [] s d w = w
  reelect_all-IsOrphan failed (fallback ∷ ids) s d w = record {
    named = w.named;
    gone = w.gone;
    led =
        leader-each t p id (reelect failed s.brokers fallback) s.topics
          (λ ps. reelect-other failed fallback id s.brokers ps d) w.led;
  }

  adjust-gone :
      (k : ℕ) (f : BrokerStatus → BrokerStatus) (m : Map ℕ BrokerStatus)
      → lookup id m ≡ none
      → lookup id (adjust k f m) ≡ none
  adjust-gone k f m h = lookup-adjust k id f m ∙ ground (arith, h)

  deactivate-IsOrphan :
      (k : ℕ) (s : ClusterState)
      → IsOrphan t p id s
      → IsOrphan t p id (record s { brokers = adjust k deactivate s.brokers })
  deactivate-IsOrphan k s w = record {
    named = adjust-IsMap k deactivate s.brokers (λ b h. h) w.named;
    gone = adjust-gone k deactivate s.brokers w.gone;
    led = w.led;
  }

  -- A broker that is known is not the one that is gone.
  known-differs :
      (s : ClusterState) (k : ℕ) (b : BrokerStatus)
      → IsOrphan t p id s
      → lookup k s.brokers ≡ some b
      → id ≢ b.id
  known-differs s k b w e d =
      cc (sym w.gone ∙ ap (λ x. lookup x s.brokers) (d ∙ w.named.each k b e) ∙ e)

  sweep_broker-IsOrphan :
      (env : Env) (k : ℕ) (s : ClusterState)
      → IsOrphan t p id s
      → IsOrphan t p id (sweep_broker env k s)
  unfolding sweep_broker handle_broker_failure
  sweep_broker-IsOrphan env k s w = elim (Option-cases (lookup k s.brokers)) [
    | inl e ↦ rw (e, sweep_broker) w
    | inr (b, e) ↦
        rw (e, sweep_broker)
          (elim (Bool-cases (is_expired env.now b)) [
            | inr x ↦ rw x w
            | inl x ↦ rw x (
                reelect_all-IsOrphan b.id _ _ (known-differs s k b w e) (deactivate-IsOrphan k s w))
          ])
  ]

  sweep-IsOrphan :
      (env : Env) (ks : List ℕ) (s : ClusterState)
      → IsOrphan t p id s
      → IsOrphan t p id (sweep env ks s)
  unfolding sweep
  sweep-IsOrphan env [] s w = w
  sweep-IsOrphan env (k ∷ ks) s w =
      sweep-IsOrphan env ks (sweep_broker env k s) (sweep_broker-IsOrphan env k s w)

  pub clean_inactive-IsOrphan :
      (env : Env) (s : ClusterState) → IsOrphan t p id s → IsOrphan t p id (clean_inactive env s)
  unfolding clean_inactive
  clean_inactive-IsOrphan env s w =
      update-IsOrphan env.later _
        (sweep-IsOrphan env (keys (arrange env.sweep_order s.brokers)) s w)
