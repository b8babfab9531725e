-- ===== src/Tests/Failover.antt =====
-- Tests of Fsm/Failover.
use mathlib.Core.Option
use aero_mq.Prelude.{ℕ, ◌≡◌, ◌≢◌, refl, true, some, [], ◌∷◌, contains, nat_key, arith, inr}
use aero_mq.Prelude.Map.{lookup}
use aero_mq.Fsm.State.{BrokerStatus, PartitionState, ClusterState}
use aero_mq.Fsm.State.Lookup.{find_partition}
use aero_mq.Prelude.Range.{arrange}
use aero_mq.Fsm.Replication.{update_isr_and_hw, refresh_partition}
use aero_mq.Fsm.Failover.{
  sweep_broker, is_expired, reelect, is_active, choose_leader, handle_broker_failure,
  get_active_broker_ids, deactivate, clean_inactive,
}
use aero_mq.Fsm.Failover.Leaders.{IsLed, handle_broker_failure-leaders, choose_leader-replica}
use aero_mq.Fsm.Failover.Expiry.{expire, clean_inactive-brokers}
use aero_mq.Fsm.Failover.Zero.{handle_broker_failure-zero}
use aero_mq.Fsm.Failover.Sweep.{Sound, clean_inactive-Sound}
use aero_mq.Tests.Samples.{seconds, broker, cluster, orders_topic, partition_0, at}

-- Broker 1 has been marked.
abbrev one_down : ClusterState
one_down = record cluster {
  brokers = (1, deactivate (broker 1 0)) ∷ (2, broker 2 (seconds 5)) ∷ [];
}

handle_broker_failure-leaders_example :
    (qs : PartitionState) × (find_partition orders_topic 0
        (handle_broker_failure [] 1 one_down).topics
      ≡ some qs)
    × (partition_0.leader_id ≡ 1 → is_active one_down.brokers qs.leader_id ≡ true)
    × (partition_0.leader_id ≢ 1 → qs ≡ partition_0)
unfolding get_active_broker_ids arrange
handle_broker_failure-leaders_example =
    handle_broker_failure-leaders [] 1 one_down orders_topic 0 partition_0 (refl, (refl, tt))
      (λ e. cc) refl

choose_leader-replica_example :
    let leader = choose_leader 1 one_down.brokers 2 (1 ∷ 2 ∷ []) in
    (contains leader (1 ∷ 2 ∷ []) ≡ true)
    × (is_active one_down.brokers leader ≡ true)
    × (leader ≢ 1)
unfolding is_active
choose_leader-replica_example =
    choose_leader-replica 1 2 2 one_down.brokers (1 ∷ 2 ∷ []) refl refl (omega arith) refl

-- Brokers 0, 5 and 7, of which 5 has been marked before and 1 has failed; 7 is a replica too.
abbrev zero_next : ClusterState
zero_next = record cluster {
  brokers = (9, broker 9 0) ∷ (0, broker 0 0) ∷ (5, deactivate (broker 5 0)) ∷ (7, broker 7 0) ∷ [];
  topics =
      (
        orders_topic,
        record {
          name = orders_topic;
          partitions = (0, record partition_0 { replica_ids = 1 ∷ 5 ∷ 0 ∷ 7 ∷ [] }) ∷ [];
        },
      )
      ∷ [];
}

handle_broker_failure-zero_example :
    find_partition orders_topic 0 (handle_broker_failure [] 1 zero_next).topics
    ≡ some (record partition_0 { leader_id = 9; replica_ids = 1 ∷ 5 ∷ 0 ∷ 7 ∷ [] })
unfolding get_active_broker_ids arrange is_active
handle_broker_failure-zero_example =
    handle_broker_failure-zero [] 1 9 (0 ∷ 7 ∷ []) (1 ∷ 5 ∷ []) (7 ∷ []) zero_next orders_topic 0
      (record partition_0 { replica_ids = 1 ∷ 5 ∷ 0 ∷ 7 ∷ [] }) refl refl refl refl
      (refl, (refl, tt)) refl (omega arith)

clean_inactive-brokers_example :
    lookup 1 (clean_inactive (at (seconds 9)) cluster).brokers
    ≡ Option.map (expire (seconds 9)) (lookup 1 cluster.brokers)
clean_inactive-brokers_example = clean_inactive-brokers (at (seconds 9)) 1 cluster

cluster-keyed : (k : ℕ) (b : BrokerStatus) → lookup k cluster.brokers ≡ some b → b.id ≡ k
cluster-keyed k b h = ground arith

cluster-IsLed : IsLed cluster.brokers cluster.topics
unfolding is_active
cluster-IsLed t p ps h = ground arith

pub cluster-Sound : Sound cluster
cluster-Sound = record {
  distinct = (refl, (refl, tt));
  keyed = cluster-keyed;
  led = inr cluster-IsLed;
}

clean_inactive-Sound_example : Sound (clean_inactive (at (seconds 9)) cluster)
clean_inactive-Sound_example = clean_inactive-Sound (at (seconds 9)) cluster cluster-Sound

-- Broker 2 takes over.
new_leader :
    Option.map
      (λ p. p.leader_id)
      (find_partition orders_topic 0 (clean_inactive (at (seconds 9)) cluster).topics)
    ≡ some 2
unfolding clean_inactive update_isr_and_hw arrange sweep_broker is_expired handle_broker_failure
    get_active_broker_ids refresh_partition reelect choose_leader is_active
new_leader = refl
