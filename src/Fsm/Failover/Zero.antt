-- ===== src/Fsm/Failover/Zero.antt =====
-- Broker 0 as a replica that could take over: `handleBrokerFailure` reads 0 as no leader found.
use mathlib.Core.Option
use aero_mq.Prelude.{
  ℕ, true, not, ◌||◌, ◌==◌, ◌≡◌, ◌≢◌, ap, ◌∙◌, some, List, [], ◌∷◌, ◌++◌, All, arith, nat_key,
  nat_beq_iff, Text, text_key,
}
use aero_mq.Prelude.Map.{Map}
use aero_mq.Prelude.Range.{Order}
use aero_mq.Fsm.State.{BrokerStatus, PartitionState, ClusterState}
use aero_mq.Fsm.State.Lookup.{find_partition, find_partition-each}
use aero_mq.Fsm.Failover.{
  get_active_broker_ids, is_active, replica_leader, choose_leader, reelect, reelect_all,
  handle_broker_failure,
}

-- No broker of this list can take over: each has failed or is not active.
abbrev pub NoneUsable : ℕ → Map ℕ BrokerStatus → List ℕ → Type 0
NoneUsable failed brokers = All (λ r. (r == failed || not (is_active brokers r)) ≡ true)

replica_leader-zero :
    (failed : ℕ) (brokers : Map ℕ BrokerStatus) (before rs : List ℕ)
    → NoneUsable failed brokers before
    → is_active brokers 0 ≡ true
    → failed ≢ 0
    → replica_leader failed brokers (before ++ (0 ∷ rs)) ≡ 0
unfolding replica_leader
replica_leader-zero failed brokers [] rs u a ne = ground (arith, nat_beq_iff 0 failed)
replica_leader-zero failed brokers (r ∷ before) rs u a ne =
    ground (arith, u.0, replica_leader-zero failed brokers before rs u.1 a ne)

choose_leader-zero :
    (failed fallback : ℕ) (brokers : Map ℕ BrokerStatus) (before rs : List ℕ)
    → NoneUsable failed brokers before
    → is_active brokers 0 ≡ true
    → failed ≢ 0
    → choose_leader failed brokers fallback (before ++ (0 ∷ rs)) ≡ fallback
unfolding choose_leader
choose_leader-zero failed fallback brokers before rs u a ne =
    ground (arith, replica_leader-zero failed brokers before rs u a ne)

-- Broker 0 is passed over: a partition that the failed broker led, and whose first replica that is
-- active and has not failed is broker 0, is given to the first broker of the list of active ones,
-- whatever the replicas after broker 0 are, and although that broker need be no replica.
pub handle_broker_failure-zero :
    (o : Order) (failed fallback : ℕ) (others before rs : List ℕ) (s : ClusterState) (t : Text)
    (p : ℕ) (ps : PartitionState)
    → get_active_broker_ids o s ≡ fallback ∷ others
    → find_partition t p s.topics ≡ some ps
    → ps.leader_id ≡ failed
    → ps.replica_ids ≡ before ++ (0 ∷ rs)
    → NoneUsable failed s.brokers before
    → is_active s.brokers 0 ≡ true
    → failed ≢ 0
    → find_partition t p (handle_broker_failure o failed s).topics
      ≡ some (record ps { leader_id = fallback })
unfolding handle_broker_failure reelect_all reelect
handle_broker_failure-zero o failed fallback others before rs s t p ps ids found led replicas u a
      ne =
    let chosen : choose_leader failed s.brokers fallback ps.replica_ids ≡ fallback =
      rw replicas (choose_leader-zero failed fallback s.brokers before rs u a ne) in
    rw ids (
      find_partition-each (reelect failed s.brokers fallback) t p s.topics
      ∙ ap (Option.map (reelect failed s.brokers fallback)) found
      ∙ ground (arith, nat_beq_iff ps.leader_id failed, led, chosen))
