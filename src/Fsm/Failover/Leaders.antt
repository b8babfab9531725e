-- ===== src/Fsm/Failover/Leaders.antt =====
-- Who leads after `handleBrokerFailure`.
use mathlib.Core.Option
use aero_mq.Prelude.{
  ℕ, true, false, ◌≡◌, ◌≢◌, refl, ap, sym, ◌∙◌, ◌⊎◌, inl, some, List, [], ◌∷◌, arith, contains,
  Distinct, nat_key, nat_beq_iff, Text, text_key,
}
use aero_mq.Prelude.Map.{Map, keys}
use aero_mq.Prelude.Range.{Order, arrange}
use aero_mq.Prelude.Arranged.{keys-arrange, arrange-Distinct, lookup-arrange}
use aero_mq.Fsm.State.{BrokerStatus, PartitionState, TopicState, ClusterState}
use aero_mq.Fsm.State.Lookup.{find_partition, find_partition-each, find_partition-each_inv}
use aero_mq.Fsm.Failover.{
  active_ids, get_active_broker_ids, is_active, replica_leader, choose_leader, reelect, reelect_all,
  handle_broker_failure,
}

-- The replica chosen is 0, or a listed active broker other than the failed one.
pub replica_leader-cases :
    (failed : ℕ) (brokers : Map ℕ BrokerStatus) (rs : List ℕ)
    → let r = replica_leader failed brokers rs in
      (r ≡ 0) ⊎ ((contains r rs ≡ true) × (is_active brokers r ≡ true) × (r ≢ failed))
unfolding replica_leader
replica_leader-cases failed brokers [] = inl refl
replica_leader-cases failed brokers (r ∷ rs) =
    ground (arith, nat_beq_iff r failed, nat_beq_iff r r, replica_leader-cases failed brokers rs)

pub is_active-choose_leader :
    (failed fallback : ℕ) (brokers : Map ℕ BrokerStatus) (rs : List ℕ)
    → is_active brokers fallback ≡ true
    → is_active brokers (choose_leader failed brokers fallback rs) ≡ true
unfolding choose_leader
is_active-choose_leader failed fallback brokers rs h =
    ground (arith, replica_leader-cases failed brokers rs)

active_ids-mem :
    (m : Map ℕ BrokerStatus) (k : ℕ) → contains k (active_ids m) ≡ true → contains k (keys m) ≡ true
unfolding active_ids
active_ids-mem [] k h = h
active_ids-mem ((i, b) ∷ m) k h = ground (arith, active_ids-mem m k)

pub contains-active_ids :
    (m : Map ℕ BrokerStatus) (k : ℕ) → Distinct (keys m) → contains k (active_ids m) ≡ is_active m k
unfolding active_ids is_active
contains-active_ids [] k d = refl
contains-active_ids ((i, b) ∷ m) k d =
    ground (arith, nat_beq_iff k i, active_ids-mem m i, contains-active_ids m k d.1)

pub active_ids-Distinct : (m : Map ℕ BrokerStatus) → Distinct (keys m) → Distinct (active_ids m)
unfolding active_ids
active_ids-Distinct [] d = tt
active_ids-Distinct ((i, b) ∷ m) d = ground (arith, active_ids-mem m i, active_ids-Distinct m d.1)

-- `getActiveBrokerIDs` lists each active broker once, and no other, in whatever order.
pub contains-get_active_broker_ids :
    (o : Order) (s : ClusterState) (k : ℕ)
    → Distinct (keys s.brokers)
    → contains k (get_active_broker_ids o s) ≡ is_active s.brokers k
unfolding get_active_broker_ids is_active
contains-get_active_broker_ids o s k d =
    contains-active_ids (arrange o s.brokers) k
      (rw (keys-arrange o s.brokers) (arrange-Distinct o (keys s.brokers) d))
    ∙ rw (lookup-arrange k o s.brokers d, is_active)

pub get_active_broker_ids-Distinct :
    (o : Order) (s : ClusterState)
    → Distinct (keys s.brokers)
    → Distinct (get_active_broker_ids o s)
unfolding get_active_broker_ids
get_active_broker_ids-Distinct o s d =
    active_ids-Distinct (arrange o s.brokers)
      (rw (keys-arrange o s.brokers) (arrange-Distinct o (keys s.brokers) d))

-- Every partition has an active leader.
abbrev pub IsLed : Map ℕ BrokerStatus → Map Text TopicState → Type 0
IsLed brokers topics =
    (t : Text) (p : ℕ) (ps : PartitionState)
    → find_partition t p topics ≡ some ps
    → is_active brokers ps.leader_id ≡ true

abbrev pub NoneActive : Map ℕ BrokerStatus → Type 0
NoneActive brokers = (k : ℕ) → is_active brokers k ≡ false

reelect-IsLed :
    (failed fallback : ℕ) (brokers : Map ℕ BrokerStatus) (ps : PartitionState)
    → is_active brokers fallback ≡ true
    → (ps.leader_id ≢ failed → is_active brokers ps.leader_id ≡ true)
    → is_active brokers (reelect failed brokers fallback ps).leader_id ≡ true
unfolding reelect
reelect-IsLed failed fallback brokers ps h k = ground (
  arith,
  nat_beq_iff ps.leader_id failed,
  is_active-choose_leader failed fallback brokers ps.replica_ids,
)

pub reelect_all-IsLed :
    (failed : ℕ) (ids : List ℕ) (s : ClusterState) (t : Text) (p : ℕ) (ps : PartitionState)
    → ids ≢ []
    → ((k : ℕ) → contains k ids ≡ true → is_active s.brokers k ≡ true)
    → ((q : PartitionState)
        → find_partition t p s.topics ≡ some q
        → q.leader_id ≢ failed
        → is_active s.brokers q.leader_id ≡ true)
    → find_partition t p (reelect_all failed ids s).topics ≡ some ps
    → is_active s.brokers ps.leader_id ≡ true
unfolding reelect_all
reelect_all-IsLed failed [] s t p ps ne mem others h = absurd (ne refl)
reelect_all-IsLed failed (k ∷ ks) s t p ps ne mem others h =
    let (q, e, r) = find_partition-each_inv (reelect failed s.brokers k) t p s.topics h in
    rw (← r)
      (reelect-IsLed failed k s.brokers q (mem k (ground (arith, nat_beq_iff k k))) (others q e))

pub head_active :
    (o : Order) (s : ClusterState)
    → Distinct (keys s.brokers)
    → (k : ℕ) → contains k (get_active_broker_ids o s) ≡ true
    → is_active s.brokers k ≡ true
head_active o s d k h = sym (contains-get_active_broker_ids o s k d) ∙ h

reelect_all-leaders :
    (failed : ℕ) (ids : List ℕ) (s : ClusterState) (t : Text) (p : ℕ) (ps : PartitionState)
    → ids ≢ []
    → ((k : ℕ) → contains k ids ≡ true → is_active s.brokers k ≡ true)
    → find_partition t p s.topics ≡ some ps
    → (qs : PartitionState) × (find_partition t p (reelect_all failed ids s).topics ≡ some qs)
      × (ps.leader_id ≡ failed → is_active s.brokers qs.leader_id ≡ true)
      × (ps.leader_id ≢ failed → qs ≡ ps)
unfolding reelect_all reelect
reelect_all-leaders failed [] s t p ps ne mem h = absurd (ne refl)
reelect_all-leaders failed (k ∷ ks) s t p ps ne mem h = (
  reelect failed s.brokers k ps,
  find_partition-each (reelect failed s.brokers k) t p s.topics
      ∙ ap (Option.map (reelect failed s.brokers k)) h,
  (λ e. ground (
    arith,
    nat_beq_iff ps.leader_id failed,
    nat_beq_iff k k,
    mem k,
    is_active-choose_leader failed k s.brokers ps.replica_ids,
  )),
  (λ e. ground (arith, nat_beq_iff ps.leader_id failed)),
)

-- While some broker is active, `handleBrokerFailure` gives each partition that the failed broker
-- led an active leader and leaves every other partition as it was, whatever the order in which
-- the active brokers are listed.
pub handle_broker_failure-leaders :
    (o : Order) (failed : ℕ) (s : ClusterState) (t : Text) (p : ℕ) (ps : PartitionState)
    → Distinct (keys s.brokers)
    → get_active_broker_ids o s ≢ []
    → find_partition t p s.topics ≡ some ps
    → (qs : PartitionState) × (find_partition t p (handle_broker_failure o failed s).topics
        ≡ some qs)
      × (ps.leader_id ≡ failed → is_active s.brokers qs.leader_id ≡ true)
      × (ps.leader_id ≢ failed → qs ≡ ps)
unfolding handle_broker_failure
handle_broker_failure-leaders o failed s t p ps d ne h =
    reelect_all-leaders failed (get_active_broker_ids o s) s t p ps ne (head_active o s d) h

replica_leader-replica :
    (failed r : ℕ) (brokers : Map ℕ BrokerStatus) (rs : List ℕ)
    → contains r rs ≡ true
    → is_active brokers r ≡ true
    → r ≢ failed
    → contains 0 rs ≡ false
    → replica_leader failed brokers rs ≢ 0
unfolding replica_leader
replica_leader-replica failed r brokers [] h a ne z = ground arith
replica_leader-replica failed r brokers (x ∷ rs) h a ne z = ground (
  arith,
  nat_beq_iff r x,
  nat_beq_iff x failed,
  nat_beq_iff 0 x,
  replica_leader-replica failed r brokers rs,
)

-- If a partition has an active replica other than the failed broker, and none of its replicas is
-- broker 0, the leader chosen is one of its replicas, active, and not the failed broker.
pub choose_leader-replica :
    (failed fallback r : ℕ) (brokers : Map ℕ BrokerStatus) (rs : List ℕ)
    → contains r rs ≡ true
    → is_active brokers r ≡ true
    → r ≢ failed
    → contains 0 rs ≡ false
    → let leader = choose_leader failed brokers fallback rs in
      (contains leader rs ≡ true) × (is_active brokers leader ≡ true) × (leader ≢ failed)
unfolding choose_leader
choose_leader-replica failed fallback r brokers rs h a ne z = ground (
  arith,
  nat_beq_iff (replica_leader failed brokers rs) 0,
  replica_leader-cases failed brokers rs,
  replica_leader-replica failed r brokers rs,
)
