-- ===== src/Fsm/Failover/Sweep.antt =====
-- What `clean_inactive` does to the brokers and to the leaders.
use mathlib.Core.Option
use aero_mq.Prelude.{
  ℕ, true, ◌≡◌, ◌≢◌, refl, ap, sym, ◌∙◌, ◌⊎◌, inl, inr, not, ◌&&◌, none, some, List, [], ◌∷◌, arith,
  contains, Distinct, ◌==◌, nat_key, nat_beq_iff, Text, text_key, Option, Bool-cases, Option-cases,
}
use aero_mq.Prelude.Map.{Map, lookup, keys, adjust, lookup-adjust, keys-adjust}
use aero_mq.Prelude.Range.{Order, arrange}
use aero_mq.Fsm.State.{BrokerStatus, PartitionState, ClusterState, Env}
use aero_mq.Fsm.State.Lookup.{find_partition, find_partition-each_inv}
use aero_mq.Fsm.Replication.{refresh_partition, update_isr_and_hw}
use aero_mq.Fsm.Failover.{
  get_active_broker_ids, is_active, handle_broker_failure, is_expired, deactivate, sweep_broker,
  sweep, clean_inactive,
}
use aero_mq.Fsm.Failover.Leaders.{
  IsLed, NoneActive, contains-get_active_broker_ids, reelect_all-IsLed, head_active,
}
use aero_mq.Fsm.Failover.Expiry.{reelect_all-brokers, expire, sweep_broker-brokers}

-- What a sweep needs and keeps: each broker is stored once, under its own id, and either no broker
-- is active or every partition has an active leader.
pub record Sound (s : ClusterState) : Type 0 where
  pub distinct : Distinct (keys s.brokers)
  pub keyed : (k : ℕ) (b : BrokerStatus) → lookup k s.brokers ≡ some b → b.id ≡ k
  pub led : NoneActive s.brokers ⊎ IsLed s.brokers s.topics

pub deactivated :
    (k j : ℕ) (brokers : Map ℕ BrokerStatus)
    → is_active (adjust k deactivate brokers) j ≡ (is_active brokers j && not (j == k))
unfolding is_active
deactivated k j brokers = ground (arith, nat_beq_iff j k, lookup-adjust k j deactivate brokers)

NoneActive-of_nil :
    (o : Order) (s : ClusterState)
    → Distinct (keys s.brokers)
    → get_active_broker_ids o s ≡ []
    → NoneActive s.brokers
NoneActive-of_nil o s d e = λ k. sym (contains-get_active_broker_ids o s k d) ∙ ap (contains k) e

ids-cases : (ids : List ℕ) → (ids ≡ []) ⊎ (ids ≢ [])
ids-cases [] = inl refl
ids-cases (k ∷ ks) = inr (λ e. cc)

expired_active :
    (k : ℕ) (b : BrokerStatus) (brokers : Map ℕ BrokerStatus) (now : ℕ)
    → lookup k brokers ≡ some b
    → is_expired now b ≡ true
    → is_active brokers k ≡ true
unfolding is_active is_expired
expired_active k b brokers now e x = ground arith

-- One failure, after the broker has been marked.
failure-IsLed :
    (o : Order) (k : ℕ) (s : ClusterState)
    → Distinct (keys s.brokers)
    → ((t : Text) (p : ℕ) (ps : PartitionState)
        → find_partition t p s.topics ≡ some ps
        → ps.leader_id ≢ k
        → is_active s.brokers ps.leader_id ≡ true)
    → let s' = handle_broker_failure o k s in NoneActive s'.brokers ⊎ IsLed s'.brokers s'.topics
unfolding handle_broker_failure
failure-IsLed o k s d others = elim (ids-cases (get_active_broker_ids o s)) [
  | inl e ↦
      rw (reelect_all-brokers k (get_active_broker_ids o s) s) (inl (NoneActive-of_nil o s d e))
  | inr ne ↦ rw (reelect_all-brokers k (get_active_broker_ids o s) s) (
      inr λ t p ps h.
        reelect_all-IsLed k (get_active_broker_ids o s) s t p ps ne (head_active o s d) (others t p)
          h)
]

-- The leaders of the other partitions were active, and still are.
others-IsLed :
    (k : ℕ) (s : ClusterState)
    → Sound s
    → is_active s.brokers k ≡ true
    → (t : Text) (p : ℕ) (ps : PartitionState) → find_partition t p s.topics ≡ some ps
    → ps.leader_id ≢ k
    → is_active (adjust k deactivate s.brokers) ps.leader_id ≡ true
others-IsLed k s v a t p ps h ne = elim v.led [
  | inl n ↦ cc (n k)
  | inr l ↦
      ground (arith, deactivated k ps.leader_id s.brokers, l t p ps h, nat_beq_iff ps.leader_id k)
]

sweep_broker-IsLed :
    (env : Env) (k : ℕ) (s : ClusterState)
    → Sound s
    → let s' = sweep_broker env k s in NoneActive s'.brokers ⊎ IsLed s'.brokers s'.topics
unfolding sweep_broker
sweep_broker-IsLed env k s v = elim (Option-cases (lookup k s.brokers)) [
  | inl e ↦ rw (e, sweep_broker) v.led
  | inr (b, e) ↦
      rw (e, sweep_broker)
        (elim (Bool-cases (is_expired env.now b)) [
          | inl x ↦
              rw (x, v.keyed k b e)
                (failure-IsLed (env.failover_orders k) k
                  (record s { brokers = adjust k deactivate s.brokers })
                  (rw (keys-adjust k deactivate s.brokers) v.distinct)
                  (others-IsLed k s v (expired_active k b s.brokers env.now e x)))
          | inr x ↦ rw x v.led
        ])
]

keys-sweep_broker :
    (env : Env) (k : ℕ) (s : ClusterState) → keys (sweep_broker env k s).brokers ≡ keys s.brokers
unfolding sweep_broker handle_broker_failure
keys-sweep_broker env k s = elim (Option-cases (lookup k s.brokers)) [
  | inl e ↦ ground (arith, e)
  | inr (b, e) ↦
      let s1 : ClusterState = record s { brokers = adjust k deactivate s.brokers } in
      ground (
        arith,
        e,
        keys-adjust k deactivate s.brokers,
        reelect_all-brokers b.id (get_active_broker_ids (env.failover_orders b.id) s1) s1,
      )
]

expired_id :
    (now : ℕ) (o : Option BrokerStatus) (b : BrokerStatus)
    → Option.map (expire now) o ≡ some b
    → (old : BrokerStatus) × (o ≡ some old) × (old.id ≡ b.id)
expired_id now none b h = cc
expired_id now (some old) b h = (old, refl, ground arith)

sweep_broker-keyed :
    (env : Env) (k j : ℕ) (b : BrokerStatus) (s : ClusterState)
    → Sound s
    → lookup j (sweep_broker env k s).brokers ≡ some b
    → b.id ≡ j
sweep_broker-keyed env k j b s v h = elim (Bool-cases (j == k)) [
  | inl y ↦
      let (old, e, i) =
        expired_id env.now (lookup j s.brokers) b
          (ground (arith, h, sweep_broker-brokers env k j s, y)) in
      ground (arith, v.keyed j old e, i)
  | inr n ↦ v.keyed j b (ground (arith, h, sweep_broker-brokers env k j s, n))
]

pub sweep_broker-Sound :
    (env : Env) (k : ℕ) (s : ClusterState) → Sound s → Sound (sweep_broker env k s)
sweep_broker-Sound env k s v = record {
  distinct = rw (keys-sweep_broker env k s) v.distinct;
  keyed = λ j b h. sweep_broker-keyed env k j b s v h;
  led = sweep_broker-IsLed env k s v;
}

sweep-Sound : (env : Env) (ks : List ℕ) (s : ClusterState) → Sound s → Sound (sweep env ks s)
unfolding sweep
sweep-Sound env [] s v = v
sweep-Sound env (k ∷ ks) s v =
    sweep-Sound env ks (sweep_broker env k s) (sweep_broker-Sound env k s v)

refreshed-IsLed :
    (now : ℕ) (s : ClusterState)
    → IsLed s.brokers s.topics
    → IsLed s.brokers (update_isr_and_hw now s).topics
unfolding update_isr_and_hw refresh_partition
refreshed-IsLed now s l t p ps h =
    let (old, e, r) = find_partition-each_inv (refresh_partition now s.brokers) t p s.topics h in
    rw (← r) (l t p old e)

-- A refresh changes no broker and no leader.
pub update_isr_and_hw-Sound :
    (now : ℕ) (s : ClusterState) → Sound s → Sound (update_isr_and_hw now s)
unfolding update_isr_and_hw
update_isr_and_hw-Sound now s v = record {
  distinct = v.distinct;
  keyed = v.keyed;
  led = elim v.led [ inl n ↦ inl n | inr l ↦ inr (refreshed-IsLed now s l) ];
}

-- From a state where each broker is stored once, under its own id, and where no broker is active or
-- every partition has an active leader, `clean_inactive` reaches such a state again: however many
-- brokers have run out and in whatever order they are visited, afterwards either no broker is
-- active or every partition has an active leader.
pub clean_inactive-Sound : (env : Env) (s : ClusterState) → Sound s → Sound (clean_inactive env s)
unfolding clean_inactive
clean_inactive-Sound env s v =
    update_isr_and_hw-Sound env.later _
      (sweep-Sound env (keys (arrange env.sweep_order s.brokers)) s v)
