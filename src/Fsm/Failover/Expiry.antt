-- ===== src/Fsm/Failover/Expiry.antt =====
-- Which brokers `clean_inactive` marks.
use mathlib.Core.Option
use aero_mq.Prelude.{
  ℕ, true, ◌≡◌, refl, ap, ◌⊎◌, inl, inr, none, some, List, [], ◌∷◌, arith, contains, ◌==◌, nat_key,
  nat_beq_iff, text_key, Option, if◌then◌else◌, Option-cases,
}
use aero_mq.Prelude.Map.{Map, lookup, keys, adjust, lookup-adjust, contains_of_lookup}
use aero_mq.Prelude.Range.{arrange}
use aero_mq.Prelude.Arranged.{keys-arrange, contains-arrange}
use aero_mq.Fsm.State.{BrokerStatus, ClusterState, Env}
use aero_mq.Fsm.Replication.{update_isr_and_hw}
use aero_mq.Fsm.Failover.{
  get_active_broker_ids, reelect_all, handle_broker_failure, is_expired, deactivate, sweep_broker,
  sweep, clean_inactive,
}

pub reelect_all-brokers :
    (failed : ℕ) (ids : List ℕ) (s : ClusterState) → (reelect_all failed ids s).brokers ≡ s.brokers
unfolding reelect_all
reelect_all-brokers failed [] s = refl
reelect_all-brokers failed (k ∷ ks) s = refl

-- A broker whose lease has run out, marked as such.
abbrev pub expire : ℕ → BrokerStatus → BrokerStatus
expire now b = if is_expired now b then deactivate b else b

pub sweep_broker-brokers :
    (env : Env) (k j : ℕ) (s : ClusterState)
    → lookup j (sweep_broker env k s).brokers
      ≡ (if j == k then Option.map (expire env.now) (lookup j s.brokers) else lookup j s.brokers)
unfolding sweep_broker handle_broker_failure
sweep_broker-brokers env k j s = elim (Option-cases (lookup k s.brokers)) [
  | inl e ↦ ground (arith, e, nat_beq_iff j k)
  | inr (b, e) ↦
      let s1 : ClusterState = record s { brokers = adjust k deactivate s.brokers } in
      ground (
        arith,
        e,
        nat_beq_iff j k,
        lookup-adjust k j deactivate s.brokers,
        reelect_all-brokers b.id (get_active_broker_ids (env.failover_orders b.id) s1) s1,
      )
]

expire_twice : (now : ℕ) (b : BrokerStatus) → expire now (expire now b) ≡ expire now b
unfolding is_expired
expire_twice now b = ground arith

map-expire_twice :
    (now : ℕ) (o : Option BrokerStatus)
    → Option.map (expire now) (Option.map (expire now) o) ≡ Option.map (expire now) o
map-expire_twice now none = refl
map-expire_twice now (some b) = ap some (expire_twice now b)

sweep-brokers :
    (env : Env) (ks : List ℕ) (j : ℕ) (s : ClusterState)
    → lookup j (sweep env ks s).brokers ≡ (
        if contains j ks
        then Option.map (expire env.now) (lookup j s.brokers)
        else lookup j s.brokers)
unfolding sweep
sweep-brokers env [] j s = refl
sweep-brokers env (k ∷ ks) j s = ground (
  arith,
  sweep-brokers env ks j (sweep_broker env k s),
  sweep_broker-brokers env k j s,
  map-expire_twice env.now (lookup j s.brokers),
)

update_isr_and_hw-brokers :
    (now : ℕ) (s : ClusterState) → (update_isr_and_hw now s).brokers ≡ s.brokers
unfolding update_isr_and_hw
update_isr_and_hw-brokers now s = refl

contains_of_lookup_any :
    (j : ℕ) (m : Map ℕ BrokerStatus) → (lookup j m ≡ none) ⊎ (contains j (keys m) ≡ true)
contains_of_lookup_any j m = elim (Option-cases (lookup j m)) [
  | inl e ↦ inl e
  | inr (b, e) ↦ inr (contains_of_lookup j m e)
]

-- `clean_inactive` marks as inactive exactly the brokers that were active and whose last sign of
-- life is more than 8 seconds old; every other broker stays as it is, and the order of the
-- sweep makes no difference to the brokers.
pub clean_inactive-brokers :
    (env : Env) (j : ℕ) (s : ClusterState)
    → lookup j (clean_inactive env s).brokers ≡ Option.map (expire env.now) (lookup j s.brokers)
unfolding clean_inactive update_isr_and_hw
clean_inactive-brokers env j s = ground (
  arith,
  sweep-brokers env (keys (arrange env.sweep_order s.brokers)) j s,
  ap (contains j) (keys-arrange env.sweep_order s.brokers),
  contains-arrange j env.sweep_order (keys s.brokers),
  contains_of_lookup_any j s.brokers,
)
