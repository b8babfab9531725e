-- ===== src/Fsm/Failover.antt =====
-- `getActiveBrokerIDs`, `handleBrokerFailure` and the `clean_inactive` command of fsm.go.
pub mod Leaders
pub mod Zero
pub mod Expiry
pub mod Sweep
pub mod Promotion
use aero_mq.Prelude.{
  ℕ, Bool, true, false, not, ◌&&◌, Option, none, some, List, [], ◌∷◌, map, ltb, ◌==◌, nat_key,
  text_key, if◌then◌else◌,
}
use aero_mq.Prelude.Map.{Map, lookup, adjust, keys, map_entries}
use aero_mq.Prelude.Range.{Order, arrange}
use aero_mq.Fsm.State.{
  BrokerStatus, PartitionState, each_partition, ClusterState, Env, lease, elapsed,
}
use aero_mq.Fsm.Replication.{update_isr_and_hw}

-- The loop of `getActiveBrokerIDs`.
unfoldable pub active_ids : Map ℕ BrokerStatus → List ℕ
active_ids [] = []
active_ids ((id, b) ∷ rest) = if b.active then id ∷ active_ids rest else active_ids rest

unfoldable pub get_active_broker_ids : Order → ClusterState → List ℕ
unfolding active_ids
get_active_broker_ids o s = active_ids (arrange o s.brokers)

-- `b, exists := f.state.Brokers[id]; exists && b.Active`
unfoldable pub is_active : Map ℕ BrokerStatus → ℕ → Bool
is_active brokers id = elim (lookup id brokers) [ none ↦ false | some b ↦ b.active ]

-- The loop that sets `newLeader`; it stays 0 if no replica will do.
unfoldable pub replica_leader : ℕ → Map ℕ BrokerStatus → List ℕ → ℕ
replica_leader failed brokers [] = 0
replica_leader failed brokers (r ∷ rs) =
    let rest = replica_leader failed brokers rs in
    if not (r == failed) then (if is_active brokers r then r else rest) else rest

unfoldable pub choose_leader : ℕ → Map ℕ BrokerStatus → ℕ → List ℕ → ℕ
unfolding replica_leader
choose_leader failed brokers fallback replicas =
    let leader = replica_leader failed brokers replicas in if leader == 0 then fallback else leader

unfoldable pub reelect : ℕ → Map ℕ BrokerStatus → ℕ → PartitionState → PartitionState
reelect failed brokers fallback p =
    if p.leader_id == failed
    then record p { leader_id = choose_leader failed brokers fallback p.replica_ids }
    else p

-- With no active broker nothing is done.
unfoldable pub reelect_all : ℕ → List ℕ → ClusterState → ClusterState
reelect_all failed [] s = s
reelect_all failed (fallback ∷ _) s = record s {
  topics = each_partition (reelect failed s.brokers fallback) s.topics;
}

unfoldable pub handle_broker_failure : Order → ℕ → ClusterState → ClusterState
unfolding reelect_all
handle_broker_failure o failed s = reelect_all failed (get_active_broker_ids o s) s

-- `broker.Active && now.Sub(broker.LastSeen) > 8*time.Second`
unfoldable pub is_expired : ℕ → BrokerStatus → Bool
is_expired now b = b.active && ltb lease (elapsed now b.last_seen)

abbrev pub deactivate : BrokerStatus → BrokerStatus
deactivate b = record b { active = false }

-- One round of the loop over the brokers. The loop's variable is a pointer into the map.
unfoldable pub sweep_broker : Env → ℕ → ClusterState → ClusterState
sweep_broker env k s = elim (lookup k s.brokers) [
  | none ↦ s
  | some b ↦
      if is_expired env.now b
      then handle_broker_failure (env.failover_orders b.id) b.id
          (record s { brokers = adjust k deactivate s.brokers })
      else s
]

unfoldable pub sweep : Env → List ℕ → ClusterState → ClusterState
sweep env [] s = s
sweep env (k ∷ ks) s = sweep env ks (sweep_broker env k s)

unfoldable pub clean_inactive : Env → ClusterState → ClusterState
unfolding sweep
clean_inactive env s =
    update_isr_and_hw env.later (sweep env (keys (arrange env.sweep_order s.brokers)) s)
