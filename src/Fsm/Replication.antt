-- ===== src/Fsm/Replication.antt =====
-- `updateISRAndHW` of fsm.go: the in-sync replicas of each partition and its high watermark.
-- Each partition is refreshed from its own fields and the brokers, so the order of the two outer
-- loops does not show.
pub mod Isr
pub mod Watermark
pub mod Progress
use aero_mq.Prelude.{
  ℕ, Bool, true, false, not, ◌&&◌, ◌||◌, Option, none, some, List, [], ◌∷◌, leb, ltb, ◌==◌, nat_key,
  text_key, if◌then◌else◌,
}
use aero_mq.Prelude.Int.{ℤ, pos, sub64, leb_ℤ, ltb_ℤ}
use aero_mq.Prelude.Map.{Map, lookup, map_entries}
use aero_mq.Fsm.State.{
  BrokerStatus, PartitionState, each_partition, ClusterState, made, lease, elapsed,
}

-- `exists && b.Active && now.Sub(b.LastSeen) <= 8*time.Second`
unfoldable pub is_live : ℕ → Map ℕ BrokerStatus → ℕ → Bool
is_live now brokers id = elim (lookup id brokers) [
  | none ↦ false
  | some b ↦ b.active && leb (elapsed now b.last_seen) lease
]

-- `!exists || !b.Active || now.Sub(b.LastSeen) > 8*time.Second`
unfoldable pub is_down : ℕ → Map ℕ BrokerStatus → ℕ → Bool
is_down now brokers id = elim (lookup id brokers) [
  | none ↦ true
  | some b ↦ not b.active || ltb lease (elapsed now b.last_seen)
]

-- `m[id]`, 0 for a missing key
unfoldable pub offset_of : Map ℕ ℤ → ℕ → ℤ
offset_of m id = elim (lookup id m) [ none ↦ pos 0 | some v ↦ v ]

abbrev pub max_lag : ℤ
max_lag = pos 10

-- The loop over `partition.ReplicaIDs`.
unfoldable pub isr_followers : ℕ → Map ℕ BrokerStatus → Map ℕ ℤ → ℕ → List ℕ → List ℕ
isr_followers now brokers m leader [] = []
isr_followers now brokers m leader (r ∷ rs) =
    let rest = isr_followers now brokers m leader rs in
    if r == leader
    then rest
    else if is_down now brokers r
    then rest
    else if leb_ℤ (sub64 (offset_of m leader) (offset_of m r)) max_lag
    then r ∷ rest
    else rest

unfoldable pub new_isr : ℕ → Map ℕ BrokerStatus → Map ℕ ℤ → PartitionState → List ℕ
unfolding isr_followers
new_isr now brokers m p =
    let followers = isr_followers now brokers m p.leader_id p.replica_ids in
    if is_live now brokers p.leader_id then p.leader_id ∷ followers else followers

-- The loop that keeps `minOffset`, after its first round.
unfoldable pub min_offset : Map ℕ ℤ → ℤ → List ℕ → ℤ
min_offset m least [] = least
min_offset m least (r ∷ rs) =
    min_offset m (if ltb_ℤ (offset_of m r) least then offset_of m r else least) rs

unfoldable pub watermark : Map ℕ ℤ → List ℕ → ℤ
unfolding min_offset
watermark m [] = pos 0
watermark m (r ∷ rs) = min_offset m (offset_of m r) rs

unfoldable pub refresh_partition : ℕ → Map ℕ BrokerStatus → PartitionState → PartitionState
refresh_partition now brokers p =
    let m = made p.replica_offsets in
    let isr = new_isr now brokers m p in
    record p { isr = isr; high_watermark = watermark m isr; replica_offsets = some m }

unfoldable pub update_isr_and_hw : ℕ → ClusterState → ClusterState
update_isr_and_hw now s = record s {
  topics = each_partition (refresh_partition now s.brokers) s.topics;
}
