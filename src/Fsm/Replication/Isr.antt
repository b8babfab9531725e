-- ===== src/Fsm/Replication/Isr.antt =====
-- Who is in sync after `updateISRAndHW`.
use aero_mq.Prelude.{
  ℕ, ◌+◌, ◌≤◌, ◌<◌, Bool, true, ◌≡◌, refl, ◌↔◌, ◌⊎◌, ◌&&◌, ◌||◌, not, List, [], ◌∷◌, arith,
  contains, Distinct, ◌==◌, nat_key, nat_beq_iff,
}
use aero_mq.Prelude.Int.{ℤ, pos, sub64, sub64_exact, leb_ℤ, two63}
use aero_mq.Prelude.Map.{Map}
use aero_mq.Fsm.State.{BrokerStatus, PartitionState, made}
use aero_mq.Fsm.Replication.{
  is_live, is_down, offset_of, max_lag, isr_followers, new_isr, refresh_partition,
}

is_down-not :
    (now : ℕ) (brokers : Map ℕ BrokerStatus) (id : ℕ)
    → is_down now brokers id ≡ not (is_live now brokers id)
unfolding is_down is_live
is_down-not now brokers id = ground arith

-- Close enough to the leader.
abbrev pub in_reach : Map ℕ ℤ → ℕ → ℕ → Bool
in_reach m leader r = leb_ℤ (sub64 (offset_of m leader) (offset_of m r)) max_lag

module _ (now : ℕ) (brokers : Map ℕ BrokerStatus) (m : Map ℕ ℤ) where
  contains-isr_followers :
      (leader r : ℕ) (rs : List ℕ)
      → contains r (isr_followers now brokers m leader rs)
        ≡ (contains r rs && not (r == leader) && is_live now brokers r && in_reach m leader r)
  unfolding isr_followers
  contains-isr_followers leader r [] = refl
  contains-isr_followers leader r (x ∷ rs) =
      ground (arith, is_down-not now brokers x, contains-isr_followers leader r rs, nat_beq_iff r x)

-- A broker is in sync exactly when it is live and either leads the partition or is one of its
-- replicas and, by the int64 difference of their offsets, at most 10 behind the leader.
pub contains-isr :
    (now : ℕ) (brokers : Map ℕ BrokerStatus) (p : PartitionState) (r : ℕ)
    → let m = made p.replica_offsets in
      contains r (refresh_partition now brokers p).isr ≡ (
        is_live now brokers r
        && (r == p.leader_id || (contains r p.replica_ids && in_reach m p.leader_id r)))
unfolding refresh_partition new_isr
contains-isr now brokers p r = ground (
  arith,
  nat_beq_iff r p.leader_id,
  contains-isr_followers now brokers (made p.replica_offsets) p.leader_id r p.replica_ids,
)

-- For a leader and a replica whose offsets `a` and `b` are int64 values that are not negative, the
-- difference does not wrap: after a refresh the replica is in sync exactly when it is live and is
-- the leader, or is listed and has `a ≤ b + 10`.
pub in_sync_iff :
    (now : ℕ) (brokers : Map ℕ BrokerStatus) (p : PartitionState) (r a b : ℕ)
    → offset_of (made p.replica_offsets) p.leader_id ≡ pos a
    → offset_of (made p.replica_offsets) r ≡ pos b
    → a < two63
    → b < two63
    → (contains r (refresh_partition now brokers p).isr ≡ true) ↔ (
        (is_live now brokers r ≡ true)
        × ((r ≡ p.leader_id) ⊎ ((contains r p.replica_ids ≡ true) × (a ≤ b + 10))))
in_sync_iff now brokers p r a b ea eb ha hb =
    rw (contains-isr now brokers p r, ea, eb, sub64_exact a b ha hb)
      (ground (arith, nat_beq_iff r p.leader_id))

isr_followers-Distinct :
    (now : ℕ) (brokers : Map ℕ BrokerStatus) (m : Map ℕ ℤ) (leader : ℕ) (rs : List ℕ)
    → Distinct rs
    → Distinct (isr_followers now brokers m leader rs)
unfolding isr_followers
isr_followers-Distinct now brokers m leader [] h = tt
isr_followers-Distinct now brokers m leader (x ∷ rs) h = ground (
  arith,
  isr_followers-Distinct now brokers m leader rs h.1,
  contains-isr_followers now brokers m leader x rs,
)

-- A partition whose replicas are listed once each has no broker twice among its in-sync replicas.
pub isr-Distinct :
    (now : ℕ) (brokers : Map ℕ BrokerStatus) (p : PartitionState)
    → Distinct p.replica_ids
    → Distinct (refresh_partition now brokers p).isr
unfolding refresh_partition new_isr
isr-Distinct now brokers p h = ground (
  arith,
  nat_beq_iff p.leader_id p.leader_id,
  isr_followers-Distinct now brokers (made p.replica_offsets) p.leader_id p.replica_ids h,
  contains-isr_followers now brokers (made p.replica_offsets) p.leader_id p.leader_id p.replica_ids,
)
