-- ===== src/Tests/Replication.antt =====
-- Tests of Fsm/Replication.
use aero_mq.Prelude.{
  ℕ, ◌+◌, ◌≤◌, ◌≡◌, refl, ◌⊎◌, ◌↔◌, true, [], ◌∷◌, arith, contains, nat_key, nat_beq_iff, ◌==◌,
  Bool-cases, inl, inr,
}
use aero_mq.Prelude.Int.{pos, sub64, ◌≤ℤ◌}
use aero_mq.Fsm.State.{made}
use aero_mq.Fsm.Replication.{is_live, refresh_partition, offset_of, new_isr, is_down, watermark}
use aero_mq.Fsm.Replication.Isr.{in_sync_iff}
use aero_mq.Fsm.Replication.Progress.{high_watermark-reaches}
use aero_mq.Fsm.Replication.Watermark.{IsMinimum, high_watermark-IsMinimum}
use aero_mq.Tests.Samples.{seconds, cluster, partition_0}

isr_at_6s : (refresh_partition (seconds 6) cluster.brokers partition_0).isr ≡ 1 ∷ 2 ∷ []
unfolding refresh_partition new_isr is_live is_down offset_of sub64
isr_at_6s = refl

watermark_at_6s :
    (refresh_partition (seconds 6) cluster.brokers partition_0).high_watermark ≡ pos 35
unfolding refresh_partition new_isr is_live is_down offset_of sub64 watermark
watermark_at_6s = refl

-- Broker 1, the leader, has run out.
isr_at_9s : (refresh_partition (seconds 9) cluster.brokers partition_0).isr ≡ 2 ∷ []
unfolding refresh_partition new_isr is_live is_down offset_of sub64
isr_at_9s = refl

in_sync_iff_example :
    (contains 2 (refresh_partition (seconds 6) cluster.brokers partition_0).isr ≡ true) ↔ (
      (is_live (seconds 6) cluster.brokers 2 ≡ true)
      × ((2 ≡ partition_0.leader_id)
          ⊎ ((contains 2 partition_0.replica_ids ≡ true) × (40 ≤ 35 + 10))))
unfolding offset_of
in_sync_iff_example =
    in_sync_iff (seconds 6) cluster.brokers partition_0 2 40 35 refl refl (omega arith)
      (omega arith)

high_watermark-IsMinimum_example :
    let q = refresh_partition (seconds 6) cluster.brokers partition_0 in
    IsMinimum (made q.replica_offsets) q.isr q.high_watermark
high_watermark-IsMinimum_example = high_watermark-IsMinimum (seconds 6) cluster.brokers partition_0

broker_1-is_live : is_live (seconds 6) cluster.brokers 1 ≡ true
unfolding is_live
broker_1-is_live = refl

one_reaches : pos 35 ≤ℤ offset_of (made partition_0.replica_offsets) 1
unfolding offset_of
one_reaches = omega arith

two_reaches : pos 35 ≤ℤ offset_of (made partition_0.replica_offsets) 2
unfolding offset_of
two_reaches = omega arith

-- Both replicas have come to 35.
replicas-reach :
    (r : ℕ)
    → contains r partition_0.replica_ids ≡ true
    → pos 35 ≤ℤ offset_of (made partition_0.replica_offsets) r
replicas-reach r c = elim (Bool-cases (r == 1)) [
  | inl y ↦ rw ((nat_beq_iff r 1).0 y) one_reaches
  | inr n ↦ elim (Bool-cases (r == 2)) [
    | inl y ↦ rw ((nat_beq_iff r 2).0 y) two_reaches
    | inr m ↦ absurd (cc (c, n, m))
  ]
]

high_watermark-reaches_example :
    pos 35 ≤ℤ (refresh_partition (seconds 6) cluster.brokers partition_0).high_watermark
high_watermark-reaches_example =
    high_watermark-reaches (seconds 6) cluster.brokers partition_0 (pos 35) broker_1-is_live
      one_reaches (λ r c _ _. replicas-reach r c)
