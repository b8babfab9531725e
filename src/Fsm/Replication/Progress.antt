-- ===== src/Fsm/Replication/Progress.antt =====
-- What makes the high watermark move up.
use aero_mq.Prelude.{
  ℕ, true, ◌≡◌, ◌∙◌, sym, inl, inr, List, [], ◌∷◌, arith, contains, ◌==◌, nat_key, nat_beq_iff,
  Bool-cases,
}
use aero_mq.Prelude.Int.{ℤ, ◌≤ℤ◌}
use aero_mq.Prelude.Map.{Map}
use aero_mq.Fsm.State.{BrokerStatus, PartitionState, made}
use aero_mq.Fsm.Replication.{is_live, offset_of, refresh_partition}
use aero_mq.Fsm.Replication.Isr.{in_reach, contains-isr}
use aero_mq.Fsm.Replication.Watermark.{IsMinimum, high_watermark-IsMinimum}

-- What every in-sync replica has reached, the least of their offsets has.
IsMinimum-reaches :
    (m : Map ℕ ℤ) (rs : List ℕ) (v n : ℤ) (l : ℕ)
    → IsMinimum m rs v
    → contains l rs ≡ true
    → ((r : ℕ) → contains r rs ≡ true → n ≤ℤ offset_of m r)
    → n ≤ℤ v
IsMinimum-reaches m [] v n l h c a = absurd (ground (arith, c))
IsMinimum-reaches m (r ∷ rs) v n l (_, (q, mem, e)) c a = rw (e) (a q mem)

-- Once a live leader has reported the offset `n`, and so has every live replica that is in reach of
-- it, the next refresh moves the high watermark of the partition to `n` or above. A replica that is
-- silent, or that is too far behind the leader, does not hold it back.
pub high_watermark-reaches :
    (now : ℕ) (brokers : Map ℕ BrokerStatus) (p : PartitionState) (n : ℤ)
    → is_live now brokers p.leader_id ≡ true
    → n ≤ℤ offset_of (made p.replica_offsets) p.leader_id
    → ((r : ℕ)
        → contains r p.replica_ids ≡ true
        → is_live now brokers r ≡ true
        → in_reach (made p.replica_offsets) p.leader_id r ≡ true
        → n ≤ℤ offset_of (made p.replica_offsets) r)
    → n ≤ℤ (refresh_partition now brokers p).high_watermark
unfolding refresh_partition
high_watermark-reaches now brokers p n live lead rest =
    let q = refresh_partition now brokers p in
    IsMinimum-reaches (made p.replica_offsets) q.isr q.high_watermark n p.leader_id
      (high_watermark-IsMinimum now brokers p)
      (contains-isr now brokers p p.leader_id
        ∙ ground (arith, live, nat_beq_iff p.leader_id p.leader_id))
      (λ r c.
        let e = sym (contains-isr now brokers p r) ∙ c in
        elim (Bool-cases (r == p.leader_id)) [
          | inl y ↦ rw ((nat_beq_iff r p.leader_id).0 y) lead
          | inr y ↦ rest r (ground (arith, e, y)) (ground (arith, e)) (ground (arith, e, y))
        ])
