-- ===== src/Fsm/Replication/Watermark.antt =====
-- The high watermark after `updateISRAndHW`.
use aero_mq.Prelude.{
  ℕ, true, ◌≡◌, refl, ◌⊎◌, ◌∙◌, if◌then◌else◌, inl, inr, List, [], ◌∷◌, arith, contains, nat_key,
  nat_beq_iff,
}
use aero_mq.Prelude.Int.{ℤ, pos, ltb_ℤ, ◌≤ℤ◌}
use aero_mq.Prelude.Map.{Map}
use aero_mq.Fsm.State.{BrokerStatus, PartitionState, made}
use aero_mq.Fsm.Replication.{offset_of, min_offset, watermark, new_isr, refresh_partition}

module _ (m : Map ℕ ℤ) where
  min_offset-le : (least : ℤ) (rs : List ℕ) → min_offset m least rs ≤ℤ least
  unfolding min_offset
  min_offset-le least [] = omega arith
  min_offset-le least (r ∷ rs) =
      ground (arith, min_offset-le (offset_of m r) rs, min_offset-le least rs)

  min_offset-le-offset :
      (least : ℤ) (rs : List ℕ) (q : ℕ)
      → contains q rs ≡ true
      → min_offset m least rs ≤ℤ offset_of m q
  unfolding min_offset
  min_offset-le-offset least [] q h = ground arith
  min_offset-le-offset least (r ∷ rs) q h = ground (
    arith,
    nat_beq_iff q r,
    min_offset-le (offset_of m r) rs,
    min_offset-le least rs,
    min_offset-le-offset (offset_of m r) rs q,
    min_offset-le-offset least rs q,
  )

  abbrev Attained : ℤ → List ℕ → ℤ → Type 0
  Attained least rs v = (v ≡ least) ⊎ ((q : ℕ) × (contains q rs ≡ true) × (v ≡ offset_of m q))

  Attained-cons :
      (least next v : ℤ) (r : ℕ) (rs : List ℕ)
      → (next ≡ least) ⊎ (next ≡ offset_of m r)
      → Attained next rs v
      → Attained least (r ∷ rs) v
  Attained-cons least next v r rs (inl e) (inl h) = inl (h ∙ e)
  Attained-cons least next v r rs (inr e) (inl h) = inr (r, ground (arith, nat_beq_iff r r), h ∙ e)
  Attained-cons least next v r rs c (inr (q, mem, h)) = inr (q, ground arith, h)

  min_offset-Attained : (least : ℤ) (rs : List ℕ) → Attained least rs (min_offset m least rs)
  unfolding min_offset
  min_offset-Attained least [] = inl refl
  min_offset-Attained least (r ∷ rs) =
      let next : ℤ = if ltb_ℤ (offset_of m r) least then offset_of m r else least in
      Attained-cons least next _ r rs (ground arith) (min_offset-Attained next rs)

  Attained-head :
      (r : ℕ) (rs : List ℕ) (v : ℤ)
      → Attained (offset_of m r) rs v
      → (q : ℕ) × (contains q (r ∷ rs) ≡ true) × (v ≡ offset_of m q)
  Attained-head r rs v (inl h) = (r, ground (arith, nat_beq_iff r r), h)
  Attained-head r rs v (inr (q, mem, h)) = (q, ground arith, h)

  -- `v` is the least of the offsets of `rs`, and 0 if there are none.
  abbrev pub IsMinimum : List ℕ → ℤ → Type 0
  IsMinimum [] v = v ≡ pos 0
  IsMinimum (r ∷ rs) v =
      ((q : ℕ) → contains q (r ∷ rs) ≡ true → v ≤ℤ offset_of m q)
      × ((q : ℕ) × (contains q (r ∷ rs) ≡ true) × (v ≡ offset_of m q))

  watermark-IsMinimum : (rs : List ℕ) → IsMinimum rs (watermark m rs)
  unfolding watermark
  watermark-IsMinimum [] = refl
  watermark-IsMinimum (r ∷ rs) = (
    λ q h. ground (
      arith,
      nat_beq_iff q r,
      min_offset-le (offset_of m r) rs,
      min_offset-le-offset (offset_of m r) rs q,
    ),
    Attained-head r rs _ (min_offset-Attained (offset_of m r) rs),
  )

-- After a refresh the high watermark of a partition is the least offset of its in-sync replicas:
-- no in-sync replica is below it and one is at it. It is 0 if no replica is in sync.
pub high_watermark-IsMinimum :
    (now : ℕ) (brokers : Map ℕ BrokerStatus) (p : PartitionState)
    → let q = refresh_partition now brokers p in
      IsMinimum (made q.replica_offsets) q.isr q.high_watermark
unfolding refresh_partition
high_watermark-IsMinimum now brokers p =
    watermark-IsMinimum (made p.replica_offsets) (new_isr now brokers (made p.replica_offsets) p)
