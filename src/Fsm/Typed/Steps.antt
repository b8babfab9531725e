-- ===== src/Fsm/Typed/Steps.antt =====
-- The operations on topics and brokers keep every value in the range of its type.
use aero_mq.Prelude.{
  Key, ℕ, zero, suc, Bool, true, false, Bool-cases, Option-cases, inl, inr, List, [], ◌∷◌, get_or,
  All, Text, nat_key, text_key, arith, ◌==◌, if◌then◌else◌,
}
use aero_mq.Prelude.Int.{ℤ, ltb_ℤ, leb_ℤ, sub64}
use aero_mq.Prelude.Map.{Map, lookup, keys}
use aero_mq.Prelude.Entries.{IsMap, map_entries-IsMap, tail-IsMap}
use aero_mq.Fsm.State.{
  BrokerStatus, PartitionState, TopicState, ClusterState, each_partition, over_topic, made,
}
use aero_mq.Fsm.Replication.{
  offset_of, is_live, is_down, max_lag, isr_followers, new_isr, min_offset, watermark,
  refresh_partition, update_isr_and_hw,
}
use aero_mq.Fsm.Typed.{IsUint32, IsInt64, AreOffsets, IsTypedPartition, IsTypedTopic, IsTyped}

-- Every element of a list that is indexed, or the default.
pub get_or-All : (xs : List ℕ) (i d : ℕ) → All IsUint32 xs → IsUint32 d → IsUint32 (get_or xs i d)
get_or-All [] i d h p = p
get_or-All (x ∷ xs) zero d h p = h.0
get_or-All (x ∷ xs) (suc i) d h p = get_or-All xs i d h.1 p

-- The keys of a map have what each entry has.
pub keys-All :
    {K V : Type 0} ⦃e : Key K⦄ {P : K → V → Type 0} {Q : K → Type 0} (m : Map K V)
    → ((k : K) (v : V) → P k v → Q k)
    → IsMap P m
    → All Q (keys m)
keys-All [] f h = tt
keys-All ⦃e⦄ ((k, v) ∷ m) f h =
    (f k v (h.each k v (ground (arith, e.same_iff k k))), keys-All m f (tail-IsMap k v m h))

offset_of-IsInt64 : (m : Map ℕ ℤ) (k : ℕ) → AreOffsets m → IsInt64 (offset_of m k)
unfolding offset_of
offset_of-IsInt64 m k h = elim (Option-cases (lookup k m)) [
  | inl n ↦ rw (n, offset_of) (omega arith)
  | inr (v, n) ↦ rw (n, offset_of) (h.each k v n).1
]

min_offset-IsInt64 :
    (m : Map ℕ ℤ) (least : ℤ) (rs : List ℕ)
    → AreOffsets m
    → IsInt64 least
    → IsInt64 (min_offset m least rs)
unfolding min_offset
min_offset-IsInt64 m least [] h l = l
min_offset-IsInt64 m least (r ∷ rs) h l = elim (Bool-cases (ltb_ℤ (offset_of m r) least)) [
  | inl e ↦ rw e (min_offset-IsInt64 m (offset_of m r) rs h (offset_of-IsInt64 m r h))
  | inr e ↦ rw e (min_offset-IsInt64 m least rs h l)
]

watermark-IsInt64 : (m : Map ℕ ℤ) (rs : List ℕ) → AreOffsets m → IsInt64 (watermark m rs)
unfolding watermark
watermark-IsInt64 m [] h = omega arith
watermark-IsInt64 m (r ∷ rs) h = min_offset-IsInt64 m (offset_of m r) rs h (offset_of-IsInt64 m r h)

pub if_All :
    (b : Bool) (xs ys : List ℕ)
    → All IsUint32 xs
    → All IsUint32 ys
    → All IsUint32 (if b then xs else ys)
if_All true xs ys h k = h
if_All false xs ys h k = k

isr_followers-All :
    (now : ℕ) (brokers : Map ℕ BrokerStatus) (m : Map ℕ ℤ) (leader : ℕ) (rs : List ℕ)
    → All IsUint32 rs
    → All IsUint32 (isr_followers now brokers m leader rs)
unfolding isr_followers
isr_followers-All now brokers m leader [] h = tt
isr_followers-All now brokers m leader (r ∷ rs) h =
    let rest = isr_followers-All now brokers m leader rs h.1 in
    if_All (r == leader) _ _ rest (
      if_All (is_down now brokers r) _ _ rest
        (if_All (leb_ℤ (sub64 (offset_of m leader) (offset_of m r)) max_lag) _ _ (h.0, rest) rest))

refresh_partition-IsTyped :
    (now : ℕ) (brokers : Map ℕ BrokerStatus) (k : ℕ) (p : PartitionState)
    → IsTypedPartition k p
    → IsTypedPartition k (refresh_partition now brokers p)
unfolding refresh_partition new_isr
refresh_partition-IsTyped now brokers k p h =
    let m = made p.replica_offsets in
    let followers = isr_followers-All now brokers m p.leader_id p.replica_ids h.replica_ids in
    record {
      key = h.key;
      partition_id = h.partition_id;
      leader_id = h.leader_id;
      replica_ids = h.replica_ids;
      isr = if_All (is_live now brokers p.leader_id) _ _ (h.leader_id, followers) followers;
      high_watermark = watermark-IsInt64 m (new_isr now brokers m p) h.replica_offsets;
      replica_offsets = h.replica_offsets;
    }

pub each_partition-IsTyped :
    (f : PartitionState → PartitionState) (topics : Map Text TopicState)
    → ((k : ℕ) (p : PartitionState) → IsTypedPartition k p → IsTypedPartition k (f p))
    → IsMap IsTypedTopic topics
    → IsMap IsTypedTopic (each_partition f topics)
each_partition-IsTyped f topics keep h =
    map_entries-IsMap (λ _ t. over_topic f t) topics
      (λ k t q. map_entries-IsMap (λ _ p. f p) t.partitions keep q) h

pub update_isr_and_hw-IsTyped :
    (now : ℕ) (s : ClusterState) → IsTyped s → IsTyped (update_isr_and_hw now s)
unfolding update_isr_and_hw
update_isr_and_hw-IsTyped now s h = record {
  brokers = h.brokers;
  topics =
      each_partition-IsTyped (refresh_partition now s.brokers) s.topics
        (refresh_partition-IsTyped now s.brokers) h.topics;
  groups = h.groups;
  offsets = h.offsets;
}
