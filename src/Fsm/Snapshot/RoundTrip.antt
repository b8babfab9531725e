-- ===== src/Fsm/Snapshot/RoundTrip.antt =====
-- A state that is restored from its snapshot is the state.
use aero_mq.Prelude.Int.{ℤ}
use aero_mq.Json.{
  Json, num, str, read_digits, read_key, read_entries, read_map, read_dict, read_text, read_uint32,
  read_int64, read_bool, read_time, read_list, read_present, read_struct, read_field,
}
use aero_mq.Json.Encode.{
  write_uint, write_list, read_uint32-write_uint, read_int32-num, read_int64-num,
  read_list-write_list,
}
use aero_mq.Fsm.State.{
  PartitionTopic, BrokerStatus, PartitionState, TopicState, GroupMember, ConsumerGroupState,
  ClusterState, made,
}
use aero_mq.Fsm.Commands.{read_partition_state}
use aero_mq.Fsm.Typed.{
  IsUint32, IsTypedBroker, AreOffsets, IsTypedPartition, IsTypedTopic, IsTypedPair, IsTypedGroup,
  IsTyped,
}
use aero_mq.Fsm.Snapshot.{
  write_entries, write_map, write_dict, write_offsets, write_broker, write_partition, write_topic,
  write_member, write_partition_topic, write_group, snapshot, read_broker, read_topic, read_member,
  read_partition_topic, read_group, read_state,
}
use mathlib.Core.List.{append_assoc, append-nil}
use mathlib.Core.Path.{sym}
use aero_mq.Prelude.{
  ℕ, zero, suc, ◌+◌, ◌/◌, ◌%◌, ◌<◌, ◌^◌, ◌≡◌, refl, ap, ◌∙◌, true, false, Option, none, some, List,
  [], ◌∷◌, ◌++◌, All, Text, text_key, nat_key, Key, contains, arith, contains-append,
}
use aero_mq.Prelude.Decimal.{digits, decimal_ℕ}
use aero_mq.Prelude.Map.{Map, insert, keys}
use aero_mq.Prelude.Entries.{IsMap, tail-IsMap, IsMap-weaken}

-- The digits that are printed are read back, whatever digits follow them.
read_digits-digits :
    (fuel n : ℕ) (rest : Text) → n < fuel → read_digits 0 (digits fuel n rest) ≡ read_digits n rest
unfolding digits read_digits
read_digits-digits zero n rest h = absurd (omega arith)
read_digits-digits (suc fuel) n rest h =
    ground (arith, read_digits-digits fuel (n / 10) ((b'0' + n % 10) ∷ rest))

read_key-digits :
    (fuel n c : ℕ) (rest : Text)
    → read_key (digits fuel n (c ∷ rest)) ≡ read_digits 0 (digits fuel n (c ∷ rest))
unfolding digits read_key
read_key-digits zero n c rest = refl
read_key-digits (suc fuel) n c rest =
    ground (arith, read_key-digits fuel (n / 10) (b'0' + n % 10) (c ∷ rest))

read_key-decimal_ℕ : (n : ℕ) → n < 2 ^ 32 → read_key (decimal_ℕ n) ≡ some n
unfolding read_key decimal_ℕ digits read_digits
read_key-decimal_ℕ n h = ground (
  arith,
  read_key-digits n (n / 10) (b'0' + n % 10) [],
  read_digits-digits n (n / 10) ((b'0' + n % 10) ∷ []),
)

module _ {K A : Type 0} ⦃e : Key K⦄ where
  insert-absent :
      (k : K) (a : A) (m : Map K A) → contains k (keys m) ≡ false → insert k a m ≡ m ++ (k, a) ∷ []
  insert-absent k a [] h = refl
  insert-absent k a ((j, b) ∷ m) h = ground (arith, insert-absent k a m)

  keys-append : (m n : Map K A) → keys (m ++ n) ≡ keys m ++ keys n
  keys-append [] n = refl
  keys-append (x ∷ m) n = ap (λ ks. x.0 ∷ ks) (keys-append m n)

module _ {K A : Type 0} ⦃e : Key K⦄ (key : Text → Option K) (read : Json → Option A)
    (print : K → Text) (write : A → Json) where
  -- A key and a value that are read back.
  abbrev pub Returns : K → A → Type 0
  Returns k a = (key (print k) ≡ some k) × (read (write a) ≡ some a)

  read_entries-write_entries :
      (m before : Map K A)
      → IsMap Returns m
      → ((k : K) → contains k (keys m) ≡ true → contains k (keys before) ≡ false)
      → read_entries key read before (write_entries print write m) ≡ some (before ++ m)
  unfolding read_entries write_entries
  read_entries-write_entries [] before h apart = ap some (sym (append-nil before))
  read_entries-write_entries ((k, a) ∷ m) before h apart =
      let r : Returns k a = h.each k a (ground (arith, e.same_iff k k)) in
      let new : contains k (keys before) ≡ false = apart k (ground (arith, e.same_iff k k)) in
      rw (r.0, r.1, insert-absent k a before new)
        (read_entries-write_entries m (before ++ (k, a) ∷ []) (tail-IsMap k a m h) (λ j c. ground (
          arith,
          ap (contains j) (keys-append before ((k, a) ∷ [])),
          contains-append j (keys before) (k ∷ []),
          apart j,
          h.distinct.0,
          e.same_iff j k,
        ))
          ∙ ap some (append_assoc before ((k, a) ∷ []) m))

module _ {A : Type 0} (read : Json → Option A) (write : A → Json) where
  read_map-write_map :
      (m : Map ℕ A)
      → IsMap (λ k a. IsUint32 k × (read (write a) ≡ some a)) m
      → read_map read (write_map write m) ≡ some (some m)
  unfolding read_map write_map
  read_map-write_map m h = rw (
      read_entries-write_entries read_key read decimal_ℕ write m []
        (IsMap-weaken m (λ k a p. (read_key-decimal_ℕ k p.0, p.1)) h) (λ k c. refl))

  read_dict-write_dict :
      (m : Map Text A)
      → IsMap (λ _ a. read (write a) ≡ some a) m
      → read_dict read (write_dict write m) ≡ some (some m)
  unfolding read_dict write_dict
  read_dict-write_dict m h = rw (
      read_entries-write_entries some read (λ k. k) write m []
        (IsMap-weaken m (λ k a p. (refl, p)) h) (λ k c. refl))

uints : (ns : List ℕ) → All IsUint32 ns → All (λ n. read_uint32 (write_uint n) ≡ some n) ns
uints [] h = tt
uints (n ∷ ns) h = (read_uint32-write_uint n h.0, uints ns h.1)

read_uints :
    (ns : List ℕ) → All IsUint32 ns → read_list read_uint32 (write_list write_uint ns) ≡ some ns
read_uints ns h = read_list-write_list read_uint32 write_uint ns (uints ns h)

texts : (ts : List Text) → All (λ t. read_text (str t) ≡ some t) ts
unfolding read_text
texts [] = tt
texts (t ∷ ts) = (refl, texts ts)

read_map-write_offsets :
    (o : Option (Map ℕ ℤ)) → AreOffsets (made o) → read_map read_int64 (write_offsets o) ≡ some o
unfolding write_offsets read_map
read_map-write_offsets none h = refl
read_map-write_offsets (some m) h =
    read_map-write_map read_int64 num m (IsMap-weaken m (λ k v p. (p.0, read_int64-num v p.1)) h)

read-broker :
    (k : ℕ) (b : BrokerStatus)
    → IsTypedBroker k b
    → read_present read_broker (write_broker b) ≡ some b
unfolding read_present read_broker write_broker read_struct read_field read_text read_time read_bool
read-broker k b h = rw (read_uint32-write_uint b.id h.1, read_int32-num b.port h.2)

read-partition :
    (k : ℕ) (p : PartitionState)
    → IsTypedPartition k p
    → read_present read_partition_state (write_partition p) ≡ some p
unfolding read_present read_partition_state write_partition read_struct read_field
read-partition k p h = rw (
  read_uint32-write_uint p.partition_id h.partition_id,
  read_uint32-write_uint p.leader_id h.leader_id,
  read_uints p.replica_ids h.replica_ids,
  read_uints p.isr h.isr,
  read_int64-num p.high_watermark h.high_watermark,
  read_map-write_offsets p.replica_offsets h.replica_offsets,
)

read-topic :
    (k : Text) (t : TopicState)
    → IsTypedTopic k t
    → read_present read_topic (write_topic t) ≡ some t
unfolding read_present read_topic write_topic read_struct read_field read_text
read-topic k t h = rw (
    read_map-write_map (read_present read_partition_state) write_partition t.partitions
      (IsMap-weaken t.partitions (λ j p q. (q.key, read-partition j p q)) h))

read-member : (m : GroupMember) → read_present read_member (write_member m) ≡ some m
unfolding read_present read_member write_member read_struct read_field read_text read_time
read-member m = rw (read_list-write_list read_text str m.topics (texts m.topics))

read-pair :
    (pt : PartitionTopic)
    → IsTypedPair pt
    → read_partition_topic (write_partition_topic pt) ≡ some pt
unfolding read_partition_topic write_partition_topic read_struct read_field read_text
read-pair pt h = rw (read_uint32-write_uint pt.partition h)

pairs :
    (pts : List PartitionTopic)
    → All IsTypedPair pts
    → All (λ pt. read_partition_topic (write_partition_topic pt) ≡ some pt) pts
pairs [] h = tt
pairs (pt ∷ pts) h = (read-pair pt h.0, pairs pts h.1)

read-group :
    (k : Text) (g : ConsumerGroupState)
    → IsTypedGroup k g
    → read_present read_group (write_group g) ≡ some g
unfolding read_present read_group write_group read_struct read_field read_text
read-group k g h = rw (
  read_uint32-write_uint g.generation h.generation,
  read_dict-write_dict (read_present read_member) write_member g.members
      (record { distinct = h.members; each = λ j m q. read-member m }),
  read_dict-write_dict (read_list read_partition_topic) (write_list write_partition_topic)
      g.assignments
      (IsMap-weaken g.assignments
        (λ j pts q.
          read_list-write_list read_partition_topic write_partition_topic pts (pairs pts q))
        h.assignments),
)

pub read_state-snapshot : (s : ClusterState) → IsTyped s → read_state (snapshot s) ≡ some s
unfolding read_state snapshot read_struct read_field
read_state-snapshot s h = rw (
  read_map-write_map (read_present read_broker) write_broker s.brokers
      (IsMap-weaken s.brokers (λ k b q. (q.0, read-broker k b q)) h.brokers),
  read_dict-write_dict (read_present read_topic) write_topic s.topics
      (IsMap-weaken s.topics (λ k t q. read-topic k t q) h.topics),
  read_dict-write_dict (read_present read_group) write_group s.consumer_groups
      (IsMap-weaken s.consumer_groups (λ k g q. read-group k g q) h.groups),
  read_dict-write_dict read_int64 num s.offsets
      (IsMap-weaken s.offsets (λ k v q. read_int64-num v q) h.offsets),
)
