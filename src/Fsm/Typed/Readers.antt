-- ===== src/Fsm/Typed/Readers.antt =====
-- What is read from JSON is in the range of its type.
use mathlib.Core.Path.{subst}
use aero_mq.Prelude.{ℕ, ◌≡◌, Option, none, some, All, nat_key, text_key, some_inj, codes}
use aero_mq.Prelude.Int.{ℤ}
use aero_mq.Prelude.Map.{Map}
use aero_mq.Prelude.Entries.{IsMap, IsMap-nil, IsMap-weaken}
use aero_mq.Json.{
  Json, null, bool, num, str, stamp, arr, obj, ◌>>=◌, read_uint32, read_int32, read_int64,
  read_list, read_map, read_field, read_pointer, read_struct, read_text, >>=-eq-some,
}
use aero_mq.Fsm.State.{PartitionState, made}
use aero_mq.Fsm.Brokers.{RegisterBrokerPayload, HeartbeatPayload, ReplicaOffset}
use aero_mq.Fsm.Topics.{CreateTopicPayload, AssignPartitionsPayload}
use aero_mq.Fsm.Offsets.{CommitOffsetPayload}
use aero_mq.Fsm.Commands.{
  read_register_broker, read_replica_offset, read_heartbeat, read_create_topic,
  read_partition_state, read_assign_partitions, read_commit_offset, or_empty,
}
use aero_mq.Fsm.Apply.{Op, register, heartbeat, create, assign, join, commit, clean, skip}
use aero_mq.Fsm.Typed.{IsUint32, IsInt32, IsInt64, AreOffsets, IsTypedPartition}
use aero_mq.Fsm.Typed.Values.{
  read_uint32-IsUint32, read_int32-IsInt32, read_int64-IsInt64, read_field-Reads, read_list-Reads,
  read_map-Reads,
}

-- The numbers of an operation are in the range of their types.
abbrev pub IsTypedReport : ReplicaOffset → Type 0
IsTypedReport ro = IsUint32 ro.partition × IsInt64 ro.offset

-- An assigned partition, where it is not nil.
abbrev pub IsTypedAssigned : ℕ → Option PartitionState → Type 0
IsTypedAssigned k none = Unit
IsTypedAssigned k (some p) = IsTypedPartition k p

abbrev pub IsTypedOp : Op → Type 0
IsTypedOp (register p) = IsUint32 p.id × IsInt32 p.port
IsTypedOp (heartbeat p) = IsUint32 p.id × All IsTypedReport p.replica_offsets
IsTypedOp (create p) = IsUint32 p.partitions
IsTypedOp (assign p) = IsMap IsTypedAssigned p.partitions
IsTypedOp (join p) = Unit
IsTypedOp (commit p) = IsInt64 p.offset
IsTypedOp clean = Unit
IsTypedOp skip = Unit

pub read_register_broker-Reads :
    (j : Json) (p : RegisterBrokerPayload)
    → read_register_broker j ≡ some p
    → IsTypedOp (register p)
unfolding read_register_broker
read_register_broker-Reads j p e =
    let (fs, _, e0) = >>=-eq-some (read_struct j) _ e in
    let (id, a, e1) = >>=-eq-some (read_field read_uint32 (codes "id") fs) _ e0 in
    let (host, _, e2) = >>=-eq-some (read_field read_text (codes "host") fs) _ e1 in
    let (port, b, e3) = >>=-eq-some (read_field read_int32 (codes "port") fs) _ e2 in
    subst (λ q. IsTypedOp (register q)) (some_inj e3)
      (
        read_field-Reads read_uint32 IsUint32 (codes "id") fs id read_uint32-IsUint32 a,
        read_field-Reads read_int32 IsInt32 (codes "port") fs port read_int32-IsInt32 b,
      )

read_replica_offset-Reads :
    (j : Json) (ro : ReplicaOffset) → read_replica_offset j ≡ some ro → IsTypedReport ro
unfolding read_replica_offset
read_replica_offset-Reads j ro e =
    let (fs, _, e0) = >>=-eq-some (read_struct j) _ e in
    let (topic, _, e1) = >>=-eq-some (read_field read_text (codes "topic") fs) _ e0 in
    let (partition, a, e2) = >>=-eq-some (read_field read_uint32 (codes "partition") fs) _ e1 in
    let (offset, b, e3) = >>=-eq-some (read_field read_int64 (codes "offset") fs) _ e2 in
    subst IsTypedReport (some_inj e3) (
      read_field-Reads read_uint32 IsUint32 (codes "partition") fs partition read_uint32-IsUint32 a,
      read_field-Reads read_int64 IsInt64 (codes "offset") fs offset read_int64-IsInt64 b,
    )

pub read_heartbeat-Reads :
    (j : Json) (p : HeartbeatPayload) → read_heartbeat j ≡ some p → IsTypedOp (heartbeat p)
unfolding read_heartbeat
read_heartbeat-Reads j p e =
    let (fs, _, e0) = >>=-eq-some (read_struct j) _ e in
    let (id, a, e1) = >>=-eq-some (read_field read_uint32 (codes "id") fs) _ e0 in
    let (offsets, b, e2) =
      >>=-eq-some (read_field (read_list read_replica_offset) (codes "replica_offsets") fs) _ e1 in
    subst (λ q. IsTypedOp (heartbeat q)) (some_inj e2)
      (
        read_field-Reads read_uint32 IsUint32 (codes "id") fs id read_uint32-IsUint32 a,
        read_field-Reads (read_list read_replica_offset) (All IsTypedReport)
            (codes "replica_offsets") fs offsets
            (read_list-Reads read_replica_offset IsTypedReport read_replica_offset-Reads) b,
      )

pub read_create_topic-Reads :
    (j : Json) (p : CreateTopicPayload) → read_create_topic j ≡ some p → IsTypedOp (create p)
unfolding read_create_topic
read_create_topic-Reads j p e =
    let (fs, _, e0) = >>=-eq-some (read_struct j) _ e in
    let (name, _, e1) = >>=-eq-some (read_field read_text (codes "name") fs) _ e0 in
    let (partitions, a, e2) = >>=-eq-some (read_field read_uint32 (codes "partitions") fs) _ e1 in
    let (factor, _, e3) =
      >>=-eq-some (read_field read_uint32 (codes "replication_factor") fs) _ e2 in
    subst (λ q. IsTypedOp (create q)) (some_inj e3)
      (read_field-Reads read_uint32 IsUint32 (codes "partitions") fs partitions read_uint32-IsUint32
        a)

pub read_commit_offset-Reads :
    (j : Json) (p : CommitOffsetPayload) → read_commit_offset j ≡ some p → IsTypedOp (commit p)
unfolding read_commit_offset
read_commit_offset-Reads j p e =
    let (fs, _, e0) = >>=-eq-some (read_struct j) _ e in
    let (group, _, e1) = >>=-eq-some (read_field read_text (codes "group_id") fs) _ e0 in
    let (topic, _, e2) = >>=-eq-some (read_field read_text (codes "topic") fs) _ e1 in
    let (partition, _, e3) = >>=-eq-some (read_field read_uint32 (codes "partition") fs) _ e2 in
    let (offset, b, e4) = >>=-eq-some (read_field read_int64 (codes "offset") fs) _ e3 in
    subst (λ q. IsTypedOp (commit q)) (some_inj e4)
      (read_field-Reads read_int64 IsInt64 (codes "offset") fs offset read_int64-IsInt64 b)

-- All of a partition but the key under which it stands.
abbrev IsTypedBody : PartitionState → Type 0
IsTypedBody p = (k : ℕ) → IsUint32 k → IsTypedPartition k p

made_offsets :
    (j : Json) (o : Option (Map ℕ ℤ)) → read_map read_int64 j ≡ some o → AreOffsets (made o)
made_offsets j none e = IsMap-nil
made_offsets j (some m) e = read_map-Reads read_int64 IsInt64 read_int64-IsInt64 j (some m) e

read_partition_state-Reads :
    (j : Json) (p : PartitionState) → read_partition_state j ≡ some p → IsTypedBody p
unfolding read_partition_state
read_partition_state-Reads j p e =
    let (fs, _, e0) = >>=-eq-some (read_struct j) _ e in
    let (id, a, e1) = >>=-eq-some (read_field read_uint32 (codes "partition_id") fs) _ e0 in
    let (leader, b, e2) = >>=-eq-some (read_field read_uint32 (codes "leader_id") fs) _ e1 in
    let (replicas, c, e3) =
      >>=-eq-some (read_field (read_list read_uint32) (codes "replica_ids") fs) _ e2 in
    let (isr, d, e4) = >>=-eq-some (read_field (read_list read_uint32) (codes "isr") fs) _ e3 in
    let (hw, g, e5) = >>=-eq-some (read_field read_int64 (codes "high_watermark") fs) _ e4 in
    let (offsets, h, e6) =
      >>=-eq-some (read_field (read_map read_int64) (codes "replica_offsets") fs) _ e5 in
    let ids = read_list-Reads read_uint32 IsUint32 read_uint32-IsUint32 in
    let offsets_typed =
      read_field-Reads (read_map read_int64) (λ o. AreOffsets (made o)) (codes "replica_offsets") fs
        offsets made_offsets h in
    subst IsTypedBody (some_inj e6) (λ k u. record {
      key = u;
      partition_id =
          read_field-Reads read_uint32 IsUint32 (codes "partition_id") fs id read_uint32-IsUint32 a;
      leader_id =
          read_field-Reads read_uint32 IsUint32 (codes "leader_id") fs leader read_uint32-IsUint32
            b;
      replica_ids =
          read_field-Reads (read_list read_uint32) (All IsUint32) (codes "replica_ids") fs replicas
            ids c;
      isr = read_field-Reads (read_list read_uint32) (All IsUint32) (codes "isr") fs isr ids d;
      high_watermark =
          read_field-Reads read_int64 IsInt64 (codes "high_watermark") fs hw read_int64-IsInt64 g;
      replica_offsets = offsets_typed;
    })

abbrev IsTypedPointer : Option PartitionState → Type 0
IsTypedPointer none = Unit
IsTypedPointer (some p) = IsTypedBody p

pointed :
    (o : Option PartitionState) {p : PartitionState}
    → (o >>= λ a. some (some a)) ≡ some (some p)
    → o ≡ some p
pointed none e = cc
pointed (some p) e = cc

read_pointer-Reads :
    (j : Json) (o : Option PartitionState)
    → read_pointer read_partition_state j ≡ some o
    → IsTypedPointer o
unfolding read_pointer
read_pointer-Reads j none e = tt
read_pointer-Reads null (some p) e = cc
read_pointer-Reads (bool b) (some p) e = read_partition_state-Reads (bool b) p (pointed _ e)
read_pointer-Reads (num v) (some p) e = read_partition_state-Reads (num v) p (pointed _ e)
read_pointer-Reads (str t) (some p) e = read_partition_state-Reads (str t) p (pointed _ e)
read_pointer-Reads (stamp t) (some p) e = read_partition_state-Reads (stamp t) p (pointed _ e)
read_pointer-Reads (arr js) (some p) e = read_partition_state-Reads (arr js) p (pointed _ e)
read_pointer-Reads (obj fs) (some p) e = read_partition_state-Reads (obj fs) p (pointed _ e)

typed_assigned :
    (k : ℕ) (o : Option PartitionState) → IsUint32 k × IsTypedPointer o → IsTypedAssigned k o
typed_assigned k none h = tt
typed_assigned k (some p) h = h.1 k h.0

pub read_assign_partitions-Reads :
    (j : Json) (p : AssignPartitionsPayload)
    → read_assign_partitions j ≡ some p
    → IsTypedOp (assign p)
unfolding read_assign_partitions
read_assign_partitions-Reads j p e =
    let (fs, _, e0) = >>=-eq-some (read_struct j) _ e in
    let (topic, _, e1) = >>=-eq-some (read_field read_text (codes "topic") fs) _ e0 in
    let (partitions, a, e2) =
      >>=-eq-some
        (read_field (read_map (read_pointer read_partition_state)) (codes "partitions") fs) _ e1 in
    subst (λ q. IsTypedOp (assign q)) (some_inj e2)
      (IsMap-weaken (or_empty partitions) typed_assigned (
        read_field-Reads (read_map (read_pointer read_partition_state))
          (λ o. IsMap (λ k p. IsUint32 k × IsTypedPointer p) (or_empty o)) (codes "partitions") fs
          partitions
          (read_map-Reads (read_pointer read_partition_state) IsTypedPointer read_pointer-Reads) a))
