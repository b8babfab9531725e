-- ===== src/Server/Written.antt =====
-- `Apply` reads from a log entry the payload that the server wrote into it.
use mathlib.Core.Path.{subst}
use aero_mq.Prelude.{◌<◌, ◌^◌, ◌≡◌, refl, Option, none, some, List, [], ◌∷◌, Text, All, text_key}
use aero_mq.Prelude.Int.{IsIn}
use aero_mq.Json.{Json, null, str, read_text, read_field, read_struct}
use aero_mq.Fsm.State.{ClusterState, Env}
use aero_mq.Fsm.Brokers.{RegisterBrokerPayload, HeartbeatPayload, ReplicaOffset}
use aero_mq.Fsm.Topics.{CreateTopicPayload}
use aero_mq.Fsm.Groups.{JoinGroupPayload}
use aero_mq.Fsm.Offsets.{CommitOffsetPayload}
use aero_mq.Fsm.Commands.{
  read_command, read_register_broker, read_heartbeat, read_replica_offset, read_create_topic,
  read_join_group, read_commit_offset, cmd_register_broker, cmd_broker_heartbeat, cmd_create_topic,
  cmd_join_consumer_group, cmd_commit_offset, cmd_clean_inactive,
}
use aero_mq.Fsm.Apply.{
  Op, register, heartbeat, create, assign, join, commit, clean, skip, op_of, execute, apply,
}
use aero_mq.Consensus.Encode.{write_command}
use aero_mq.Json.Encode.{
  read_uint32-write_uint, read_int32-num, read_int64-num, read_list-write_list,
}
use aero_mq.Server.Payloads.{
  write_register_broker, write_replica_offset, write_heartbeat, write_create_topic,
  write_join_group, write_commit_offset,
}

abbrev pub IsReport : ReplicaOffset → Type 0
IsReport ro = (ro.partition < 2 ^ 32) × IsIn (2 ^ 63) ro.offset

-- The numbers of a command are in the range of their types.
abbrev pub IsTyped : Op → Type 0
IsTyped (register p) = (p.id < 2 ^ 32) × IsIn (2 ^ 31) p.port
IsTyped (heartbeat p) = (p.id < 2 ^ 32) × All IsReport p.replica_offsets
IsTyped (create p) = (p.partitions < 2 ^ 32) × (p.replication_factor < 2 ^ 32)
IsTyped (join p) = Unit
IsTyped (commit p) = (p.partition < 2 ^ 32) × IsIn (2 ^ 63) p.offset
IsTyped _ = Unit

-- The entry that the server proposes for a command; it proposes no other.
abbrev pub written : Op → Option Json
written (register p) = some (write_command cmd_register_broker (write_register_broker p))
written (heartbeat p) = some (write_command cmd_broker_heartbeat (write_heartbeat p))
written (create p) = some (write_command cmd_create_topic (write_create_topic p))
written (join p) = some (write_command cmd_join_consumer_group (write_join_group p))
written (commit p) = some (write_command cmd_commit_offset (write_commit_offset p))
written clean = some (write_command cmd_clean_inactive null)
written (assign p) = none
written skip = none

read-register_broker :
    (p : RegisterBrokerPayload)
    → p.id < 2 ^ 32
    → IsIn (2 ^ 31) p.port
    → read_register_broker (write_register_broker p) ≡ some p
unfolding read_register_broker write_register_broker read_struct read_field read_text
read-register_broker p h k = rw (read_uint32-write_uint p.id h, read_int32-num p.port k)

read-replica_offset :
    (ro : ReplicaOffset) → IsReport ro → read_replica_offset (write_replica_offset ro) ≡ some ro
unfolding read_replica_offset write_replica_offset read_struct read_field read_text
read-replica_offset ro h =
    rw (read_uint32-write_uint ro.partition h.0, read_int64-num ro.offset h.1)

reports :
    (ros : List ReplicaOffset)
    → All IsReport ros
    → All (λ ro. read_replica_offset (write_replica_offset ro) ≡ some ro) ros
reports [] h = tt
reports (ro ∷ rest) h = (read-replica_offset ro h.0, reports rest h.1)

read-heartbeat :
    (p : HeartbeatPayload)
    → p.id < 2 ^ 32
    → All IsReport p.replica_offsets
    → read_heartbeat (write_heartbeat p) ≡ some p
unfolding read_heartbeat write_heartbeat read_struct read_field
read-heartbeat p h k = rw (
  read_uint32-write_uint p.id h,
  read_list-write_list read_replica_offset write_replica_offset p.replica_offsets
      (reports p.replica_offsets k),
)

read-create_topic :
    (p : CreateTopicPayload)
    → p.partitions < 2 ^ 32
    → p.replication_factor < 2 ^ 32
    → read_create_topic (write_create_topic p) ≡ some p
unfolding read_create_topic write_create_topic read_struct read_field read_text
read-create_topic p h k =
    rw (read_uint32-write_uint p.partitions h, read_uint32-write_uint p.replication_factor k)

texts : (ts : List Text) → All (λ t. read_text (str t) ≡ some t) ts
unfolding read_text
texts [] = tt
texts (t ∷ rest) = (refl, texts rest)

pub read-join_group : (p : JoinGroupPayload) → read_join_group (write_join_group p) ≡ some p
unfolding read_join_group write_join_group read_struct read_field read_text
read-join_group p = rw (read_list-write_list read_text str p.topics (texts p.topics), read_text)

read-commit_offset :
    (p : CommitOffsetPayload)
    → p.partition < 2 ^ 32
    → IsIn (2 ^ 63) p.offset
    → read_commit_offset (write_commit_offset p) ≡ some p
unfolding read_commit_offset write_commit_offset read_struct read_field read_text
read-commit_offset p h k = rw (read_uint32-write_uint p.partition h, read_int64-num p.offset k)

read-command :
    (op : Text) (payload : Json)
    → read_command (write_command op payload) ≡ some (record { op = op; payload = some payload })
unfolding read_command write_command read_struct read_field read_text
read-command op payload = refl

-- For a command whose numbers are in the range of their types, applying the log entry that the
-- server proposes for it executes that command.
pub apply-written :
    (env : Env) (op : Op) (s : ClusterState) {entry : Json}
    → written op ≡ some entry
    → IsTyped op
    → apply env (some entry) s ≡ execute env op s
unfolding apply op_of read_command read_struct write_command read_field read_text
apply-written env (register p) s w h =
    subst (λ e. apply env e s ≡ execute env (register p) s) w (rw (read-register_broker p h.0 h.1))
apply-written env (heartbeat p) s w h =
    subst (λ e. apply env e s ≡ execute env (heartbeat p) s) w (rw (read-heartbeat p h.0 h.1))
apply-written env (create p) s w h =
    subst (λ e. apply env e s ≡ execute env (create p) s) w (rw (read-create_topic p h.0 h.1))
apply-written env (join p) s w h =
    subst (λ e. apply env e s ≡ execute env (join p) s) w (rw (read-join_group p))
apply-written env (commit p) s w h =
    subst (λ e. apply env e s ≡ execute env (commit p) s) w (rw (read-commit_offset p h.0 h.1))
apply-written env clean s w h = subst (λ e. apply env e s ≡ execute env clean s) w refl
apply-written env (assign p) s w h = cc
apply-written env skip s w h = cc
