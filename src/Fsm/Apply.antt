-- ===== src/Fsm/Apply.antt =====
-- `Apply` of fsm.go: one entry of the replicated log.
pub mod Panics
use aero_mq.Prelude.{Bool, Option, none, some, Text, text_key, ◌==◌, if◌then◌else◌}
use aero_mq.Json.{Json, ◌>>=◌}
use aero_mq.Fsm.State.{ClusterState, Env}
use aero_mq.Fsm.Brokers.{RegisterBrokerPayload, HeartbeatPayload, register_broker, broker_heartbeat}
use aero_mq.Fsm.Topics.{
  CreateTopicPayload, AssignPartitionsPayload, create_topic, assign_partitions,
}
use aero_mq.Fsm.Groups.{JoinGroupPayload, join_consumer_group}
use aero_mq.Fsm.Offsets.{CommitOffsetPayload, commit_offset}
use aero_mq.Fsm.Failover.{clean_inactive}
use aero_mq.Fsm.Commands.{
  Command, read_command, read_register_broker, read_heartbeat, read_create_topic,
  read_assign_partitions, read_join_group, read_commit_offset, cmd_register_broker,
  cmd_broker_heartbeat, cmd_create_topic, cmd_assign_partitions, cmd_join_consumer_group,
  cmd_commit_offset, cmd_clean_inactive,
}

-- What a command asks for. `skip` is a command of another name, or one whose payload is refused.
pub data Op : Type 0 where
  register : RegisterBrokerPayload → Op
  heartbeat : HeartbeatPayload → Op
  create : CreateTopicPayload → Op
  assign : AssignPartitionsPayload → Op
  join : JoinGroupPayload → Op
  commit : CommitOffsetPayload → Op
  clean : Op
  skip : Op

-- `if err := json.Unmarshal(cmd.Payload, &payload); err == nil { … }`
abbrev pub or_skip : {P : Type 0} → Option P → (P → Op) → Op
or_skip none op = skip
or_skip (some payload) op = op payload

-- The `switch` on the name.
unfoldable pub op_of : Command → Op
op_of cmd =
    if cmd.op == cmd_register_broker
    then or_skip (cmd.payload >>= read_register_broker) register
    else if cmd.op == cmd_broker_heartbeat
    then or_skip (cmd.payload >>= read_heartbeat) heartbeat
    else if cmd.op == cmd_create_topic
    then or_skip (cmd.payload >>= read_create_topic) create
    else if cmd.op == cmd_assign_partitions
    then or_skip (cmd.payload >>= read_assign_partitions) assign
    else if cmd.op == cmd_join_consumer_group
    then or_skip (cmd.payload >>= read_join_group) join
    else if cmd.op == cmd_commit_offset
    then or_skip (cmd.payload >>= read_commit_offset) commit
    else if cmd.op == cmd_clean_inactive
    then clean
    else skip

-- `done` returns nil, `refused` the error of a log entry that is no command, with the state as it
-- was; `panicked` ends the process.
pub data Outcome : Type 0 where
  done : ClusterState → Outcome
  refused : Outcome
  panicked : Outcome

abbrev pub or_panic : Option ClusterState → Outcome
or_panic none = panicked
or_panic (some s) = done s

unfoldable pub execute : Env → Op → ClusterState → Outcome
execute env (register payload) s = done (register_broker env payload s)
execute env (heartbeat payload) s = done (broker_heartbeat env payload s)
execute env (create payload) s = done (create_topic env payload s)
execute env (assign payload) s = or_panic (assign_partitions env payload s)
execute env (join payload) s = done (join_consumer_group env payload s)
execute env (commit payload) s = done (commit_offset payload s)
execute env clean s = done (clean_inactive env s)
execute env skip s = done s

-- `entry` is the value of `log.Data`, and `none` if it is no JSON.
unfoldable pub apply : Env → Option Json → ClusterState → Outcome
unfolding op_of execute
apply env entry s = elim (entry >>= read_command) [
  | none ↦ refused
  | some cmd ↦ execute env (op_of cmd) s
]
