-- ===== src/Fsm/Typed/Replay.antt =====
-- Every log of entries keeps the values of the state in the range of their types.
use aero_mq.Prelude.{
  ◌≡◌, Bool, true, false, Option-cases, inl, inr, Option, some, List, text_key, nat_key, ◌==◌,
  if◌then◌else◌,
}
use aero_mq.Prelude.Entries.{IsMap-nil}
use aero_mq.Json.{Json, ◌>>=◌, >>=-eq-some}
use aero_mq.Fsm.State.{ClusterState, Env, new_fsm}
use aero_mq.Fsm.Topics.{assign_partitions}
use aero_mq.Fsm.Commands.{
  Command, read_register_broker, read_heartbeat, read_create_topic, read_assign_partitions,
  read_join_group, read_commit_offset, cmd_register_broker, cmd_broker_heartbeat, cmd_create_topic,
  cmd_assign_partitions, cmd_join_consumer_group, cmd_commit_offset, cmd_clean_inactive,
}
use aero_mq.Fsm.Apply.{
  Op, register, heartbeat, create, assign, join, commit, clean, skip, op_of, or_skip, execute,
  or_panic,
}
use aero_mq.Fsm.Replay.{replay}
use aero_mq.Fsm.Replay.Induction.{Leaves, replay_inv}
use aero_mq.Fsm.Typed.{IsTyped}
use aero_mq.Fsm.Typed.Readers.{
  IsTypedOp, read_register_broker-Reads, read_heartbeat-Reads, read_create_topic-Reads,
  read_assign_partitions-Reads, read_commit_offset-Reads,
}
use aero_mq.Fsm.Typed.Brokers.{register_broker-IsTyped, broker_heartbeat-IsTyped}
use aero_mq.Fsm.Typed.Topics.{create_topic-IsTyped, assign_partitions-IsTyped}
use aero_mq.Fsm.Typed.Failover.{clean_inactive-IsTyped}
use aero_mq.Fsm.Typed.Groups.{join_consumer_group-IsTyped, commit_offset-IsTyped}

if_IsTypedOp : (b : Bool) (x y : Op) → IsTypedOp x → IsTypedOp y → IsTypedOp (if b then x else y)
if_IsTypedOp true x y h k = h
if_IsTypedOp false x y h k = k

or_skip-IsTypedOp :
    {P : Type 0} (payload : Option Json) (read : Json → Option P) (op : P → Op)
    → ((j : Json) (p : P) → read j ≡ some p → IsTypedOp (op p))
    → IsTypedOp (or_skip (payload >>= read) op)
or_skip-IsTypedOp payload read op h = elim (Option-cases (payload >>= read)) [
  | inl n ↦ rw (n, or_skip) tt
  | inr (p, n) ↦ let (j, _, r) = >>=-eq-some payload read n in rw (n, or_skip) (h j p r)
]

op_of-IsTypedOp : (cmd : Command) → IsTypedOp (op_of cmd)
unfolding op_of
op_of-IsTypedOp cmd =
    if_IsTypedOp (cmd.op == cmd_register_broker) _ _
      (or_skip-IsTypedOp cmd.payload read_register_broker register read_register_broker-Reads)
      (if_IsTypedOp (cmd.op == cmd_broker_heartbeat) _ _
        (or_skip-IsTypedOp cmd.payload read_heartbeat heartbeat read_heartbeat-Reads)
        (if_IsTypedOp (cmd.op == cmd_create_topic) _ _
          (or_skip-IsTypedOp cmd.payload read_create_topic create read_create_topic-Reads)
          (if_IsTypedOp (cmd.op == cmd_assign_partitions) _ _
            (or_skip-IsTypedOp cmd.payload read_assign_partitions assign
              read_assign_partitions-Reads)
            (if_IsTypedOp (cmd.op == cmd_join_consumer_group) _ _
              (or_skip-IsTypedOp cmd.payload read_join_group join (λ j p e. tt))
              (if_IsTypedOp (cmd.op == cmd_commit_offset) _ _
                (or_skip-IsTypedOp cmd.payload read_commit_offset commit read_commit_offset-Reads)
                (if_IsTypedOp (cmd.op == cmd_clean_inactive) clean skip tt tt))))))

execute-IsTyped :
    (env : Env) (op : Op) (s : ClusterState)
    → IsTypedOp op
    → IsTyped s
    → Leaves IsTyped (execute env op s)
unfolding execute
execute-IsTyped env (register p) s o h = register_broker-IsTyped env p s o h
execute-IsTyped env (heartbeat p) s o h = broker_heartbeat-IsTyped env p s o h
execute-IsTyped env (create p) s o h = create_topic-IsTyped env p s o h
execute-IsTyped env (assign p) s o h = elim (Option-cases (assign_partitions env p s)) [
  | inl e ↦ rw (e, or_panic) tt
  | inr (s', e) ↦ rw (e, or_panic) (assign_partitions-IsTyped env p s s' e o h)
]
execute-IsTyped env (join p) s o h = join_consumer_group-IsTyped env p s h
execute-IsTyped env (commit p) s o h = commit_offset-IsTyped p s o h
execute-IsTyped env clean s o h = clean_inactive-IsTyped env s h
execute-IsTyped env skip s o h = h

-- From a state that is typed, any log of entries, whatever they hold, leads to a state that is
-- typed, unless an entry ends the process: all numbers of brokers, partitions, replicas and
-- generations are below 2^32, ports and offsets are in the range of int32 and int64, and each map
-- holds a key once.
pub replay-IsTyped :
    (log : List (Env × Option Json)) (s s' : ClusterState)
    → IsTyped s
    → replay log s ≡ some s'
    → IsTyped s'
replay-IsTyped = replay_inv IsTyped IsTypedOp op_of-IsTypedOp execute-IsTyped

pub new_fsm-IsTyped : IsTyped new_fsm
new_fsm-IsTyped = record {
  brokers = IsMap-nil;
  topics = IsMap-nil;
  groups = IsMap-nil;
  offsets = IsMap-nil;
}
