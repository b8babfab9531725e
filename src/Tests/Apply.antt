-- ===== src/Tests/Apply.antt =====
-- Tests of Fsm/Apply and Fsm/Replay.
use aero_mq.Prelude.{
  ◌≡◌, refl, ◌↔◌, true, Option, none, some, List, [], ◌∷◌, codes, text_key, nat_key,
}
use aero_mq.Prelude.Int.{pos}
use aero_mq.Fsm.Brokers.{register_broker}
use aero_mq.Json.{
  read_struct, read_field, read_text, read_uint32, read_int32, Json, num, str, obj, end, field,
}
use aero_mq.Fsm.State.{ClusterState, Env, new_fsm}
use aero_mq.Fsm.Commands.{read_command, read_register_broker, cmd_register_broker}
use aero_mq.Fsm.Apply.{Op, assign, done, refused, panicked, apply, execute}
use aero_mq.Fsm.Apply.Panics.{assigns_nil, execute-panicked_iff}
use aero_mq.Fsm.Replay.{replay}
use aero_mq.Tests.Samples.{seconds, broker, cluster, orders_topic, at}

-- {"op": "register_broker", "payload": {"id": 1, "host": "127.0.0.1", "port": 9091}}
abbrev register_1 : Json
register_1 = obj (
    field (codes "op") (str cmd_register_broker) (
      field (codes "payload")
        (obj (
          field (codes "id") (num (pos 1)) (
            field (codes "host") (str (codes "127.0.0.1"))
              (field (codes "port") (num (pos 9091)) end))))
        end))

pub after_register : ClusterState
after_register = record new_fsm { brokers = (1, broker 1 (seconds 2)) ∷ [] }

apply-register : apply (at (seconds 2)) (some register_1) new_fsm ≡ done after_register
unfolding apply after_register read_command read_struct read_field read_text read_register_broker
    read_uint32 read_int32 register_broker
apply-register = refl

apply-malformed : apply (at 0) none cluster ≡ refused
unfolding apply
apply-malformed = refl

abbrev pub log : List (Env × Option Json)
log = (at (seconds 2), some register_1) ∷ (at (seconds 3), none) ∷ []

pub replay-log : replay log new_fsm ≡ some after_register
unfolding replay apply after_register read_command read_struct read_field read_text
    read_register_broker read_uint32 read_int32 register_broker
replay-log = refl

abbrev assign_nil : Op
assign_nil = assign (record { topic = orders_topic; partitions = (0, none) ∷ [] })

execute-panicked_iff_example :
    (execute (at 0) assign_nil cluster ≡ panicked) ↔ (assigns_nil assign_nil cluster ≡ true)
execute-panicked_iff_example = execute-panicked_iff (at 0) assign_nil cluster
