-- ===== src/Tests/Runs.antt =====
-- Tests of Controller/Runs.
use aero_mq.Prelude.{◌≡◌, refl, some, List, [], codes, text_key, nat_key, true, ◌∷◌}
use aero_mq.Prelude.Int.{pos}
use aero_mq.Fsm.State.{ClusterState, new_fsm}
use aero_mq.Fsm.Replay.{replay}
use aero_mq.Fsm.WellFormed.{IsWellFormed}
use aero_mq.Fsm.Typed.{IsTyped}
use aero_mq.Fsm.Apply.{apply}
use aero_mq.Fsm.Commands.{read_command, read_commit_offset, read_create_topic}
use aero_mq.Json.{read_struct, read_field, read_text, read_uint32, read_int64}
use aero_mq.Server.Payloads.{write_commit_offset, write_create_topic}
use aero_mq.Consensus.{propose}
use aero_mq.Consensus.Log.{Entry}
use aero_mq.Consensus.Overtaken.{AddsByLog, Overtaken-refl}
use aero_mq.Server.Messages.{RegisterBrokerRequest, CreateTopicRequest, CommitOffsetsRequest}
use aero_mq.Server.Handlers.{
  response, commit_all, as_leader, check_leader, commit_offsets_rpc, register_broker_rpc,
  create_topic_rpc, join_group_rpc, detect_failures,
}
use aero_mq.Server.Commits.{Committed, commit_offsets_rpc-Committed}
use aero_mq.Controller.Runs.{
  Run, starts, continues, registers, creates, joins_group, ticks, run-replays,
}
use aero_mq.Prelude.{arith}
use aero_mq.Fsm.Lasting.{HasTopic}
use aero_mq.Controller.Durable.{create_topic_rpc-HasTopic}
use aero_mq.Tests.Samples.{orders_topic}
use aero_mq.Tests.Node.{node, node-Replicates, bob_joins}

node-AddsByLog : AddsByLog node
node-AddsByLog id addr w = Overtaken-refl node w

abbrev broker_1 : RegisterBrokerRequest
broker_1 = record { broker_id = 1; host = codes "127.0.0.1"; data_port = pos 9091 }

abbrev new_topic : CreateTopicRequest
new_topic = record { topic = orders_topic; partitions = 2; replication_factor = 1 }

abbrev registered : ClusterState
registered = (register_broker_rpc node broker_1 new_fsm).1

abbrev created : ClusterState
created = (create_topic_rpc node new_topic registered).1

abbrev grouped : ClusterState
grouped = (join_group_rpc node [] bob_joins created).1

-- A broker registers, a topic is created, a consumer joins a group, and the failure detection ticks.
run : Run node new_fsm (detect_failures node grouped)
run =
    continues new_fsm grouped (detect_failures node grouped)
      (continues new_fsm created grouped
        (continues new_fsm registered created
          (continues new_fsm new_fsm registered (starts new_fsm) (registers broker_1 new_fsm))
          (creates new_topic registered))
        (joins_group [] bob_joins created))
      (ticks grouped)

run-replays_example :
    (log : List Entry) × (replay log new_fsm ≡ some (detect_failures node grouped))
    × IsWellFormed (detect_failures node grouped)
    × IsTyped (detect_failures node grouped)
run-replays_example = run-replays node node-Replicates node-AddsByLog refl run

-- Two offsets of one request.
abbrev both : CommitOffsetsRequest
both = record {
  group_id = codes "readers";
  member_id = codes "bob";
  generation_id = 1;
  offsets =
      (record { topic = orders_topic; partition = 0; offset = pos 7 })
      ∷ (record { topic = orders_topic; partition = 1; offset = pos 9 })
      ∷ [];
}

abbrev after_both : ClusterState
after_both = (commit_offsets_rpc node both new_fsm).1

succeeds : commit_offsets_rpc node both new_fsm ≡ (response (record { success = true }), after_both)
unfolding commit_offsets_rpc commit_all as_leader check_leader propose apply read_command
    read_struct read_field read_text read_commit_offset write_commit_offset read_uint32 read_int64
succeeds = refl

commit_offsets_rpc-Committed_example : Committed node both.group_id both.offsets new_fsm after_both
commit_offsets_rpc-Committed_example =
    commit_offsets_rpc-Committed node both new_fsm after_both node-Replicates succeeds

confirms : create_topic_rpc node new_topic registered ≡ (
  response (record { success = true; message = codes "Topic 'orders' created successfully" }),
  created,
)
unfolding create_topic_rpc as_leader check_leader propose apply read_command read_struct read_field
    read_text read_create_topic write_create_topic read_uint32
confirms = refl

create_topic_rpc-HasTopic_example : HasTopic orders_topic (detect_failures node grouped)
create_topic_rpc-HasTopic_example =
    create_topic_rpc-HasTopic node new_topic (codes "Topic 'orders' created successfully")
      registered created (detect_failures node grouped) node-Replicates node-AddsByLog (omega arith)
      (omega arith) confirms
      (continues created grouped (detect_failures node grouped)
        (continues created created grouped (starts created) (joins_group [] bob_joins created))
        (ticks grouped))
