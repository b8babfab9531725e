-- ===== src/Tests/Server.antt =====
-- Tests of Consensus and Server, on a raft of one node that applies each entry at once.
use aero_mq.Prelude.{◌≡◌, refl, true, some, [], ◌∷◌, codes, text_key, nat_key, arith}
use aero_mq.Prelude.Int.{pos}
use aero_mq.Fsm.State.{ClusterState}
use aero_mq.Fsm.State.Lookup.{find_partition}
use aero_mq.Fsm.Apply.{apply, create}
use aero_mq.Server.Messages.{HeartbeatRequest, CreateTopicRequest}
use aero_mq.Server.Handlers.{heartbeat_rpc, join_group_rpc}
use aero_mq.Client.Answered.{find_listed, described, get_metadata_rpc-found}
use aero_mq.Client.Leader.{find_broker}
use aero_mq.Client.Leader.Listed.{info_of}
use aero_mq.Fsm.Failover.{is_active}
use aero_mq.Server.Handlers.{get_metadata_rpc}
use aero_mq.Tests.Samples.{partition_0}
use aero_mq.Server.Heartbeats.{heartbeat_rpc-assigned}
use aero_mq.Server.Groups.{group_status-join_consumer_group}
use aero_mq.Server.Written.{apply-written}
use aero_mq.Server.Joins.{join_group_rpc-Found}
use aero_mq.Fsm.Metadata.{get_metadata, is_left_out}
use aero_mq.Fsm.Groups.{JoinGroupPayload, join_consumer_group}
use aero_mq.Fsm.Brokers.{broker_heartbeat}
use aero_mq.Fsm.Offsets.{commit_offset}
use aero_mq.Fsm.Commands.{cmd_create_topic}
use aero_mq.Consensus.Encode.{write_command}
use aero_mq.Server.Payloads.{write_create_topic}
use aero_mq.Server.Messages.{HeartbeatResponse, rebalance_in_progress}
use aero_mq.Server.Handlers.{Answer, response, status, unavailable, group_status, create_topic_rpc}
use aero_mq.Server.Assigned.{lists, leads, follows}
use aero_mq.Server.Joins.{Found}
use aero_mq.Fsm.Apply.{Op, execute}
use aero_mq.Prelude.Entries.{insert-IsMap, IsMap-nil}
use aero_mq.Prelude.Range.{arrange}
use aero_mq.Fsm.WellFormed.{IsWellFormed}
use aero_mq.Fsm.Replication.{update_isr_and_hw, refresh_partition}
use aero_mq.Fsm.Brokers.{report_offsets}
use aero_mq.Fsm.Metadata.{copy_topics, copy_topic, copy_partition}
use aero_mq.Fsm.Commands.{read_command, read_heartbeat, read_replica_offset}
use aero_mq.Fsm.Apply.{op_of}
use aero_mq.Json.{
  read_struct, read_field, find_field, read_text, read_uint32, read_int64, read_num, read_list,
  read_items,
}
use aero_mq.Consensus.{propose}
use aero_mq.Json.Encode.{write_list, write_items}
use aero_mq.Server.Payloads.{write_heartbeat, write_replica_offset}
use aero_mq.Server.Handlers.{as_leader, check_leader, report_of}
use aero_mq.Server.Listing.{assigned_to, assign_topics, assign_partitions_of}
use aero_mq.Tests.Samples.{broker, orders, readers, alice, bob, cluster, at, orders_topic, seconds}
use aero_mq.Tests.Node.{node, follower, node-Replicates, orders_as_they_stand, bob_joins}

abbrev bob_joins_readers : JoinGroupPayload
bob_joins_readers = record {
  group_id = codes "readers";
  member_id = codes "bob";
  topics = orders_topic ∷ [];
}

group_status-join_consumer_group_example :
    group_status
      (join_consumer_group (at 0) bob_joins_readers cluster)
      (record { group_id = codes "readers"; member_id = codes "alice"; generation_id = 3 })
    ≡ rebalance_in_progress
group_status-join_consumer_group_example =
    group_status-join_consumer_group (at 0) bob_joins_readers cluster (codes "alice") 3

abbrev beat : HeartbeatRequest
beat = record {
  broker_id = 1;
  disk_usage_bytes = 0;
  disk_free_bytes = 0;
  replica_offsets = record { topic = orders_topic; partition = 0; offset = pos 41 } ∷ [];
}

abbrev led_orders : HeartbeatResponse
led_orders = record {
  success = true;
  assigned_leaders =
      record { topic = orders_topic; partition = 0; leader_id = 1; replica_ids = 1 ∷ 2 ∷ [] } ∷ [];
  assigned_followers = [];
}

abbrev after_beat : ClusterState
after_beat =
    broker_heartbeat (at (seconds 10))
      (record {
        id = 1;
        replica_offsets = record { topic = orders_topic; partition = 0; offset = pos 41 } ∷ [];
      })
      cluster

pub cluster-IsWellFormed : IsWellFormed cluster
cluster-IsWellFormed = record {
  brokers =
      insert-IsMap 2 (broker 2 (seconds 5)) ((1, broker 1 0) ∷ []) refl
        (insert-IsMap 1 (broker 1 0) [] refl IsMap-nil);
  topics = insert-IsMap orders_topic orders [] (refl, (refl, tt)) IsMap-nil;
  groups =
      insert-IsMap (codes "readers") readers []
        (
          refl,
          insert-IsMap (codes "bob") bob ((codes "alice", alice) ∷ []) refl
              (insert-IsMap (codes "alice") alice [] refl IsMap-nil),
        )
        IsMap-nil;
  offsets = tt;
}

answered : heartbeat_rpc node orders_as_they_stand beat cluster ≡ (response led_orders, after_beat)
unfolding heartbeat_rpc as_leader check_leader propose write_command write_heartbeat
    write_replica_offset write_list write_items report_of apply read_command read_struct read_field
    find_field read_text read_uint32 read_int64 read_num read_list read_items read_heartbeat
    read_replica_offset op_of execute assigned_to assign_topics assign_partitions_of get_metadata
    copy_topics is_left_out copy_topic copy_partition arrange broker_heartbeat report_offsets
    update_isr_and_hw refresh_partition
answered = refl

heartbeat_rpc-assigned_example :
    (lists orders_topic 0 led_orders.assigned_leaders
      ≡ leads 1 (find_partition orders_topic 0 after_beat.topics))
    × (lists orders_topic 0 led_orders.assigned_followers
        ≡ follows 1 (find_partition orders_topic 0 after_beat.topics))
heartbeat_rpc-assigned_example =
    heartbeat_rpc-assigned node orders_as_they_stand beat cluster after_beat led_orders
      node-Replicates cluster-IsWellFormed answered orders_topic 0

abbrev new_topic : CreateTopicRequest
new_topic = record { topic = codes "new"; partitions = 1; replication_factor = 1 }

abbrev refused_with : {A : Type 0} → Answer A × ClusterState
refused_with = (
  status unavailable (codes "node is not the cluster leader; current leader is: 127.0.0.1:7001"),
  cluster,
)

follower_refuses : create_topic_rpc follower new_topic cluster ≡ refused_with
unfolding create_topic_rpc as_leader check_leader
follower_refuses = refl

-- Offset 7 is committed, and the high watermark is 0.
abbrev committed : ClusterState
committed =
    commit_offset
      (record { group_id = codes "readers"; topic = orders_topic; partition = 0; offset = pos 7 })
      cluster

abbrev create_orders : Op
create_orders = create (record { name = codes "new"; partitions = 2; replication_factor = 2 })

apply-written_example :
    apply
      (at 0)
      (some (
        write_command cmd_create_topic (
          write_create_topic
            (record { name = codes "new"; partitions = 2; replication_factor = 2 }))))
      cluster
    ≡ execute (at 0) create_orders cluster
apply-written_example = apply-written (at 0) create_orders cluster refl (omega arith, omega arith)

join_group_rpc-Found_example : Found (join_group_rpc node [] bob_joins cluster).0
join_group_rpc-Found_example =
    join_group_rpc-Found node [] bob_joins cluster (join_group_rpc node [] bob_joins cluster).1
      (join_group_rpc node [] bob_joins cluster).0 node-Replicates refl

get_metadata_rpc-found_example :
    let answer =
      get_metadata_rpc node orders_as_they_stand
        (record { topics = codes "other" ∷ orders_topic ∷ [] })
        cluster in
    (find_listed orders_topic 0 answer.topics ≡ some (described 0 partition_0))
    × (find_broker 2 answer.brokers ≡ some (info_of (broker 2 (seconds 5))))
unfolding is_active
get_metadata_rpc-found_example =
    get_metadata_rpc-found node orders_as_they_stand
      (record { topics = codes "other" ∷ orders_topic ∷ [] }) cluster orders_topic 0 2
      cluster-IsWellFormed
