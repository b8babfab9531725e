-- ===== src/Server/Handlers.antt =====
-- The handlers of server.go. Each takes the world before it and gives its answer and the world
-- after it; only a proposal changes the world. A list made of the state is read right after the
-- proposal.
use aero_mq.Prelude.{
  ℕ, ◌+◌, ◌/◌, ◌%◌, Bool, true, false, Option, none, some, List, [], ◌∷◌, ◌++◌, map, ltb, Text,
  codes, nat_key, text_key, ◌==◌, if◌then◌else◌, ◌-◌,
}
use aero_mq.Prelude.Map.{lookup}
use aero_mq.Prelude.Range.{arrange}
use aero_mq.Fsm.State.{ClusterState}
use aero_mq.Fsm.Brokers.{ReplicaOffset}
use aero_mq.Fsm.Commands.{
  cmd_register_broker, cmd_broker_heartbeat, cmd_create_topic, cmd_join_consumer_group,
  cmd_commit_offset, cmd_clean_inactive,
}
use aero_mq.Fsm.Metadata.{get_metadata}
use aero_mq.Consensus.{Raft, propose}
use aero_mq.Json.{null}
use aero_mq.Server.Messages.{
  RegisterBrokerRequest, RegisterBrokerResponse, OffsetReport, HeartbeatRequest, HeartbeatResponse,
  MetadataRequest, MetadataResponse, CreateTopicRequest, CreateTopicResponse, JoinGroupRequest,
  JoinGroupResponse, HeartbeatGroupRequest, GroupStatus, ok_status, rebalance_in_progress,
  unknown_member, CommitOffsetsRequest, CommitOffsetsResponse, TopicPartitionOffset,
  FetchOffsetsRequest,
}
use aero_mq.Server.Payloads.{
  write_register_broker, write_heartbeat, write_create_topic, write_join_group, write_commit_offset,
}
use aero_mq.Server.Listing.{
  Orders, assigned_to, list_brokers, list_topics, member_assignments, fetch_topics,
}

pub data Code : Type 0 where
  unavailable : Code
  internal : Code

-- A response, or the gRPC status of an error.
pub data Answer (A : Type 0) : Type 0 where
  response : A → Answer A
  status : Code → Text → Answer A

abbrev pub hex_digit : ℕ → ℕ
hex_digit n = if ltb n 10 then b'0' + n else b'a' + n - 10

-- `%x` of bytes
unfoldable pub hex : List ℕ → Text
hex [] = []
hex (b ∷ bs) = hex_digit (b / 16) ∷ hex_digit (b % 16) ∷ hex bs

-- The eight bytes are those of crypto/rand.
unfoldable pub generate_member_id : List ℕ → Text
unfolding hex
generate_member_id bytes = codes "member-" ++ hex bytes

unfoldable pub report_of : OffsetReport → ReplicaOffset
report_of ro = record { topic = ro.topic; partition = ro.partition; offset = ro.offset }

abbrev pub missing_group : Text
missing_group = codes "group not found after join proposal"

-- `JoinGroup` from its reading of the state on.
unfoldable pub joined : ClusterState → Text → Text → Answer JoinGroupResponse
joined meta group member = elim (lookup group meta.consumer_groups) [
  | none ↦ status internal missing_group
  | some g ↦ response (record {
    member_id = member;
    generation_id = g.generation;
    assignments = member_assignments meta g member;
  })
]

-- The time that is noted for a member is noted in a copy, which is dropped.
unfoldable pub group_status : ClusterState → HeartbeatGroupRequest → GroupStatus
group_status s req = elim (lookup req.group_id (get_metadata [] s).consumer_groups) [
  | none ↦ unknown_member
  | some g ↦ elim (lookup req.member_id g.members) [
    | none ↦ unknown_member
    | some _ ↦ if g.generation == req.generation_id then ok_status else rebalance_in_progress
  ]
]

unfoldable pub metadata_response : Orders → MetadataRequest → ClusterState → MetadataResponse
metadata_response o req s =
    let meta = get_metadata req.topics s in
    record {
      brokers = list_brokers (arrange o.broker_order meta.brokers);
      topics = list_topics o (arrange o.topic_order meta.topics);
    }

-- The member's own id, or a new one of the random bytes.
abbrev pub member_of : JoinGroupRequest → List ℕ → Text
member_of req bytes = if req.member_id == [] then generate_member_id bytes else req.member_id

module _ {World : Type 0} (raft : Raft World) where
  unfoldable pub check_leader : World → Option Text
  check_leader w =
      if raft.is_leader w
      then none
      else some (codes "node is not the cluster leader; current leader is: " ++ raft.leader w)

  -- A handler that begins with `checkLeader`.
  unfoldable pub as_leader : {A : Type 0} → (World → Answer A × World) → World → Answer A × World
  unfolding check_leader
  as_leader handle w = elim (check_leader w) [
    | some e ↦ (status unavailable e, w)
    | none ↦ handle w
  ]

  unfoldable pub register_broker_rpc :
      RegisterBrokerRequest → World → Answer RegisterBrokerResponse × World
  unfolding as_leader
  register_broker_rpc req = as_leader (λ w.
      let proposed =
        propose raft cmd_register_broker
          (write_register_broker
            (record { id = req.broker_id; host = req.host; port = req.data_port }))
          w in
      elim proposed.0 [
        | some e ↦ (response (record { success = false; message = e }), proposed.1)
        | none ↦ (
          response (record { success = true; message = codes "Broker registered successfully" }),
          proposed.1,
        )
      ])

  unfoldable pub heartbeat_rpc :
      Orders → HeartbeatRequest → World → Answer HeartbeatResponse × World
  unfolding as_leader
  heartbeat_rpc o req = as_leader (λ w.
      let proposed =
        propose raft cmd_broker_heartbeat
          (write_heartbeat
            (record { id = req.broker_id; replica_offsets = map report_of req.replica_offsets }))
          w in
      elim proposed.0 [
        | some e ↦ (status internal (codes "failed to apply heartbeat: " ++ e), proposed.1)
        | none ↦
            let assigned = assigned_to o req.broker_id (get_metadata [] (raft.state proposed.1)) in
            (
              response (record {
                success = true;
                assigned_leaders = assigned.leaders;
                assigned_followers = assigned.followers;
              }),
              proposed.1,
            )
      ])

  unfoldable pub get_metadata_rpc : Orders → MetadataRequest → World → MetadataResponse
  unfolding metadata_response
  get_metadata_rpc o req w = metadata_response o req (raft.state w)

  unfoldable pub create_topic_rpc : CreateTopicRequest → World → Answer CreateTopicResponse × World
  unfolding as_leader
  create_topic_rpc req = as_leader (λ w.
      let proposed =
        propose raft cmd_create_topic
          (write_create_topic (record {
            name = req.topic;
            partitions = req.partitions;
            replication_factor = req.replication_factor;
          }))
          w in
      elim proposed.0 [
        | some e ↦ (response (record { success = false; message = e }), proposed.1)
        | none ↦ (
          response (record {
            success = true;
            message = codes "Topic '" ++ (req.topic ++ codes "' created successfully");
          }),
          proposed.1,
        )
      ])

  unfoldable pub join_group_rpc :
      List ℕ → JoinGroupRequest → World → Answer JoinGroupResponse × World
  unfolding as_leader joined
  join_group_rpc bytes req = as_leader (λ w.
      let member = member_of req bytes in
      let proposed =
        propose raft cmd_join_consumer_group
          (write_join_group
            (record { group_id = req.group_id; member_id = member; topics = req.topics }))
          w in
      elim proposed.0 [
        | some e ↦ (status internal (codes "rebalance/join group failed: " ++ e), proposed.1)
        | none ↦ (joined (get_metadata [] (raft.state proposed.1)) req.group_id member, proposed.1)
      ])

  unfoldable pub heartbeat_group_rpc : HeartbeatGroupRequest → World → GroupStatus
  unfolding group_status
  heartbeat_group_rpc req w = group_status (raft.state w) req

  -- The loop over the request's offsets; it stops at the first error.
  unfoldable pub commit_all : Text → List TopicPartitionOffset → World → Bool × World
  commit_all group [] w = (true, w)
  commit_all group (offset ∷ rest) w =
      let proposed =
        propose raft cmd_commit_offset
          (write_commit_offset (record {
            group_id = group;
            topic = offset.topic;
            partition = offset.partition;
            offset = offset.offset;
          }))
          w in
      elim proposed.0 [ some e ↦ (false, proposed.1) | none ↦ commit_all group rest proposed.1 ]

  unfoldable pub commit_offsets_rpc :
      CommitOffsetsRequest → World → Answer CommitOffsetsResponse × World
  unfolding as_leader commit_all
  commit_offsets_rpc req = as_leader (λ w.
      let committed = commit_all req.group_id req.offsets w in
      (response (record { success = committed.0 }), committed.1))

  unfoldable pub fetch_offsets_rpc :
      Orders → FetchOffsetsRequest → World → List TopicPartitionOffset
  fetch_offsets_rpc o req w = fetch_topics o (raft.state w) req.group_id req.topics

  -- One tick of `startFailureDetection`.
  unfoldable pub detect_failures : World → World
  detect_failures w =
      let proposed = propose raft cmd_clean_inactive null w in
      if raft.is_leader w then proposed.1 else w
