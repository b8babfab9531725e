-- ===== src/Server/Groups.antt =====
-- `HeartbeatGroup` after a member has joined.
use aero_mq.Prelude.{
  ℕ, ◌+◌, ◌%◌, ◌≡◌, Option, none, some, Text, text_key, nat_key, ◌||◌, ◌==◌, if◌then◌else◌, arith,
  text_beq_iff, [],
}
use aero_mq.Prelude.Map.{lookup, insert, lookup-insert}
use aero_mq.Fsm.State.{ClusterState, ConsumerGroupState, Env, uint32_mod}
use aero_mq.Fsm.Groups.{
  JoinGroupPayload, join_consumer_group, rebalance_group, group_before, joined_member,
}
use aero_mq.Fsm.Known.{is_some}
use aero_mq.Fsm.Metadata.Copy.{get_metadata-copies}
use aero_mq.Server.Messages.{
  HeartbeatGroupRequest, GroupStatus, ok_status, rebalance_in_progress, unknown_member,
}
use aero_mq.Server.Handlers.{group_status}

-- The status that a group's fields give.
abbrev pub status_in : Option ConsumerGroupState → HeartbeatGroupRequest → GroupStatus
status_in none req = unknown_member
status_in (some g) req = elim (lookup req.member_id g.members) [
  | none ↦ unknown_member
  | some _ ↦ if g.generation == req.generation_id then ok_status else rebalance_in_progress
]

group_status-copy :
    (s : ClusterState) (req : HeartbeatGroupRequest)
    → group_status s req ≡ status_in (lookup req.group_id s.consumer_groups) req
unfolding group_status
group_status-copy s req = rw ((get_metadata-copies [] s).1, group_status) (ground arith)

-- Once a member has joined, a heartbeat for its group is answered OK for that member and for those
-- that were in the group, if it names the generation after the one before the join, and that a
-- rebalance is in progress if it names another generation; others are unknown members.
pub group_status-join_consumer_group :
    (env : Env) (payload : JoinGroupPayload) (s : ClusterState) (member : Text) (generation : ℕ)
    → group_status
        (join_consumer_group env payload s)
        (record { group_id = payload.group_id; member_id = member; generation_id = generation })
      ≡ (if member == payload.member_id || is_some (lookup member (group_before payload s).members)
          then (if ((group_before payload s).generation + 1) % uint32_mod == generation
              then ok_status
              else rebalance_in_progress)
          else unknown_member)
unfolding join_consumer_group rebalance_group
group_status-join_consumer_group env payload s member generation = ground (
  arith,
  group_status-copy (join_consumer_group env payload s)
      (record { group_id = payload.group_id; member_id = member; generation_id = generation }),
  lookup-insert payload.group_id payload.group_id
      (rebalance_group env s.topics (record (group_before payload s) {
        members =
            insert payload.member_id (joined_member env payload) (group_before payload s).members;
      }))
      s.consumer_groups,
  text_beq_iff payload.group_id payload.group_id,
  lookup-insert payload.member_id member (joined_member env payload)
      (group_before payload s).members,
)
