-- ===== src/Fsm/Groups.antt =====
-- The `join_consumer_group` command of fsm.go and `rebalanceGroup`.
pub mod Subscribers
pub mod Counting
pub mod Assignment
pub mod Join
use aero_mq.Prelude.{
  ℕ, ◌+◌, ◌%◌, Option, none, some, List, [], ◌∷◌, ◌++◌, length, get_or, Text, Key, ◌==◌, nat_key,
  text_key,
}
use aero_mq.Prelude.Map.{Map, lookup, insert, keys}
use aero_mq.Prelude.Range.{arrange}
use aero_mq.Fsm.State.{
  PartitionTopic, GroupMember, ConsumerGroupState, TopicState, ClusterState, Env, uint32_mod,
}

module _ {K A : Type 0} ⦃e : Key K⦄ where
  -- `m[k]` for a map of slices; a missing key gives nil.
  abbrev pub slice : K → Map K (List A) → List A
  slice k m = elim (lookup k m) [ none ↦ [] | some xs ↦ xs ]

  -- `m[k] = append(m[k], x)`
  abbrev pub push : K → A → Map K (List A) → Map K (List A)
  push k x m = insert k (slice k m ++ x ∷ []) m

-- The loop over one member's topics.
unfoldable pub subscribe : Text → List Text → Map Text (List Text) → Map Text (List Text)
subscribe member [] m = m
subscribe member (topic ∷ rest) m = subscribe member rest (push topic member m)

-- The loop over the members, which builds `topicToMembers`.
unfoldable pub subscribers : Map Text GroupMember → Map Text (List Text) → Map Text (List Text)
unfolding subscribe
subscribers [] m = m
subscribers ((id, member) ∷ rest) m = subscribers rest (subscribe id member.topics m)

-- `memberIDs[int(pID)%len(memberIDs)]`, on a slice that is not empty
abbrev pub owner : List Text → ℕ → Text
owner members p = get_or members (p % length members) []

-- The loop over the partitions of one topic.
unfoldable pub assign_topic :
    Text → List Text → List ℕ → Map Text (List PartitionTopic) → Map Text (List PartitionTopic)
assign_topic topic members [] m = m
assign_topic topic members (p ∷ ps) m =
    assign_topic topic members ps
      (push (owner members p) (record { topic = topic; partition = p }) m)

-- One round of the loop over `topicToMembers`.
unfoldable pub assign_round :
    Env
    → Map Text TopicState
    → Text
    → List Text
    → Map Text (List PartitionTopic)
    → Map Text (List PartitionTopic)
unfolding assign_topic
assign_round env topics topic [] m = m
assign_round env topics topic (member ∷ rest) m = elim (lookup topic topics) [
  | none ↦ m
  | some t ↦
      assign_topic topic (member ∷ rest) (keys (arrange (env.partition_orders topic) t.partitions))
        m
]

unfoldable pub assign_all :
    Env
    → Map Text TopicState
    → Map Text (List Text)
    → Map Text (List PartitionTopic)
    → Map Text (List PartitionTopic)
assign_all env topics [] m = m
assign_all env topics ((topic, members) ∷ rest) m =
    assign_all env topics rest (assign_round env topics topic members m)

unfoldable pub rebalance_group : Env → Map Text TopicState → ConsumerGroupState → ConsumerGroupState
unfolding subscribers assign_all
rebalance_group env topics g =
    let topic_to_members = subscribers (arrange env.member_order g.members) [] in
    record g {
      generation = (g.generation + 1) % uint32_mod;
      assignments = assign_all env topics (arrange env.subscription_order topic_to_members) [];
    }

pub record JoinGroupPayload : Type 0 where
  pub group_id : Text
  pub member_id : Text
  pub topics : List Text

abbrev pub new_group : Text → ConsumerGroupState
new_group id = record { group_id = id; generation = 0; members = []; assignments = [] }

-- The group that a join starts from.
abbrev pub group_before : JoinGroupPayload → ClusterState → ConsumerGroupState
group_before payload s = elim (lookup payload.group_id s.consumer_groups) [
  | none ↦ new_group payload.group_id
  | some g ↦ g
]

abbrev pub joined_member : Env → JoinGroupPayload → GroupMember
joined_member env payload = record {
  id = payload.member_id;
  topics = payload.topics;
  last_seen = env.now;
}

unfoldable pub join_consumer_group : Env → JoinGroupPayload → ClusterState → ClusterState
join_consumer_group env payload s =
    let g = group_before payload s in
    let joined = record g {
      members = insert payload.member_id (joined_member env payload) g.members;
    } in
    record s {
      consumer_groups =
          insert payload.group_id (rebalance_group env s.topics joined) s.consumer_groups;
    }
