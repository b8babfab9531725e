-- ===== src/Fsm/Typed/Groups.antt =====
-- Groups and committed offsets keep every value in the range of its type.
use aero_mq.Prelude.{
  ℕ, Option-cases, inl, inr, List, [], ◌∷◌, ◌++◌, All, All-append, Text, nat_key, text_key, arith,
}
use aero_mq.Prelude.Map.{Map, lookup, insert, keys, insert-Distinct}
use aero_mq.Prelude.Range.{arrange}
use aero_mq.Prelude.Entries.{IsMap, IsMap-nil, insert-IsMap, arrange-IsMap}
use aero_mq.Fsm.State.{PartitionTopic, TopicState, ClusterState, Env}
use aero_mq.Fsm.Groups.{
  slice, push, owner, assign_topic, assign_round, assign_all, rebalance_group, JoinGroupPayload,
  group_before, joined_member, join_consumer_group, subscribers,
}
use aero_mq.Fsm.Offsets.{CommitOffsetPayload, commit_offset}
use aero_mq.Fsm.Typed.{IsUint32, IsInt64, IsTypedTopic, IsTypedPair, IsTypedGroup, IsTyped}
use aero_mq.Fsm.Typed.Steps.{keys-All}

-- The assignments of a group.
abbrev AreAssignments : Map Text (List PartitionTopic) → Type 0
AreAssignments m = IsMap (λ _ pts. All IsTypedPair pts) m

slice-All :
    (k : Text) (m : Map Text (List PartitionTopic)) → AreAssignments m → All IsTypedPair (slice k m)
slice-All k m h = elim (Option-cases (lookup k m)) [
  | inl n ↦ rw (n, slice) tt
  | inr (pts, n) ↦ rw (n, slice) (h.each k pts n)
]

push-AreAssignments :
    (k : Text) (pt : PartitionTopic) (m : Map Text (List PartitionTopic))
    → IsTypedPair pt
    → AreAssignments m
    → AreAssignments (push k pt m)
push-AreAssignments k pt m u h =
    insert-IsMap k (slice k m ++ pt ∷ []) m
      (All-append IsTypedPair (slice k m) (pt ∷ []) (slice-All k m h) (u, tt)) h

assign_topic-AreAssignments :
    (topic : Text) (members : List Text) (ps : List ℕ) (m : Map Text (List PartitionTopic))
    → All IsUint32 ps
    → AreAssignments m
    → AreAssignments (assign_topic topic members ps m)
unfolding assign_topic
assign_topic-AreAssignments topic members [] m u h = h
assign_topic-AreAssignments topic members (p ∷ ps) m u h =
    assign_topic-AreAssignments topic members ps _ u.1
      (push-AreAssignments (owner members p) (record { topic = topic; partition = p }) m u.0 h)

assign_round-AreAssignments :
    (env : Env) (topics : Map Text TopicState) (topic : Text) (members : List Text)
    (m : Map Text (List PartitionTopic))
    → IsMap IsTypedTopic topics
    → AreAssignments m
    → AreAssignments (assign_round env topics topic members m)
unfolding assign_round
assign_round-AreAssignments env topics topic [] m w h = h
assign_round-AreAssignments env topics topic (member ∷ rest) m w h =
    elim (Option-cases (lookup topic topics)) [
      | inl n ↦ rw (n, assign_round) h
      | inr (t, n) ↦
          let o = env.partition_orders topic in
          rw (n, assign_round)
            (assign_topic-AreAssignments topic (member ∷ rest) (keys (arrange o t.partitions)) m
              (keys-All (arrange o t.partitions) (λ k p q. q.key)
                (arrange-IsMap o t.partitions (w.each topic t n)))
              h)
    ]

assign_all-AreAssignments :
    (env : Env) (topics : Map Text TopicState) (to_members : Map Text (List Text))
    (m : Map Text (List PartitionTopic))
    → IsMap IsTypedTopic topics
    → AreAssignments m
    → AreAssignments (assign_all env topics to_members m)
unfolding assign_all
assign_all-AreAssignments env topics [] m w h = h
assign_all-AreAssignments env topics ((topic, members) ∷ rest) m w h =
    assign_all-AreAssignments env topics rest _ w
      (assign_round-AreAssignments env topics topic members m w h)

group_before-IsTyped :
    (p : JoinGroupPayload) (s : ClusterState)
    → IsTyped s
    → IsTypedGroup p.group_id (group_before p s)
group_before-IsTyped p s h = elim (Option-cases (lookup p.group_id s.consumer_groups)) [
  | inl n ↦
      rw (n, group_before)
        (record { generation = omega arith; members = tt; assignments = IsMap-nil })
  | inr (g, n) ↦ rw (n, group_before) (h.groups.each p.group_id g n)
]

pub join_consumer_group-IsTyped :
    (env : Env) (p : JoinGroupPayload) (s : ClusterState)
    → IsTyped s
    → IsTyped (join_consumer_group env p s)
unfolding join_consumer_group rebalance_group
join_consumer_group-IsTyped env p s h =
    let g = group_before-IsTyped p s h in
    record {
      brokers = h.brokers;
      topics = h.topics;
      groups =
          insert-IsMap p.group_id _ s.consumer_groups
            (record {
              generation = omega arith;
              members =
                  insert-Distinct p.member_id (joined_member env p) (group_before p s).members
                    g.members;
              assignments =
                  assign_all-AreAssignments env s.topics
                    (arrange env.subscription_order (
                      subscribers
                        (arrange env.member_order
                          (insert p.member_id (joined_member env p) (group_before p s).members))
                        []))
                    [] h.topics IsMap-nil;
            })
            h.groups;
      offsets = h.offsets;
    }

pub commit_offset-IsTyped :
    (p : CommitOffsetPayload) (s : ClusterState)
    → IsInt64 p.offset
    → IsTyped s
    → IsTyped (commit_offset p s)
unfolding commit_offset
commit_offset-IsTyped p s o h = record {
  brokers = h.brokers;
  topics = h.topics;
  groups = h.groups;
  offsets = insert-IsMap _ p.offset s.offsets o h.offsets;
}
