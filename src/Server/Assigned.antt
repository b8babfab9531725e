-- ===== src/Server/Assigned.antt =====
-- What `Heartbeat` tells a broker to lead and to follow.
use mathlib.Core.Option
use aero_mq.Prelude.{
  ℕ, ◌≡◌, refl, ◌∙◌, ap, Bool, false, not, ◌&&◌, ◌||◌, Option, none, some, List, [], ◌∷◌, Text,
  text_key, nat_key, contains, Distinct, ◌==◌, arith, text_beq_iff, nat_beq_iff,
}
use aero_mq.Prelude.Map.{Map, lookup, keys}
use aero_mq.Prelude.Range.{arrange}
use aero_mq.Prelude.Entries.{IsMap, tail-IsMap, arrange-IsMap}
use aero_mq.Prelude.Range.{Order}
use mathlib.Core.Path.{subst, sym}
use aero_mq.Prelude.Arranged.{lookup-arrange, arrange-Distinct, keys-arrange, lookup_absent}
use aero_mq.Fsm.State.{PartitionState, TopicState, ClusterState}
use aero_mq.Fsm.State.Lookup.{find_in, find_partition}
use aero_mq.Fsm.Metadata.{copy_topic, copy_topics, copy_partition, is_left_out, get_metadata}
use aero_mq.Fsm.Metadata.Copy.{with_made, find_partition-get_metadata}
use aero_mq.Prelude.Entries.{map_entries-IsMap}
use aero_mq.Prelude.Map.{map_entries, keys-map_entries}
use aero_mq.Server.Messages.{PartitionAssignment}
use aero_mq.Server.Listing.{Orders, Assigned, assign_partitions_of, assign_topics, assigned_to}

-- Whether a list of assignments names a partition.
abbrev pub lists : Text → ℕ → List PartitionAssignment → Bool
lists topic p [] = false
lists topic p (a ∷ rest) = (topic == a.topic && p == a.partition) || lists topic p rest

-- Whether a partition that was looked up has a broker as its leader, or only as a replica.
abbrev pub leads : ℕ → Option PartitionState → Bool
leads id none = false
leads id (some partition) = partition.leader_id == id

abbrev pub follows : ℕ → Option PartitionState → Bool
follows id none = false
follows id (some partition) = not (partition.leader_id == id) && contains id partition.replica_ids

leaders-assign_partitions_of :
    (id : ℕ) (topic t : Text) (p : ℕ) (m : Map ℕ PartitionState) (later : Assigned)
    → Distinct (keys m)
    → lists t p (assign_partitions_of id topic m later).leaders
      ≡ ((t == topic && leads id (lookup p m)) || lists t p later.leaders)
unfolding assign_partitions_of
leaders-assign_partitions_of id topic t p [] later d = ground arith
leaders-assign_partitions_of id topic t p ((q, partition) ∷ m) later d = ground (
  arith,
  nat_beq_iff p q,
  lookup_absent q m,
  leaders-assign_partitions_of id topic t p m later d.1,
)

followers-assign_partitions_of :
    (id : ℕ) (topic t : Text) (p : ℕ) (m : Map ℕ PartitionState) (later : Assigned)
    → Distinct (keys m)
    → lists t p (assign_partitions_of id topic m later).followers
      ≡ ((t == topic && follows id (lookup p m)) || lists t p later.followers)
unfolding assign_partitions_of
followers-assign_partitions_of id topic t p [] later d = ground arith
followers-assign_partitions_of id topic t p ((q, partition) ∷ m) later d = ground (
  arith,
  nat_beq_iff p q,
  lookup_absent q m,
  followers-assign_partitions_of id topic t p m later d.1,
)

-- A map of topics whose maps hold a key once.
abbrev pub AreTopics : Map Text TopicState → Type 0
AreTopics topics = IsMap (λ _ t. Distinct (keys t.partitions)) topics

arranged-Distinct :
    (o : Order) (m : Map ℕ PartitionState) → Distinct (keys m) → Distinct (keys (arrange o m))
arranged-Distinct o m d = subst Distinct (sym (keys-arrange o m)) (arrange-Distinct o (keys m) d)

head_Distinct :
    (topic : Text) (t : TopicState) (rest : Map Text TopicState)
    → AreTopics ((topic, t) ∷ rest)
    → Distinct (keys t.partitions)
head_Distinct topic t rest h = h.each topic t (ground (arith, text_beq_iff topic topic))

leaders-assign_topics :
    (o : Orders) (id : ℕ) (t : Text) (p : ℕ) (topics : Map Text TopicState)
    → AreTopics topics
    → lists t p (assign_topics o id topics).leaders ≡ leads id (find_partition t p topics)
unfolding assign_topics
leaders-assign_topics o id t p [] h = refl
leaders-assign_topics o id t p ((topic, x) ∷ rest) h =
    let d = head_Distinct topic x rest h in
    ground (
      arith,
      leaders-assign_partitions_of id topic t p (arrange (o.partition_orders topic) x.partitions)
          (assign_topics o id rest) (arranged-Distinct (o.partition_orders topic) x.partitions d),
      lookup-arrange p (o.partition_orders topic) x.partitions d,
      leaders-assign_topics o id t p rest (tail-IsMap topic x rest h),
      lookup_absent topic rest h.distinct.0,
      text_beq_iff t topic,
    )

followers-assign_topics :
    (o : Orders) (id : ℕ) (t : Text) (p : ℕ) (topics : Map Text TopicState)
    → AreTopics topics
    → lists t p (assign_topics o id topics).followers ≡ follows id (find_partition t p topics)
unfolding assign_topics
followers-assign_topics o id t p [] h = refl
followers-assign_topics o id t p ((topic, x) ∷ rest) h =
    let d = head_Distinct topic x rest h in
    ground (
      arith,
      followers-assign_partitions_of id topic t p (arrange (o.partition_orders topic) x.partitions)
          (assign_topics o id rest) (arranged-Distinct (o.partition_orders topic) x.partitions d),
      lookup-arrange p (o.partition_orders topic) x.partitions d,
      followers-assign_topics o id t p rest (tail-IsMap topic x rest h),
      lookup_absent topic rest h.distinct.0,
      text_beq_iff t topic,
    )

copy_all : (m : Map Text TopicState) → copy_topics [] m ≡ map_entries (λ _ t. copy_topic t) m
unfolding copy_topics is_left_out
copy_all [] = refl
copy_all ((k, t) ∷ m) = ap (λ r. (k, copy_topic t) ∷ r) (copy_all m)

copy_topics-AreTopics : (m : Map Text TopicState) → AreTopics m → AreTopics (copy_topics [] m)
unfolding copy_topic
copy_topics-AreTopics m h = subst AreTopics (sym (copy_all m)) (
    map_entries-IsMap (λ _ t. copy_topic t) m
      (λ k t d. subst Distinct (sym (keys-map_entries (λ _ p. copy_partition p) t.partitions)) d) h)

-- The brokers' roles are those of the copied partition.
copied_roles :
    (id : ℕ) (o : Option PartitionState)
    → (leads id (Option.map with_made o) ≡ leads id o)
      × (follows id (Option.map with_made o) ≡ follows id o)
copied_roles id none = (refl, refl)
copied_roles id (some p) = (refl, refl)

pub assigned_to_iff :
    (o : Orders) (id : ℕ) (s : ClusterState) (t : Text) (p : ℕ)
    → AreTopics s.topics
    → (lists t p (assigned_to o id (get_metadata [] s)).leaders
        ≡ leads id (find_partition t p s.topics))
      × (lists t p (assigned_to o id (get_metadata [] s)).followers
          ≡ follows id (find_partition t p s.topics))
unfolding assigned_to get_metadata is_left_out
assigned_to_iff o id s t p h =
    let h' =
      arrange-IsMap o.topic_order (copy_topics [] s.topics) (copy_topics-AreTopics s.topics h) in
    let found : find_partition t p (arrange o.topic_order (copy_topics [] s.topics))
        ≡ Option.map with_made (find_partition t p s.topics) =
      ap (find_in p) (
        lookup-arrange t o.topic_order (copy_topics [] s.topics)
          (copy_topics-AreTopics s.topics h).distinct)
      ∙ find_partition-get_metadata [] s t p in
    let roles = copied_roles id (find_partition t p s.topics) in
    (
      leaders-assign_topics o id t p (arrange o.topic_order (copy_topics [] s.topics)) h'
          ∙ ap (leads id) found
          ∙ roles.0,
      followers-assign_topics o id t p (arrange o.topic_order (copy_topics [] s.topics)) h'
          ∙ ap (follows id) found
          ∙ roles.1,
    )
