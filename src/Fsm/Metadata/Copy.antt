-- ===== src/Fsm/Metadata/Copy.antt =====
-- What `GetMetadata` copies.
use mathlib.Core.Option
use aero_mq.Prelude.{
  true, false, Bool-cases, inl, inr, text_beq_iff, ap, ◌∙◌, ◌==◌, ℕ, ◌≡◌, refl, Option, none, some,
  List, [], ◌∷◌, Text, text_key, nat_key, if◌then◌else◌, arith, ap, Bool-cases, ◌∙◌, ◌==◌, inl,
}
use aero_mq.Prelude.Map.{Map, lookup, map_entries, lookup-map_entries}
use aero_mq.Fsm.State.{
  PartitionState, TopicState, GroupMember, ConsumerGroupState, BrokerStatus, ClusterState, made,
}
use aero_mq.Fsm.State.Lookup.{find_partition, find_in}
use aero_mq.Fsm.Metadata.{
  copy_broker, copy_partition, copy_topic, is_left_out, copy_topics, copy_member, copy_group,
  get_metadata, Bool,
}

-- A copy of every entry is the map itself.
pub map_entries_id : {K V : Type 0} (m : Map K V) → map_entries (λ _ v. v) m ≡ m
map_entries_id [] = refl
map_entries_id ((k, v) ∷ m) = rw (map_entries_id m)

copy_brokers_id : (m : Map ℕ BrokerStatus) → map_entries (λ _ b. copy_broker b) m ≡ m
unfolding copy_broker
copy_brokers_id m = map_entries_id m

copy_members_id : (m : Map Text GroupMember) → map_entries (λ _ b. copy_member b) m ≡ m
unfolding copy_member
copy_members_id m = map_entries_id m

pub copy_group_id : (g : ConsumerGroupState) → copy_group g ≡ g
unfolding copy_group
copy_group_id g = rw (copy_members_id g.members, map_entries_id g.assignments)

copy_groups_id : (m : Map Text ConsumerGroupState) → map_entries (λ _ g. copy_group g) m ≡ m
copy_groups_id [] = refl
copy_groups_id ((k, g) ∷ m) = rw (copy_groups_id m, copy_group_id g)

pub copy_partition_lem :
    (p : PartitionState)
    → copy_partition p ≡ record p { replica_offsets = some (made p.replica_offsets) }
unfolding copy_partition
copy_partition_lem p = rw (map_entries_id (made p.replica_offsets))

pub lookup-copy_topics :
    (wanted : List Text) (k : Text) (m : Map Text TopicState)
    → lookup k (copy_topics wanted m)
      ≡ (if is_left_out wanted k then none else Option.map copy_topic (lookup k m))
unfolding copy_topics
lookup-copy_topics wanted k [] = ground arith
lookup-copy_topics wanted k ((j, t) ∷ m) = elim (Bool-cases (k == j)) [
  | inl e ↦
      rw ((text_beq_iff k j).0 e) (ground (arith, text_beq_iff j j, lookup-copy_topics wanted j m))
  | inr n ↦ ground (arith, n, lookup-copy_topics wanted k m)
]

copy_found :
    (p : ℕ) (o : Option TopicState)
    → find_in p (Option.map copy_topic o) ≡ Option.map copy_partition (find_in p o)
unfolding copy_topic
copy_found p none = refl
copy_found p (some t) = lookup-map_entries (λ _ q. copy_partition q) p t.partitions

-- A partition with its map of offsets made.
abbrev pub with_made : PartitionState → PartitionState
with_made p = record p { replica_offsets = some (made p.replica_offsets) }

found_if :
    (b : Bool) (p : ℕ) (o : Option TopicState)
    → find_in p (if b then none else Option.map copy_topic o)
      ≡ (if b then none else Option.map copy_partition (find_in p o))
found_if true p o = refl
found_if false p o = copy_found p o

made_if :
    (b : Bool) (o : Option PartitionState)
    → (if b then none else Option.map copy_partition o)
      ≡ (if b then none else Option.map with_made o)
made_if true o = refl
made_if false none = refl
made_if false (some q) = ap some (copy_partition_lem q)

pub find_partition-get_metadata :
    (wanted : List Text) (s : ClusterState) (t : Text) (p : ℕ)
    → find_partition t p (get_metadata wanted s).topics
      ≡ (if is_left_out wanted t then none else Option.map with_made (find_partition t p s.topics))
unfolding get_metadata
find_partition-get_metadata wanted s t p =
    ap (find_in p) (lookup-copy_topics wanted t s.topics)
    ∙ found_if (is_left_out wanted t) p (lookup t s.topics)
    ∙ made_if (is_left_out wanted t) (find_partition t p s.topics)

-- The metadata that is read has the brokers, the groups and the offsets of the state. With no topic
-- asked for it has every partition of the state, else those of the topics asked for, and each
-- partition is as in the state but that a nil map of offsets is made.
pub get_metadata-copies :
    (wanted : List Text) (s : ClusterState)
    → ((get_metadata wanted s).brokers ≡ s.brokers)
      × ((get_metadata wanted s).consumer_groups ≡ s.consumer_groups)
      × ((get_metadata wanted s).offsets ≡ s.offsets)
      × ((t : Text) (p : ℕ)
          → find_partition t p (get_metadata wanted s).topics ≡ (
              if is_left_out wanted t
              then none
              else Option.map with_made (find_partition t p s.topics)))
unfolding get_metadata
get_metadata-copies wanted s = (
  copy_brokers_id s.brokers,
  copy_groups_id s.consumer_groups,
  map_entries_id s.offsets,
  λ t p. find_partition-get_metadata wanted s t p,
)
