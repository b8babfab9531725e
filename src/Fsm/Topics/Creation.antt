-- ===== src/Fsm/Topics/Creation.antt =====
-- What `create_topic` does to the topics.
use mathlib.Core.Option
use aero_mq.Prelude.{
  ℕ, zero, suc, ◌+◌, ◌<◌, ◌≡◌, refl, ap, sym, ◌∙◌, true, ◌&&◌, Option, none, some, List, [], length,
  contains, Distinct, Text, nat_key, text_key, nat_beq_iff, arith, ◌==◌, ltb, leb, if◌then◌else◌,
  beq_refl, Option-cases, inl, lt→ltb, inr,
}
use aero_mq.Prelude.Map.{Map, lookup, insert, keys, lookup-insert}
use aero_mq.Fsm.State.{PartitionState, TopicState, ClusterState, Env, uint32_mod}
use aero_mq.Fsm.State.Lookup.{find_partition, find_partition-each}
use aero_mq.Fsm.Replication.{update_isr_and_hw, refresh_partition}
use aero_mq.Fsm.Failover.{get_active_broker_ids, is_active}
use aero_mq.Fsm.Failover.Leaders.{contains-get_active_broker_ids, get_active_broker_ids-Distinct}
use aero_mq.Fsm.Topics.{new_partition, new_partitions, CreateTopicPayload, create_topic}
use aero_mq.Fsm.Topics.Placement.{IsPlaced, new_partition-IsPlaced}

lookup-new_partitions :
    (ids : List ℕ) (factor rounds i j : ℕ) (m : Map ℕ PartitionState)
    → lookup j (new_partitions ids factor rounds i m)
      ≡ (if leb i j && ltb j (i + rounds) then some (new_partition ids factor j) else lookup j m)
unfolding new_partitions
lookup-new_partitions ids factor zero i j m = ground arith
lookup-new_partitions ids factor (suc rounds) i j m = ground (
  arith,
  lookup-new_partitions ids factor rounds (suc i) j (insert i (new_partition ids factor i) m),
  lookup-insert i j (new_partition ids factor i) m,
  nat_beq_iff j i,
  ap (new_partition ids factor),
)

abbrev created : Env → CreateTopicPayload → ClusterState → Map ℕ PartitionState
created env payload s =
    new_partitions (get_active_broker_ids env.active_order s) payload.replication_factor
      payload.partitions 0 []

lookup-created :
    (env : Env) (payload : CreateTopicPayload) (s : ClusterState) (i : ℕ)
    → lookup i (created env payload s) ≡ (
        if ltb i payload.partitions
        then some
            (new_partition (get_active_broker_ids env.active_order s) payload.replication_factor i)
        else none)
lookup-created env payload s i = ground (
  arith,
  lookup-new_partitions (get_active_broker_ids env.active_order s) payload.replication_factor
      payload.partitions 0 i [],
)

module _ (env : Env) (payload : CreateTopicPayload) (s : ClusterState) where
  abbrev refreshed : Option PartitionState → Option PartitionState
  refreshed = Option.map (refresh_partition env.later s.brokers)

  before-refresh :
      (t : Text) (i : ℕ)
      → lookup payload.name s.topics ≡ none
      → find_partition t i (create_topic env payload s).topics
        ≡ refreshed (
            find_partition t i (
              insert payload.name
                (record { name = payload.name; partitions = created env payload s })
                s.topics))
  unfolding create_topic update_isr_and_hw
  before-refresh t i fresh =
      rw (fresh, create_topic) (find_partition-each (refresh_partition env.later s.brokers) t i _)

  -- A new topic has the partitions 0 to `partitions - 1` and no other, each placed on the active
  -- brokers and then refreshed, and the partitions of every other topic are only refreshed.
  pub find_partition-create_topic :
      (t : Text) (i : ℕ)
      → lookup payload.name s.topics ≡ none
      → find_partition t i (create_topic env payload s).topics
        ≡ refreshed (
            if t == payload.name
            then (if ltb i payload.partitions
                then some (
                    new_partition
                      (get_active_broker_ids env.active_order s)
                      payload.replication_factor
                      i)
                else none)
            else find_partition t i s.topics)
  find_partition-create_topic t i fresh =
      before-refresh t i fresh
      ∙ ap refreshed (
          ground (
            arith,
            lookup-insert payload.name t
                (record { name = payload.name; partitions = created env payload s }) s.topics,
            lookup-created env payload s i,
          ))

  -- Creating a topic that exists changes nothing.
  pub create_topic_existing :
      (old : TopicState) → lookup payload.name s.topics ≡ some old → create_topic env payload s ≡ s
  unfolding create_topic
  create_topic_existing old h = ground (arith, h)

-- While at least one and fewer than 2^32 brokers are active, each partition of a new topic is there
-- afterwards and is placed on the active brokers: it has `replication_factor` replicas, or one on
-- each active broker if that is fewer, no broker twice, and its leader is the first of them. All
-- replica and the leader are active. This holds for every order in which the brokers are listed.
pub create_topic-IsPlaced :
    (env : Env) (payload : CreateTopicPayload) (s : ClusterState) (i : ℕ)
    → Distinct (keys s.brokers)
    → lookup payload.name s.topics ≡ none
    → i < payload.partitions
    → let ids = get_active_broker_ids env.active_order s in
      0 < length ids
      → length ids < uint32_mod
      → (ps : PartitionState) × (find_partition payload.name i (create_topic env payload s).topics
          ≡ some ps)
        × IsPlaced ids payload.replication_factor ps.leader_id ps.replica_ids
        × (is_active s.brokers ps.leader_id ≡ true)
        × ((q : ℕ) → contains q ps.replica_ids ≡ true → is_active s.brokers q ≡ true)
unfolding refresh_partition
create_topic-IsPlaced env payload s i d fresh l h small =
    let ids : List ℕ = get_active_broker_ids env.active_order s in
    let active : (q : ℕ) → contains q ids ≡ true → is_active s.brokers q ≡ true =
      λ q m. sym (contains-get_active_broker_ids env.active_order s q d) ∙ m in
    let p : PartitionState = new_partition ids payload.replication_factor i in
    let placed : IsPlaced ids payload.replication_factor p.leader_id p.replica_ids =
      new_partition-IsPlaced ids payload.replication_factor i
        (get_active_broker_ids-Distinct env.active_order s d) h small in
    (
      refresh_partition env.later s.brokers p,
      find_partition-create_topic env payload s payload.name i fresh
          ∙ rw (beq_refl payload.name, lt→ltb i payload.partitions l) refl,
      placed,
      active p.leader_id placed.leads,
      λ q m. active q (placed.known q m),
    )

create_topic-brokers :
    (env : Env) (payload : CreateTopicPayload) (s : ClusterState)
    → (create_topic env payload s).brokers ≡ s.brokers
unfolding create_topic update_isr_and_hw
create_topic-brokers env payload s = elim (Option-cases (lookup payload.name s.topics)) [
  | inl e ↦ ground (arith, e)
  | inr (t, e) ↦ ground (arith, e)
]
