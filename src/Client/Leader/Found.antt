-- ===== src/Client/Leader/Found.antt =====
-- The leader's address in the controller's answer.
use aero_mq.Prelude.{
  Bool, false, sym, Option, Option-cases, inl, inr, arith, ℕ, true, none, some, List, [], ◌∷◌, ◌++◌,
  Text, codes, nat_key, text_key, ◌≡◌, refl, ap, ◌∙◌, text_beq_iff,
}
use aero_mq.Prelude.Decimal.{decimal}
use aero_mq.Prelude.Map.{Map, lookup}
use aero_mq.Prelude.Range.{arrange}
use aero_mq.Prelude.Arranged.{lookup-arrange}
use aero_mq.Prelude.Entries.{arrange-IsMap}
use aero_mq.Fsm.State.{BrokerStatus, PartitionState, ClusterState}
use aero_mq.Fsm.State.Lookup.{find_in, find_partition}
use aero_mq.Fsm.Failover.{is_active}
use aero_mq.Fsm.WellFormed.{IsWellFormed}
use aero_mq.Fsm.Metadata.{is_left_out, get_metadata}
use aero_mq.Fsm.Metadata.Copy.{get_metadata-copies}
use aero_mq.Server.Messages.{MetadataResponse}
use aero_mq.Server.Listing.{Orders, list_brokers, list_topics}
use aero_mq.Server.Handlers.{metadata_response}
use aero_mq.Client.Leader.{find_leader, find_broker, address, get_partition_leader_addr}
use aero_mq.Client.Leader.{not_found}
use aero_mq.Client.Leader.Listed.{
  info_of, or_leader, find_broker-inactive, find_broker-list_brokers, find_leader-list_topics,
}
use aero_mq.Fsm.Metadata.Topics.{copy_topics-IsMap}

address-found :
    (resp : MetadataResponse) (topic : Text) (p leader : ℕ) (b : BrokerStatus)
    → find_leader topic p none resp.topics ≡ some leader
    → find_broker leader resp.brokers ≡ some (info_of b)
    → get_partition_leader_addr resp topic p ≡ address (b.host ++ (codes ":" ++ decimal b.port))
unfolding get_partition_leader_addr
address-found resp topic p leader b e f = rw (e, f, get_partition_leader_addr) refl

pub wanted_topic : (topic : Text) → is_left_out (topic ∷ []) topic ≡ false
unfolding is_left_out
wanted_topic topic = rw ((text_beq_iff topic topic).1 refl) refl

-- The partition in the answer to a request for its topic.
listed_leader :
    (o : Orders) (s : ClusterState) (topic : Text) (p : ℕ) (ps : PartitionState)
    → IsWellFormed s
    → find_partition topic p s.topics ≡ some ps
    → find_leader topic p none
        (list_topics o (arrange o.topic_order (get_metadata (topic ∷ []) s).topics))
      ≡ some ps.leader_id
unfolding get_metadata
listed_leader o s topic p ps w found =
    let copied = copy_topics-IsMap (topic ∷ []) s.topics w.topics in
    find_leader-list_topics o topic p none _ (arrange-IsMap o.topic_order _ copied)
    ∙ ap (λ x. or_leader none (find_in p x)) (lookup-arrange topic o.topic_order _ copied.distinct)
    ∙ ap (or_leader none) ((get_metadata-copies (topic ∷ []) s).3 topic p)
    ∙ rw (wanted_topic topic, found) refl

pub listed_broker :
    (o : Orders) (s : ClusterState) (wanted : List Text) (id : ℕ) (b : BrokerStatus)
    → IsWellFormed s
    → lookup id s.brokers ≡ some b
    → b.active ≡ true
    → find_broker id (list_brokers (arrange o.broker_order (get_metadata wanted s).brokers))
      ≡ some (info_of b)
listed_broker o s wanted id b w led active =
    ap (λ m. find_broker id (list_brokers (arrange o.broker_order m)))
      (get_metadata-copies wanted s).0
    ∙ find_broker-list_brokers id (arrange o.broker_order s.brokers) b
        (arrange-IsMap o.broker_order s.brokers w.brokers)
        (lookup-arrange id o.broker_order s.brokers w.brokers.distinct ∙ led) active

absent_leader :
    (o : Orders) (s : ClusterState) (topic : Text) (p : ℕ)
    → IsWellFormed s
    → find_partition topic p s.topics ≡ none
    → find_leader topic p none
        (list_topics o (arrange o.topic_order (get_metadata (topic ∷ []) s).topics))
      ≡ none
unfolding get_metadata
absent_leader o s topic p w absent =
    let copied = copy_topics-IsMap (topic ∷ []) s.topics w.topics in
    find_leader-list_topics o topic p none _ (arrange-IsMap o.topic_order _ copied)
    ∙ ap (λ x. or_leader none (find_in p x)) (lookup-arrange topic o.topic_order _ copied.distinct)
    ∙ ap (or_leader none) ((get_metadata-copies (topic ∷ []) s).3 topic p)
    ∙ rw (wanted_topic topic, absent) refl

is_active-same :
    (m m' : Map ℕ BrokerStatus) (id : ℕ)
    → lookup id m ≡ lookup id m'
    → is_active m id ≡ is_active m' id
unfolding is_active
is_active-same m m' id e = ap (λ x. elim x [ none ↦ false | some b ↦ b.active ]) e

pub inactive_broker :
    (o : Orders) (s : ClusterState) (wanted : List Text) (id : ℕ)
    → IsWellFormed s
    → is_active s.brokers id ≡ false
    → find_broker id (list_brokers (arrange o.broker_order (get_metadata wanted s).brokers)) ≡ none
inactive_broker o s wanted id w off =
    ap (λ m. find_broker id (list_brokers (arrange o.broker_order m)))
      (get_metadata-copies wanted s).0
    ∙ find_broker-inactive id (arrange o.broker_order s.brokers)
        (arrange-IsMap o.broker_order s.brokers w.brokers)
        (is_active-same (arrange o.broker_order s.brokers) s.brokers id
            (lookup-arrange id o.broker_order s.brokers w.brokers.distinct)
          ∙ off)

absent-not_found :
    (resp : MetadataResponse) (topic : Text) (p : ℕ)
    → find_leader topic p none resp.topics ≡ none
    → get_partition_leader_addr resp topic p ≡ not_found (codes "topic/partition not found")
unfolding get_partition_leader_addr
absent-not_found resp topic p e = rw (e, get_partition_leader_addr) refl

inactive-not_found :
    (resp : MetadataResponse) (topic : Text) (p leader : ℕ)
    → find_leader topic p none resp.topics ≡ some leader
    → find_broker leader resp.brokers ≡ none
    → get_partition_leader_addr resp topic p
      ≡ not_found (codes "leader broker info not found in metadata")
unfolding get_partition_leader_addr
inactive-not_found resp topic p leader e f = rw (e, f, get_partition_leader_addr) refl

-- The partition is there and its leader is an active broker.
unfoldable pub has_leader : Text → ℕ → ClusterState → Bool
has_leader topic p s = elim (find_partition topic p s.topics) [
  | none ↦ false
  | some ps ↦ is_active s.brokers ps.leader_id
]

abbrev pub reason : Option PartitionState → Text
reason none = codes "topic/partition not found"
reason (some _) = codes "leader broker info not found in metadata"

-- The two errors of the search, on the controller's answer.
pub get_partition_leader_addr-reason :
    (o : Orders) (s : ClusterState) (topic : Text) (p : ℕ)
    → IsWellFormed s
    → has_leader topic p s ≡ false
    → get_partition_leader_addr (metadata_response o (record { topics = topic ∷ [] }) s) topic p
      ≡ not_found (reason (find_partition topic p s.topics))
unfolding metadata_response has_leader
get_partition_leader_addr-reason o s topic p w h =
    let resp = metadata_response o (record { topics = topic ∷ [] }) s in
    elim (Option-cases (find_partition topic p s.topics)) [
      | inl e ↦
          absent-not_found resp topic p (absent_leader o s topic p w e)
          ∙ ap (λ x. not_found (reason x)) (sym e)
      | inr (ps, e) ↦
          inactive-not_found resp topic p ps.leader_id (listed_leader o s topic p ps w e)
            (inactive_broker o s (topic ∷ []) ps.leader_id w (ground (arith, e, h)))
          ∙ ap (λ x. not_found (reason x)) (sym e)
    ]

-- The client finds a partition's leader: in every well-formed state where the partition is led by a
-- broker that is known and active, the answer that the controller gives to a request for the topic,
-- whatever the order of its lists, leads the client to that broker's host and port.
pub get_partition_leader_addr-leader :
    (o : Orders) (s : ClusterState) (topic : Text) (p : ℕ) (ps : PartitionState) (b : BrokerStatus)
    → IsWellFormed s
    → find_partition topic p s.topics ≡ some ps
    → lookup ps.leader_id s.brokers ≡ some b
    → b.active ≡ true
    → get_partition_leader_addr (metadata_response o (record { topics = topic ∷ [] }) s) topic p
      ≡ address (b.host ++ (codes ":" ++ decimal b.port))
unfolding metadata_response
get_partition_leader_addr-leader o s topic p ps b w found led active =
    address-found (metadata_response o (record { topics = topic ∷ [] }) s) topic p ps.leader_id b
      (listed_leader o s topic p ps w found)
      (listed_broker o s (topic ∷ []) ps.leader_id b w led active)
