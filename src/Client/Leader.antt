-- ===== src/Client/Leader.antt =====
-- `getPartitionLeaderAddr` of client/main.go, on the controller's response.
pub mod Listed
pub mod Found
use aero_mq.Prelude.{
  ℕ, Option, none, some, List, [], ◌∷◌, ◌++◌, Text, codes, nat_key, text_key, ◌==◌, if◌then◌else◌,
}
use aero_mq.Prelude.Decimal.{decimal}
use aero_mq.Server.Messages.{BrokerInfo, PartitionMetadata, TopicMetadata, MetadataResponse}

-- The loop over a topic's partitions; the first that matches ends it.
unfoldable pub find_leader_in : ℕ → List PartitionMetadata → Option ℕ
find_leader_in partition [] = none
find_leader_in partition (p ∷ rest) =
    if p.partition_id == partition then some p.leader_id else find_leader_in partition rest

-- The loop over the topics, with what is found so far. It runs to its end, so the last match stays.
unfoldable pub find_leader : Text → ℕ → Option ℕ → List TopicMetadata → Option ℕ
unfolding find_leader_in
find_leader topic partition found [] = found
find_leader topic partition found (t ∷ rest) =
    find_leader topic partition
      (if t.topic == topic
        then (elim (find_leader_in partition t.partitions) [
          | none ↦ found
          | some leader ↦ some leader
        ])
        else found)
      rest

unfoldable pub find_broker : ℕ → List BrokerInfo → Option BrokerInfo
find_broker id [] = none
find_broker id (b ∷ rest) = if b.broker_id == id then some b else find_broker id rest

-- An address, or the text of an error.
pub data Address : Type 0 where
  address : Text → Address
  not_found : Text → Address

unfoldable pub get_partition_leader_addr : MetadataResponse → Text → ℕ → Address
unfolding find_leader find_broker decimal
get_partition_leader_addr resp topic partition =
    elim (find_leader topic partition none resp.topics) [
      | none ↦ not_found (codes "topic/partition not found")
      | some leader ↦ elim (find_broker leader resp.brokers) [
        | none ↦ not_found (codes "leader broker info not found in metadata")
        | some b ↦ address (b.host ++ (codes ":" ++ decimal b.port))
      ]
    ]
