-- ===== src/Client/Commands.antt =====
-- The commands of client/main.go: `handleMetadata`, `handleCreateTopic`, `handleProduce` and
-- `handleConsume`, over a controller that answers requests and brokers that take connections. The
-- lines that go to the log are left out.
pub mod Produced
use aero_mq.Prelude.{
  ℕ, suc, Bool, Option, none, some, List, [], ◌∷◌, ◌++◌, map, length, Text, codes, if◌then◌else◌,
}
use aero_mq.Prelude.Decimal.{decimal, decimal_ℕ}
use aero_mq.Server.Messages.{
  BrokerInfo, PartitionMetadata, TopicMetadata, MetadataRequest, MetadataResponse,
  CreateTopicRequest, CreateTopicResponse,
}
use aero_mq.Client.Leader.{Address, address, not_found, get_partition_leader_addr}
use aero_mq.Script.{Result, value, failure}
use aero_mq.Client.Exchange.{Conn, send_produce, Ending, finished, fatal, stuck, consume}

-- What the client calls: the controller's two RPCs, and `net.Dial`.
pub record Site : Type 0 where
  pub call_get_metadata : MetadataRequest → Result MetadataResponse
  pub call_create_topic : CreateTopicRequest → Result CreateTopicResponse
  pub dial : Text → Result Conn

-- What a run leaves: the lines printed, the message of `log.Fatalf` where the run ends so, and the
-- bytes written to a broker, without those of a request whose writes failed.
pub record Run : Type 0 where
  pub printed : List Text
  pub failed : Option Text
  pub sent : Text

abbrev pub prints : List Text → Run
prints lines = record { printed = lines; failed = none; sent = [] }

abbrev pub fails : Text → Run
fails message = record { printed = []; failed = some message; sent = [] }

-- `%v` of a slice of numbers, after its bracket.
unfoldable pub spaced : List ℕ → Text
spaced [] = codes "]"
spaced (n ∷ []) = decimal_ℕ n ++ codes "]"
spaced (n ∷ ns) = decimal_ℕ n ++ (codes " " ++ spaced ns)

abbrev pub show_broker : BrokerInfo → Text
show_broker b =
    codes "Broker ID: "
    ++ (decimal_ℕ b.broker_id
        ++ (codes " | Address: " ++ (b.host ++ (codes ":" ++ decimal b.port))))

-- The bytes of the two box characters before a partition's line.
abbrev pub branch : Text
branch = 32 ∷ 32 ∷ 226 ∷ 148 ∷ 148 ∷ 226 ∷ 148 ∷ 128 ∷ []

unfoldable pub show_partition : PartitionMetadata → Text
unfolding spaced
show_partition p =
    branch
    ++ (codes " Partition "
        ++ (decimal_ℕ p.partition_id
            ++ (codes " | Leader: "
                ++ (decimal_ℕ p.leader_id ++ (codes " | Replicas: [" ++ spaced p.replica_ids)))))

unfoldable pub show_topics : List TopicMetadata → List Text
unfolding show_partition
show_topics [] = []
show_topics (t ∷ rest) =
    (codes "Topic: " ++ t.topic) ∷ (map show_partition t.partitions ++ show_topics rest)

unfoldable pub handle_metadata : Site → Run
unfolding show_topics
handle_metadata site = elim (site.call_get_metadata (record { topics = [] })) [
  | failure e ↦ fails (codes "Failed to fetch metadata: " ++ e)
  | value resp ↦ prints (
      codes "--- Active Brokers ---"
      ∷ (map show_broker resp.brokers
          ++ [] ∷ codes "--- Topics & Partitions ---" ∷ show_topics resp.topics))
]

unfoldable pub handle_create_topic : Site → Text → ℕ → ℕ → Run
handle_create_topic site topic partitions factor =
    elim (site.call_create_topic
      (record { topic = topic; partitions = partitions; replication_factor = factor })) [
        | failure e ↦ fails (codes "Failed to create topic: " ++ e)
        | value resp ↦ prints (
            (if resp.success then resp.message else codes "Error creating topic: " ++ resp.message)
            ∷ [])
      ]

-- `getPartitionLeaderAddr` with its request.
unfoldable pub leader_addr : Site → Text → ℕ → Address
unfolding get_partition_leader_addr
leader_addr site topic partition = elim (site.call_get_metadata (record { topics = topic ∷ [] })) [
  | failure e ↦ not_found e
  | value resp ↦ get_partition_leader_addr resp topic partition
]

-- The end of `handleProduce`, with the bytes that the connection has taken.
abbrev pub report_produced : Result ℕ → Text → Run
report_produced (failure e) sent = record {
  printed = [];
  failed = some (codes "Produce request failed: " ++ e);
  sent = sent;
}
report_produced (value offset) sent = record {
  printed = (codes "Message published successfully! Assigned Offset: " ++ decimal_ℕ offset) ∷ [];
  failed = none;
  sent = sent;
}

unfoldable pub handle_produce : Site → Text → ℕ → Text → Run
unfolding leader_addr send_produce
handle_produce site topic partition message = elim (leader_addr site topic partition) [
  | not_found e ↦ fails (codes "Failed to find leader for partition: " ++ e)
  | address a ↦ elim (site.dial a) [
    | failure e ↦ fails (codes "Failed to connect to broker TCP data plane: " ++ e)
    | value c ↦
        let done = send_produce topic partition message c in report_produced done.0 done.1.written
  ]
]

abbrev pub show_record : ℕ × Text → Text
show_record r = codes "[Offset " ++ (decimal_ℕ r.0 ++ (codes "]: " ++ r.1))

-- With more fuel than bytes still to come the loop is never stuck.
abbrev pub loop_failure : Ending → Option Text
loop_failure (fatal e) = some (codes "Fetch request failed: " ++ e)
loop_failure _ = none

-- The bytes that the loop writes are left out of the run.
unfoldable pub handle_consume : Site → Text → ℕ → ℕ → Bool → Run
unfolding leader_addr consume
handle_consume site topic partition offset follow = elim (leader_addr site topic partition) [
  | not_found e ↦ fails (codes "Failed to find leader for partition: " ++ e)
  | address a ↦ elim (site.dial a) [
    | failure e ↦ fails (codes "Failed to connect to broker TCP data plane: " ++ e)
    | value c ↦
        let run = consume (suc (length c.incoming)) topic partition follow offset c in
        record { printed = map show_record run.0; failed = loop_failure run.1; sent = [] }
  ]
]
