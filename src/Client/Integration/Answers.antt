-- ===== src/Client/Integration/Answers.antt =====
-- What `handleIntegrationTest` of client/main.go reads in a metadata answer: who leads and who follows
-- its partition, at what addresses, and who leads it later.
use aero_mq.Prelude.{
  ℕ, Bool, true, false, not, List, [], ◌∷◌, ◌++◌, Text, codes, nat_key, text_key, ◌==◌,
  if◌then◌else◌,
}
use aero_mq.Prelude.Decimal.{decimal}
use aero_mq.Server.Messages.{BrokerInfo, PartitionMetadata, TopicMetadata}

-- The two nested loops over the answer, which have no `break`: a round for each partition of that
-- number in each topic of that name.
module _ {A : Type 0} (step : A → PartitionMetadata → A) where
  unfoldable pub over_partitions : ℕ → A → List PartitionMetadata → A
  over_partitions partition a [] = a
  over_partitions partition a (p ∷ rest) =
      over_partitions partition (if p.partition_id == partition then step a p else a) rest

  unfoldable pub over_topics : Text → ℕ → A → List TopicMetadata → A
  unfolding over_partitions
  over_topics topic partition a [] = a
  over_topics topic partition a (t ∷ rest) =
      over_topics topic partition
        (if t.topic == topic then over_partitions partition a t.partitions else a) rest

-- `leaderID`, `followerID` and `found`.
pub record Roles : Type 0 where
  pub leader_id : ℕ
  pub follower_id : ℕ
  pub found : Bool

-- The loop over the replicas: the first one that does not lead, or the follower as it was.
unfoldable pub first_follower : ℕ → ℕ → List ℕ → ℕ
first_follower leader follower [] = follower
first_follower leader follower (r ∷ rest) =
    if not (r == leader) then r else first_follower leader follower rest

unfoldable pub see_partition : Roles → PartitionMetadata → Roles
unfolding first_follower
see_partition roles p = record {
  leader_id = p.leader_id;
  follower_id = first_follower p.leader_id roles.follower_id p.replica_ids;
  found = true;
}

unfoldable pub find_roles : Text → ℕ → List TopicMetadata → Roles
unfolding over_topics see_partition
find_roles topic partition topics =
    over_topics see_partition topic partition
      (record { leader_id = 0; follower_id = 0; found = false }) topics

-- `fmt.Sprintf("%s:%d", b.Host, b.Port)`
abbrev pub address_of : BrokerInfo → Text
address_of b = b.host ++ (codes ":" ++ decimal b.port)

-- The loop over the brokers for one of the two addresses; it runs to its end.
unfoldable pub last_address : ℕ → Text → List BrokerInfo → Text
unfolding decimal
last_address id a [] = a
last_address id a (b ∷ rest) = last_address id (if b.broker_id == id then address_of b else a) rest

-- `currentLeaderID`, 0 where the partition is not in the answer.
unfoldable pub current_leader : Text → ℕ → List TopicMetadata → ℕ
unfolding over_topics
current_leader topic partition topics = over_topics (λ _ p. p.leader_id) topic partition 0 topics
