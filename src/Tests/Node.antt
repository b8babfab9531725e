-- ===== src/Tests/Node.antt =====
-- A node and its requests, for the tests of Server.
use aero_mq.Prelude.{◌≡◌, refl, true, false, none, some, [], ◌∷◌, codes, text_key, nat_key, inl}
use aero_mq.Json.{Json}
use aero_mq.Fsm.State.{ClusterState}
use aero_mq.Fsm.Apply.{Outcome, done, refused, panicked, apply}
use aero_mq.Fsm.Replay.{replay}
use aero_mq.Consensus.{Raft, Future, failed, responded}
use aero_mq.Consensus.Log.{Submitted, Replicates}
use aero_mq.Server.Messages.{JoinGroupRequest}
use aero_mq.Server.Listing.{Orders}
use aero_mq.Prelude.{inl}
use aero_mq.Tests.Samples.{at, orders_topic, seconds}

-- The entry's outcome as what the node's future and its state become.
abbrev settle : ClusterState → Outcome → Future × ClusterState
settle s (done s') = (responded none, s')
settle s refused = (responded (some (codes "no command")), s)
settle s panicked = (failed (codes "shut down"), s)

abbrev pub node : Raft ClusterState
node = record {
  is_leader = λ _. true;
  leader = λ _. codes "127.0.0.1:7001";
  submit = λ entry s. settle s (apply (at (seconds 10)) (some entry) s);
  add_voter = λ _ _ s. (none, s);
  state = λ s. s;
}

-- A node that follows another.
abbrev pub follower : Raft ClusterState
follower = record node { is_leader = λ _. false }

settled :
    (entry : Json) (s : ClusterState) (o : Outcome)
    → apply (at (seconds 10)) (some entry) s ≡ o
    → Submitted node entry s (settle s o)
unfolding replay
settled entry s (done s') e = record {
  before = [];
  env = at (seconds 10);
  behind = [];
  from = s;
  to = s';
  reached = refl;
  responds = rw e tt;
  applied = rw e refl;
  continued = refl;
}
settled entry s refused e = record {
  before = [];
  env = at (seconds 10);
  behind = [];
  from = s;
  to = s;
  reached = refl;
  responds = rw e tt;
  applied = rw e refl;
  continued = refl;
}
settled entry s panicked e = inl ([], refl)

pub node-Replicates : Replicates node
node-Replicates entry s = settled entry s (apply (at (seconds 10)) (some entry) s) refl

abbrev pub orders_as_they_stand : Orders
orders_as_they_stand = record { broker_order = []; topic_order = []; partition_orders = λ _. [] }

abbrev pub bob_joins : JoinGroupRequest
bob_joins = record {
  group_id = codes "readers";
  member_id = codes "bob";
  topics = orders_topic ∷ [];
}
