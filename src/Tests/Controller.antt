-- ===== src/Tests/Controller.antt =====
-- Tests of Consensus/Setup and Controller.
use aero_mq.Prelude.{
  ◌≡◌, ◌↔◌, refl, true, false, Option, none, some, List, [], ◌∷◌, ◌++◌, Text, codes, text_key,
  nat_key, ◌==◌, arith, text_beq_iff, if◌then◌else◌,
}
use aero_mq.Prelude.Decimal.{decimal_ℕ, digits}
use aero_mq.Fsm.Metadata.{get_metadata, is_left_out}
use aero_mq.Fsm.State.{ClusterState, new_fsm}
use aero_mq.Script.{value, failure, ◌>>=◌, failing_as, or_fatal, check}
use aero_mq.Consensus.{join_node}
use aero_mq.Consensus.Setup.{Library, RaftServer, new_raft_node, open_snapshot_store}
use aero_mq.Controller.{handle_join, show_status, status_counts}
use aero_mq.Controller.Startup.{
  Flags, Network, default_flags, joined_cluster, refused, request_join, start_node,
}
use aero_mq.Controller.Joining.{Accepts, request_join-joined}
use aero_mq.Tests.Node.{node, follower}
use aero_mq.Tests.Samples.{cluster}

-- A library whose world is the servers that a cluster has been bootstrapped with, and that cannot
-- write to one directory.
abbrev library : Library (List RaftServer)
library = record {
  TcpAddress = Text;
  Transport = Text;
  Store = Unit {0};
  Snapshots = Option Text;
  Rest = Unit {0};
  Instance = Text;
  default_config = record {
    local_id = [];
    heartbeat_timeout = 0;
    election_timeout = 0;
    leader_lease_timeout = 0;
    commit_timeout = 0;
    rest = tt;
  };
  resolve_tcp_addr = λ a w. (value a, w);
  new_tcp_transport = λ a _ _ _ w. (value a, w);
  local_addr = λ t. t;
  new_inmem_store = tt;
  mkdir_all = λ d w. (if d == codes "/" then some (codes "denied") else none, w);
  new_file_snapshot_store = λ d _ w. (value (some d), w);
  new_discard_snapshot_store = none;
  new_raft = λ c _ _ _ w. (value c.local_id, w);
  bootstrap_cluster = λ _ servers _. servers;
}

bootstrapped :
    (new_raft_node library (codes "node1") (codes "127.0.0.1:7001") [] true []).1
    ≡ (record { id = codes "node1"; address = codes "127.0.0.1:7001" }) ∷ []
unfolding new_raft_node open_snapshot_store ◌>>=◌ failing_as or_fatal
bootstrapped = refl

not_bootstrapped :
    new_raft_node library (codes "node1") (codes "127.0.0.1:7001") (codes "d") false []
    ≡ (value (record { raft = codes "node1"; fsm = new_fsm; node_id = codes "node1" }), [])
unfolding new_raft_node open_snapshot_store ◌>>=◌ failing_as or_fatal check
not_bootstrapped = refl

no_directory :
    new_raft_node library (codes "node1") (codes "127.0.0.1:7001") (codes "/") true []
    ≡ (failure (codes "failed to create data dir: denied"), [])
unfolding new_raft_node open_snapshot_store ◌>>=◌ failing_as or_fatal check
no_directory = refl

-- A second node, and the parameters of its request.
abbrev second : Flags
second = record default_flags {
  node_id = codes "node2";
  raft_addr = codes "127.0.0.1:7002";
  join_addr = codes "http://127.0.0.1:9001";
}

abbrev query : Text → Text → Text
query _ key = if key == codes "id" then codes "node2" else codes "127.0.0.1:7002"

abbrev network : Network ClusterState
network = record {
  Listener = Unit {0};
  sleep = λ _ s. s;
  get = λ url s.
      let asked = handle_join node (query url (codes "id")) (query url (codes "addr")) s in
      (value asked.0, asked.1);
  listen = λ _ s. (value tt, s);
}

request_join-joined_example :
    ((request_join network second cluster).0 ≡ some joined_cluster)
    ↔ Accepts node second.node_id second.raft_addr cluster
request_join-joined_example =
    request_join-joined node network query second cluster
      (ground (arith, text_beq_iff second.join_addr [])) refl refl refl

has_joined : (request_join network second cluster).0 ≡ some joined_cluster
unfolding request_join handle_join join_node
has_joined = refl

-- A node that does not lead refuses.
has_not_joined :
    (request_join
      (record network {
        get = λ _ s. (value (handle_join follower second.node_id second.raft_addr s).0, s);
      })
      second
      cluster).0
    ≡ some (refused 500)
unfolding request_join handle_join join_node
has_not_joined = refl

-- Without an address there is no request.
no_request : request_join network default_flags cluster ≡ (none, cluster)
unfolding request_join
no_request = refl

abbrev busy_port : Network (List RaftServer)
busy_port = record {
  Listener = Unit {0};
  sleep = λ _ s. s;
  get = λ _ s. (failure [], s);
  listen = λ _ s. (failure (codes "address already in use"), s);
}

not_started :
    (start_node busy_port library default_flags []).0
    ≡ failure (codes "gRPC listen failed: address already in use")
unfolding start_node new_raft_node open_snapshot_store ◌>>=◌ failing_as or_fatal
not_started = refl

status_of_cluster :
    show_status node (codes "node1") (λ _. codes "Leader") cluster
    ≡ codes
        "{\n  \"node_id\": \"node1\",\n  \"state\": \"Leader\",\n  \"leader\": \"127.0.0.1:7001\",\n"
      ++ codes "  \"brokers_count\": 2,\n  \"topics_count\": 1\n}\n"
unfolding show_status status_counts get_metadata is_left_out decimal_ℕ digits
status_of_cluster = refl
