-- ===== src/Controller/Startup.antt =====
-- The start of a controller, `main` of go-controller/cmd/controller/main.go: its flags, the node and the
-- listener that it makes, and its request to join a cluster.
use aero_mq.Prelude.{
  ℕ, Bool, not, false, Option, none, some, [], ◌++◌, Text, codes, text_key, nat_key, ◌==◌,
  if◌then◌else◌,
}
use aero_mq.Script.{Script, Result, value, failure, ◌>>=◌, pure, failing_as}
use aero_mq.Consensus.Setup.{Library, RaftNode, new_raft_node}
use aero_mq.Controller.{HttpReply}

pub record Flags : Type 0 where
  pub node_id : Text
  pub raft_addr : Text
  pub grpc_addr : Text
  pub http_addr : Text
  pub data_dir : Text
  pub bootstrap : Bool
  pub join_addr : Text

abbrev pub default_flags : Flags
default_flags = record {
  node_id = codes "node1";
  raft_addr = codes "127.0.0.1:7001";
  grpc_addr = codes "127.0.0.1:8001";
  http_addr = codes "127.0.0.1:9001";
  data_dir = [];
  bootstrap = false;
  join_addr = [];
}

-- How the request to join ends, as it is logged.
pub data Attempt : Type 0 where
  attempt_failed : Text → Attempt
  refused : ℕ → Attempt
  joined_cluster : Attempt

abbrev pub join_url : Text → Text → Text → Text
join_url join_addr node_id raft_addr =
    join_addr ++ (codes "/join?id=" ++ (node_id ++ (codes "&addr=" ++ raft_addr)))

abbrev attempt_of : Result HttpReply → Attempt
attempt_of (failure e) = attempt_failed e
attempt_of (value reply) = if not (reply.code == 200) then refused reply.code else joined_cluster

-- `time.Sleep` in milliseconds, `http.Client.Get` with its timeout, and `net.Listen`.
pub record Network (World : Type 0) : Type 1 where
  pub Listener : Type 0
  pub sleep : ℕ → World → World
  pub get : Text → Script World HttpReply
  pub listen : Text → Script World Listener

module _ {World : Type 0} (net : Network World) where
  -- `none` where no address to join is given.
  unfoldable pub request_join : Flags → World → Option Attempt × World
  request_join flags w =
      let answered =
        net.get (join_url flags.join_addr flags.node_id flags.raft_addr) (net.sleep 1000 w) in
      if not (flags.join_addr == []) then (some (attempt_of answered.0), answered.1) else (none, w)

  -- The node and the listener, or the fatal error. What is served on the listener are the handlers of
  -- Server.
  unfoldable pub start_node :
      (lib : Library World) → Flags → Script World (RaftNode lib.Instance × net.Listener)
  unfolding new_raft_node
  start_node lib flags = do
    node ←
        failing_as (codes "Failed to initialize Raft: ")
          (new_raft_node lib flags.node_id flags.raft_addr flags.data_dir flags.bootstrap)
    lis ← failing_as (codes "gRPC listen failed: ") (net.listen flags.grpc_addr)
    pure (node, lis)
