-- ===== src/Consensus/Setup.antt =====
-- `NewRaftNode` of go-controller/pkg/consensus/raft.go, over what it calls of net, os and the raft
-- library.
use aero_mq.Prelude.{
  ℕ, ◌*◌, ◌^◌, Bool, Option, List, [], ◌∷◌, ◌++◌, Text, codes, text_key, ◌==◌, if◌then◌else◌,
}
use aero_mq.Fsm.State.{ClusterState, new_fsm}
use aero_mq.Script.{Script, ◌>>=◌, ◌>>◌, pure, act, failing_as, check, value}

-- The fields of the library's configuration that are set, and the rest of it. Durations are in
-- nanoseconds.
pub record Config (Rest : Type 0) : Type 0 where
  pub local_id : Text
  pub heartbeat_timeout : ℕ
  pub election_timeout : ℕ
  pub leader_lease_timeout : ℕ
  pub commit_timeout : ℕ
  pub rest : Rest

pub record RaftServer : Type 0 where
  pub id : Text
  pub address : Text

-- Where the log and the votes are kept, and the snapshots.
pub record Stores (Store Snapshots : Type 0) : Type 0 where
  pub log_store : Store
  pub stable_store : Store
  pub snapshot_store : Snapshots

-- `new_raft` is `raft.NewRaft` on a configuration, the state machine, the stores and the transport. An
-- error of `BootstrapCluster` is dropped.
pub record Library (World : Type 0) : Type 1 where
  pub TcpAddress : Type 0
  pub Transport : Type 0
  pub Store : Type 0
  pub Snapshots : Type 0
  pub Rest : Type 0
  pub Instance : Type 0
  pub default_config : Config Rest
  pub resolve_tcp_addr : Text → Script World TcpAddress
  pub new_tcp_transport : Text → TcpAddress → ℕ → ℕ → Script World Transport
  pub local_addr : Transport → Text
  pub new_inmem_store : Store
  pub mkdir_all : Text → World → Option Text × World
  pub new_file_snapshot_store : Text → ℕ → Script World Snapshots
  pub new_discard_snapshot_store : Snapshots
  pub new_raft :
      Config Rest → ClusterState → Stores Store Snapshots → Transport → Script World Instance
  pub bootstrap_cluster : Instance → List RaftServer → World → World

pub record RaftNode (Instance : Type 0) : Type 0 where
  pub raft : Instance
  pub fsm : ClusterState
  pub node_id : Text

abbrev milliseconds : ℕ → ℕ
milliseconds n = n * 10 ^ 6

module _ {World : Type 0} (lib : Library World) where
  abbrev pub config_of : Text → Config lib.Rest
  config_of node_id = record lib.default_config {
    local_id = node_id;
    heartbeat_timeout = milliseconds 200;
    election_timeout = milliseconds 200;
    leader_lease_timeout = milliseconds 150;
    commit_timeout = milliseconds 50;
  }

  -- In memory where no directory is given.
  unfoldable pub open_snapshot_store : Text → Script World lib.Snapshots
  open_snapshot_store data_dir w =
      if data_dir == []
      then pure lib.new_discard_snapshot_store w
      else (do
        made ← (λ v. let (e, v') = lib.mkdir_all data_dir v in (value e, v'))
        check (codes "failed to create data dir: ") made
        failing_as (codes "failed to create file snapshot store: ")
            (lib.new_file_snapshot_store data_dir 2))
          w

  unfoldable pub new_raft_node : Text → Text → Text → Bool → Script World (RaftNode lib.Instance)
  unfolding open_snapshot_store
  new_raft_node node_id raft_addr data_dir bootstrap = do
    let config = config_of node_id
    addr ←
        failing_as (codes "failed to resolve raft addr " ++ (raft_addr ++ codes ": "))
          (lib.resolve_tcp_addr raft_addr)
    transport ←
        failing_as (codes "failed to create tcp transport: ")
          (lib.new_tcp_transport raft_addr addr 3 (milliseconds 10000))
    snapshot_store ← open_snapshot_store data_dir
    let stores : Stores lib.Store lib.Snapshots = record {
      log_store = lib.new_inmem_store;
      stable_store = lib.new_inmem_store;
      snapshot_store = snapshot_store;
    }
    r ←
        failing_as (codes "failed to construct raft node: ")
          (lib.new_raft config new_fsm stores transport)
    act (λ w.
        if bootstrap
        then lib.bootstrap_cluster r
            ((record { id = config.local_id; address = lib.local_addr transport }) ∷ []) w
        else w)
    pure (record { raft = r; fsm = new_fsm; node_id = node_id })
