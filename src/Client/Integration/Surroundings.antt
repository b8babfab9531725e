-- ===== src/Client/Integration/Surroundings.antt =====
-- The surroundings of `handleIntegrationTest` of client/main.go, and its messages, paths and commands.
use aero_mq.Prelude.{
  ℕ, Bool, true, false, Option, none, some, List, [], ◌∷◌, ◌++◌, Text, codes, text_key, nat_key,
  ◌==◌, if◌then◌else◌,
}
use aero_mq.Prelude.Decimal.{decimal_ℕ}
use aero_mq.Server.Messages.{
  MetadataRequest, MetadataResponse, CreateTopicRequest, CreateTopicResponse,
}
use aero_mq.Script.{Result, value, failure}
use aero_mq.Client.Exchange.{Conn, send_produce, send_fetch}
use aero_mq.Script.{Script}

-- What the test calls: the clock in seconds, the controller's RPCs, `net.Dial`, `time.Sleep` in
-- milliseconds, `os.IsNotExist(os.Stat(path))`, commands that are run with their errors dropped, the
-- log file, and a command that is started. `arriving` is a connection with the bytes that come on it
-- from now on, which depend on all that has been done before, and `delivered` what its bytes that are
-- written do. `tries` is how many attempts the consumer in the background makes from a world on
-- before the test takes its next step, the last of which is the end of the 15 seconds it waits.
pub record Lab (World : Type 0) : Type 0 where
  pub unix_time : World → ℕ
  pub send_create_topic : CreateTopicRequest → Script World CreateTopicResponse
  pub send_get_metadata : MetadataRequest → Script World MetadataResponse
  pub connect : Text → Script World Conn
  pub arriving : Conn → World → Conn
  pub delivered : Conn → World → World
  pub sleep : ℕ → World → World
  pub is_missing : Text → World → Bool
  pub run_command : List Text → World → World
  pub open_log : Text → World → Option Text × World
  pub start_command : List Text → Text → World → Option Text × World
  pub tries : World → ℕ

abbrev pub message_text : ℕ → Text
message_text i = codes "Message-" ++ (decimal_ℕ i ++ codes "-for-rollover-verification-test")

abbrev pub uncommitted : Text
uncommitted = codes "Message-6-HW-test"

abbrev pub after_failover : Text
after_failover = codes "Message-7-after-failover"

-- `string(data)`
abbrev pub text_of : Option Text → Text
text_of none = []
text_of (some bytes) = bytes

abbrev pub is_some_data : Option Text → Bool
is_some_data none = false
is_some_data (some _) = true

-- A result with the connection it leaves.
abbrev pub with_conn : {A : Type 0} → Result A × Conn → Result (A × Conn)
with_conn (failure e, c) = failure e
with_conn (value a, c) = value (a, c)

-- The three files that a rollover leaves, after the topic's directory.
abbrev pub segment_path : Text → ℕ → Text → ℕ → Text → Text
segment_path root leader topic partition name =
    root
    ++ (codes "broker_"
        ++ (decimal_ℕ leader
            ++ (codes "/"
                ++ (topic
                    ++ (codes "/partition_" ++ (decimal_ℕ partition ++ (codes "/" ++ name)))))))

abbrev pub cold_log_path : ℕ → Text → ℕ → Text
cold_log_path leader topic partition =
    segment_path (codes "./data/cold_storage/") leader topic partition
      (codes "00000000000000000000.log")

abbrev pub cold_idx_path : ℕ → Text → ℕ → Text
cold_idx_path leader topic partition =
    segment_path (codes "./data/cold_storage/") leader topic partition
      (codes "00000000000000000000.idx")

abbrev pub active_log_path : ℕ → Text → ℕ → Text
active_log_path leader topic partition =
    segment_path (codes "./data/") leader topic partition (codes "00000000000000000005.log")

-- `pkill -f "rust-broker --id %d"`
abbrev pub kill_broker : ℕ → List Text
kill_broker id = codes "pkill" ∷ codes "-f" ∷ (codes "rust-broker --id " ++ decimal_ℕ id) ∷ []

abbrev pub follower_port : ℕ → ℕ
follower_port id = if id == 2 then 9092 else 9091

abbrev pub restart_broker : ℕ → List Text
restart_broker id =
    codes "./rust-broker/target/release/rust-broker"
    ∷ codes "--id"
    ∷ decimal_ℕ id
    ∷ codes "--host"
    ∷ codes "127.0.0.1"
    ∷ codes "--data-port"
    ∷ decimal_ℕ (follower_port id)
    ∷ codes "--controller"
    ∷ codes "http://127.0.0.1:8001"
    ∷ codes "--storage-dir"
    ∷ (codes "./data/broker_" ++ decimal_ℕ id)
    ∷ []

abbrev pub broker_log : ℕ → Text
broker_log id = codes "broker" ++ (decimal_ℕ id ++ codes ".log")

-- `sendProduce` and `sendFetch` at a time: the answer is what comes on the connection by then.
module _ {World : Type 0} (lab : Lab World) where
  unfoldable pub produce_on : Text → ℕ → Text → Conn → Script World (ℕ × Conn)
  unfolding send_produce
  produce_on topic partition message c w =
      let sent = send_produce topic partition message (lab.arriving c w) in
      (with_conn sent, lab.delivered sent.1 w)

  unfoldable pub fetch_on : Text → ℕ → ℕ → Conn → Script World (Option Text × Conn)
  unfolding send_fetch
  fetch_on topic partition offset c w =
      let fetched = send_fetch topic partition offset (lab.arriving c w) in
      (with_conn fetched, lab.delivered fetched.1 w)
