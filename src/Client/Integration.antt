-- ===== src/Client/Integration.antt =====
-- `handleIntegrationTest` of client/main.go, as a run over its surroundings. The lines that report its
-- progress are left out, as is `Close`.
pub mod Surroundings
pub mod Answers
pub mod Listed
pub mod Elected
pub mod Steps
pub mod Unblocked
pub mod Verdict
use aero_mq.Prelude.{
  ℕ, zero, suc, Bool, true, false, not, ◌||◌, Option, none, some, List, [], ◌∷◌, ◌++◌, Text, codes,
  text_key, nat_key, ◌==◌, if◌then◌else◌,
}
use aero_mq.Prelude.Decimal.{decimal_ℕ}
use aero_mq.Server.Messages.{
  BrokerInfo, MetadataRequest, MetadataResponse, CreateTopicRequest, CreateTopicResponse,
}
use aero_mq.Client.Leader.{find_broker}
use aero_mq.Script.{Result, value, failure}
use aero_mq.Client.Exchange.{Conn, send_produce, send_fetch}
use aero_mq.Script.{Script, ◌>>=◌, ◌>>◌, pure, lift, act, fatal_if, or_fatal, failing_as, check}
use aero_mq.Client.Integration.Answers.{Roles, find_roles, last_address, address_of, current_leader}
use aero_mq.Client.Integration.Surroundings.{
  Lab, message_text, uncommitted, after_failover, text_of, is_some_data, produce_on, fetch_on,
  cold_log_path, cold_idx_path, active_log_path, kill_broker, restart_broker, broker_log,
}

module _ {World : Type 0} (lab : Lab World) where
  abbrev pub ask_metadata : Text → Script World MetadataResponse
  ask_metadata topic = lab.send_get_metadata (record { topics = topic ∷ [] })

  unfoldable pub fatal_if_missing : Text → Text → Script World (Unit {0})
  fatal_if_missing message path w = fatal_if (lab.is_missing path w) (message ++ path) w

  -- Step 1.
  unfoldable pub create_test_topic : Text → Script World (Unit {0})
  create_test_topic topic = do
    resp ←
        failing_as (codes "Failed to create topic: ")
          (lab.send_create_topic (record { topic = topic; partitions = 1; replication_factor = 2 }))
    fatal_if (not resp.success) (codes "Topic creation rejected: " ++ resp.message)

  -- Step 2: the roles and the addresses of the leader and the follower.
  unfoldable pub resolve_roles : Text → ℕ → Script World (Roles × Text × Text)
  unfolding find_roles last_address decimal_ℕ
  resolve_roles topic partition = do
    meta ← failing_as (codes "Failed to fetch metadata: ") (ask_metadata topic)
    let roles = find_roles topic partition meta.topics
    fatal_if (not roles.found) (codes "Topic metadata not found")
    let leader_addr = last_address roles.leader_id [] meta.brokers
    let follower_addr = last_address roles.follower_id [] meta.brokers
    fatal_if (leader_addr == [] || follower_addr == []) (
        codes "Could not resolve addresses for leader ("
        ++ (decimal_ℕ roles.leader_id
            ++ (codes ") and follower (" ++ (decimal_ℕ roles.follower_id ++ codes ")"))))
    pure (roles, leader_addr, follower_addr)

  -- Step 4.
  unfoldable pub check_segments : ℕ → Text → ℕ → Script World (Unit {0})
  check_segments leader topic partition = do
    fatal_if_missing (codes "Rolled over log file not found in cold storage at ")
        (cold_log_path leader topic partition)
    fatal_if_missing (codes "Rolled over idx file not found in cold storage at ")
        (cold_idx_path leader topic partition)
    fatal_if_missing (codes "New active segment log file not found at ")
        (active_log_path leader topic partition)

  -- Step 3: the loop that produces messages `i` and on, for the rounds that are left.
  unfoldable pub produce_messages : Text → ℕ → ℕ → ℕ → Conn → Script World Conn
  unfolding produce_on decimal_ℕ
  produce_messages topic partition i zero c = pure c
  produce_messages topic partition i (suc rounds) c = do
    (_, c') ←
        failing_as (codes "Failed to produce message " ++ (decimal_ℕ i ++ codes ": "))
          (produce_on lab topic partition (message_text i) c)
    produce_messages topic partition (suc i) rounds c'

  -- Step 5: the connection after record 0 has been fetched.
  unfoldable pub check_retrieval : Text → ℕ → Conn → Script World Conn
  unfolding fetch_on
  check_retrieval topic partition c = do
    (bytes, c') ← failing_as (codes "Fetch offset 0 failed: ") (fetch_on lab topic partition 0 c)
    fatal_if (not (text_of bytes == message_text 0)) (
        codes "Retrieved message mismatch: expected '"
        ++ (message_text 0 ++ (codes "', got '" ++ (text_of bytes ++ codes "'"))))
    pure c'

  -- Step 6, up to the fetch that must find nothing.
  unfoldable pub check_blocking : Text → ℕ → ℕ → Conn → Script World (Unit {0})
  unfolding produce_on fetch_on decimal_ℕ
  check_blocking topic partition follower c = do
    act (lab.run_command (kill_broker follower))
    act (lab.sleep 1000)
    (_, c') ←
        failing_as (codes "Failed to produce message at offset 6: ")
          (produce_on lab topic partition uncommitted c)
    (bytes, _) ← failing_as (codes "Fetch offset 6 failed: ") (fetch_on lab topic partition 6 c')
    fatal_if (is_some_data bytes) (
        codes
          "ERROR: Consumer fetched message before it was committed (replicated) to replica! Data: "
        ++ text_of bytes)

  -- A round of the consumer in the background, on a connection of its own: the data, if it gets any.
  unfoldable pub attempt : Text → Text → ℕ → ℕ → World → Option Text × World
  unfolding fetch_on
  attempt addr topic partition offset w =
      let dialled = lab.connect addr w in
      elim dialled.0 [
        | failure e ↦ (none, dialled.1)
        | value c ↦
            let fetched = fetch_on lab topic partition offset c dialled.1 in
            (elim fetched.0 [ failure e ↦ none | value answer ↦ answer.0 ], fetched.1)
      ]

  -- Its loop, for the rounds that it makes before the test takes its next step.
  unfoldable pub await_record : ℕ → Text → Text → ℕ → ℕ → World → Option Text × World
  unfolding attempt
  await_record zero addr topic partition offset w = (none, w)
  await_record (suc rounds) addr topic partition offset w =
      let tried = attempt addr topic partition offset w in
      elim tried.0 [
        | some bytes ↦ (some bytes, tried.1)
        | none ↦ await_record rounds addr topic partition offset (lab.sleep 100 tried.1)
      ]

  -- What it has found when the test takes its next step. Once it has data, it waits to hand them over.
  unfoldable pub meanwhile : Text → Text → ℕ → Option Text → Script World (Option Text)
  unfolding await_record
  meanwhile addr topic partition (some bytes) w = (value (some bytes), w)
  meanwhile addr topic partition none w =
      let read = await_record (lab.tries w) addr topic partition 6 w in (value read.0, read.1)

  -- The rest of step 6. The consumer runs from here on, while the follower is started again.
  unfoldable pub check_unblocked : Text → ℕ → ℕ → Text → Script World (Unit {0})
  unfolding meanwhile decimal_ℕ
  check_unblocked topic partition follower leader_addr = do
    early ← meanwhile leader_addr topic partition none
    opened ← (λ w. let (e, w') = lab.open_log (broker_log follower) w in (value e, w'))
    check (codes "Failed to open log file for follower: ") opened
    later ← meanwhile leader_addr topic partition early
    started ← (λ w.
        let (e, w') = lab.start_command (restart_broker follower) (broker_log follower) w in
        (value e, w'))
    check (codes "Failed to restart follower broker: ") started
    read ← meanwhile leader_addr topic partition later
    fatal_if (not (is_some_data read)) (codes "TIMEOUT: Consumer did not receive unblocked message")
    fatal_if (not (text_of read == uncommitted))
        (codes "Consumer read incorrect message: " ++ text_of read)

  -- The loop that waits for the follower to lead, for the rounds that are left: its address, if it is
  -- found. The loop ends too where the follower leads and is not listed.
  unfoldable pub await_election : ℕ → Text → ℕ → ℕ → Script World (Option Text)
  unfolding current_leader find_broker
  await_election zero topic partition follower w = (value none, w)
  await_election (suc rounds) topic partition follower w =
      let asked = ask_metadata topic (lab.sleep 1000 w) in
      let again = await_election rounds topic partition follower asked.1 in
      elim asked.0 [
        | failure e ↦ again
        | value meta ↦
            if current_leader topic partition meta.topics == follower
            then (
              value (elim (find_broker follower meta.brokers) [
                | none ↦ none
                | some b ↦ some (address_of b)
              ]),
              asked.1,
            )
            else again
      ]

  -- Step 7.
  unfoldable pub check_failover : Text → ℕ → ℕ → ℕ → Script World (Unit {0})
  unfolding await_election produce_on fetch_on decimal_ℕ
  check_failover topic partition leader follower = do
    act (lab.run_command (kill_broker leader))
    elected ← await_election 20 topic partition follower
    fatal_if (not (is_some_data elected))
        (codes "Failover reelection failed. Follower was not promoted to leader")
    c ← failing_as (codes "Failed to connect to new leader: ") (lab.connect (text_of elected))
    (offset, c') ←
        failing_as (codes "Produce to new leader failed: ")
          (produce_on lab topic partition after_failover c)
    (bytes, _) ←
        failing_as (codes "Fetch from new leader failed: ") (fetch_on lab topic partition offset c')
    fatal_if (not (text_of bytes == after_failover)) (
        codes "Data mismatch from new leader: expected '"
        ++ (after_failover ++ (codes "', got '" ++ (text_of bytes ++ codes "'"))))

  -- The whole test on a topic: it ends with a value where all of its steps pass.
  unfoldable pub test_topic : Text → Script World (Unit {0})
  unfolding create_test_topic resolve_roles produce_messages check_segments check_retrieval
      check_blocking check_unblocked check_failover
  test_topic topic = do
    create_test_topic topic
    act (lab.sleep 3000)
    (roles, leader_addr, _) ← resolve_roles topic 0
    c ← failing_as (codes "Failed to connect to leader: ") (lab.connect leader_addr)
    _ ← produce_messages topic 0 0 6 c
    act (lab.sleep 3000)
    check_segments roles.leader_id topic 0
    d ← failing_as (codes "Failed to connect to leader: ") (lab.connect leader_addr)
    d' ← check_retrieval topic 0 d
    check_blocking topic 0 roles.follower_id d'
    check_unblocked topic 0 roles.follower_id leader_addr
    check_failover topic 0 roles.leader_id roles.follower_id

  unfoldable pub integration_test : Script World (Unit {0})
  unfolding test_topic decimal_ℕ
  integration_test w = test_topic (codes "test-integration-" ++ decimal_ℕ (lab.unix_time w)) w
