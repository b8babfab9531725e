-- ===== src/Tests/Integration.antt =====
-- Tests of Client/Integration.
use aero_mq.Prelude.{
  Bool, ltb, if◌then◌else◌, ℕ, zero, suc, ◌==◌, length, ◌<◌, ◌≡◌, refl, true, false, none, some, [],
  ◌∷◌, ◌++◌, Text, codes, arith, text_key, nat_key, if◌then◌else◌,
}
use aero_mq.Prelude.Decimal.{decimal, decimal_ℕ, digits}
use aero_mq.Prelude.Int.{pos}
use aero_mq.Prelude.Range.{arrange}
use aero_mq.Fsm.Failover.{clean_inactive, is_expired}
use aero_mq.Fsm.Metadata.{get_metadata, is_left_out, copy_topic, copy_partition}
use aero_mq.Server.Listing.{Orders, list_topics}
use aero_mq.Server.Messages.{PartitionMetadata, MetadataRequest, MetadataResponse}
use aero_mq.Script.{◌>>=◌, failing_as, fatal_if, check, or_fatal}
use aero_mq.Server.Handlers.{metadata_response}
use aero_mq.Client.Frames.{
  fetch_body, fetch_header, frame_header, produce_body, produce_header, be32, be64, magic_0,
  magic_1,
}
use aero_mq.Script.{value}
use aero_mq.Client.Exchange.{
  produce_reply, read_fetch, read_full, read_payload, send_fetch, send_frame, send_produce,
  split_at, write, Conn,
}
use aero_mq.Client.Leader.{find_broker}
use aero_mq.Client.Leader.Listed.{info_of}
use aero_mq.Client.Integration.Surroundings.{
  produce_on, fetch_on, Lab, message_text, uncommitted, after_failover,
}
use aero_mq.Client.Integration.{
  produce_messages, attempt, meanwhile, integration_test, await_election, fatal_if_missing,
  await_record, check_blocking, check_failover, check_retrieval, check_segments, check_unblocked,
  create_test_topic, resolve_roles, test_topic,
}
use aero_mq.Client.Integration.Answers.{
  find_roles, first_follower, last_address, over_partitions, over_topics, see_partition, Roles,
  address_of, current_leader,
}
use aero_mq.Client.Integration.Elected.{follower-elected, polled, goes_on}
use aero_mq.Client.Integration.Verdict.{Seen, integration_test-passed}
use aero_mq.Tests.Samples.{seconds, broker, cluster, orders_topic, partition_0, at}
use aero_mq.Tests.Failover.{cluster-Sound}
use aero_mq.Tests.Server.{cluster-IsWellFormed}

abbrev plain : Orders
plain = record { broker_order = []; topic_order = []; partition_orders = λ _. [] }

-- A world that counts the pauses, the requests and the brokers that have been killed, and knows
-- whether the follower has been started again.
record Count : Type 0 where
  naps : ℕ
  asked : ℕ
  kills : ℕ
  up : Bool

-- Answers to produce and fetch requests.
abbrev stored : ℕ → Text
stored offset = magic_0 ∷ magic_1 ∷ 0 ∷ be64 offset

abbrev data_of : Text → Text
data_of bytes = magic_0 ∷ magic_1 ∷ 2 ∷ (be32 (length bytes) ++ bytes)

abbrev no_data : Text
no_data = magic_0 ∷ magic_1 ∷ 1 ∷ []

-- What the brokers answer: while both live, six offsets and record 0; with the follower killed, the
-- next offset, and record 6 once the follower is up; and then the new leader's offset and record.
abbrev answer_in : Count → Text
answer_in w =
    if w.kills == 0
    then (if ltb w.asked 6 then stored w.asked else data_of (message_text 0))
    else if w.kills == 1
    then (if w.asked == 7 then stored 6 else if w.up then data_of uncommitted else no_data)
    else if w.asked == 12
    then stored 7
    else data_of after_failover

abbrev bench : (ℕ → MetadataRequest → MetadataResponse) → Lab Count
bench answer = record {
  unix_time = λ _. 7;
  send_create_topic = λ _ w. (value (record { success = true; message = [] }), w);
  send_get_metadata = λ req w. (value (answer w.naps req), w);
  connect = λ _ w. (value (record { incoming = []; written = []; room = 100 }), w);
  arriving = λ c w. record c { incoming = answer_in w };
  delivered = λ _ w. record w { asked = suc w.asked };
  sleep = λ _ w. record w { naps = suc w.naps };
  is_missing = λ _ _. false;
  run_command = λ _ w. record w { kills = suc w.kills };
  open_log = λ _ w. (none, w);
  start_command = λ _ _ w. (none, record w { up = true });
  tries = λ _. 1;
}

-- The controller sweeps the brokers of the small cluster after a while.
abbrev sweeping : ℕ → MetadataRequest → MetadataResponse
sweeping naps req =
    metadata_response plain req
      (if naps == 6 then clean_inactive (at (seconds 9)) cluster else cluster)

abbrev waiting : Count
waiting = record { naps = 4; asked = 0; kills = 2; up = true }

-- The follower is found in the second round.
old_leader :
    (j : ℕ)
    → j < 1
    → goes_on
        (bench sweeping)
        orders_topic
        0
        2
        (polled (bench sweeping) orders_topic 0 2 j (waiting))
      ≡ true
unfolding polled current_leader metadata_response list_topics arrange get_metadata is_left_out
    copy_topic copy_partition
old_leader zero h = refl
old_leader (suc j) h = absurd (omega (arith, h))

swept_answer :
    polled (bench sweeping) orders_topic 0 2 1 (waiting)
    ≡ value (
        metadata_response plain
          (record { topics = orders_topic ∷ [] })
          (clean_inactive (at (seconds 9)) cluster))
unfolding polled
swept_answer = refl

follower-elected_example :
    (await_election (bench sweeping) 20 orders_topic 0 2 (waiting)).0
    ≡ value (some (address_of (info_of (broker 2 (seconds 5)))))
unfolding is_expired
follower-elected_example =
    follower-elected (bench sweeping) orders_topic 0 2 20 1 (waiting) plain (at (seconds 9)) cluster
      partition_0 (broker 1 0) (broker 2 (seconds 5)) cluster-IsWellFormed cluster-Sound refl refl
      (omega arith) (omega arith) refl refl refl refl refl (omega arith) old_leader swept_answer

-- The test's own topic, whose leader changes at the same time, and a run on it.
abbrev test_topic_7 : Text
test_topic_7 = codes "test-integration-" ++ decimal_ℕ 7

abbrev partition_led_by : ℕ → PartitionMetadata
partition_led_by leader = record {
  partition_id = 0;
  leader_id = leader;
  replica_ids = 1 ∷ 2 ∷ [];
  isr = [];
  high_watermark = pos 0;
  replica_offsets = [];
}

abbrev changing : ℕ → MetadataRequest → MetadataResponse
changing naps req = record {
  brokers = info_of (broker 1 0) ∷ info_of (broker 2 0) ∷ [];
  topics =
      (record {
        topic = test_topic_7;
        partitions = partition_led_by (if naps == 7 then 2 else 1) ∷ [];
      })
      ∷ [];
}

abbrev start : Count
start = record { naps = 0; asked = 0; kills = 0; up = false }

passes : (integration_test (bench changing) start).0 ≡ value tt
unfolding integration_test ◌>>=◌ failing_as fatal_if fatal_if_missing check produce_reply read_fetch
    read_full read_payload send_fetch send_frame send_produce split_at write fetch_body fetch_header
    frame_header produce_body produce_header current_leader find_roles first_follower last_address
    over_partitions over_topics see_partition await_election await_record attempt meanwhile
    produce_on fetch_on check_blocking check_failover check_retrieval check_segments check_unblocked
    create_test_topic produce_messages resolve_roles test_topic find_broker or_fatal decimal
    decimal_ℕ digits
passes = refl

integration_test-passed_example :
    (t : Roles × Text × Text) × (c : Conn) × (c' : Conn) × (d : Conn) × (d' : Conn) × Seen
      (bench changing)
      test_topic_7
      start
      t
      c
      c'
      d
      d'
integration_test-passed_example = integration_test-passed (bench changing) start passes
