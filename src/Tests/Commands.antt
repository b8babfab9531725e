-- ===== src/Tests/Commands.antt =====
-- Tests of Fmt, Client/Args, Client/Leader, Client/Commands and Broker.
use aero_mq.Prelude.{
  ◌≡◌, refl, true, false, none, some, [], ◌∷◌, ◌++◌, codes, arith, text_key, nat_key,
}
use aero_mq.Prelude.Int.{pos, negsuc}
use aero_mq.Prelude.Decimal.{decimal, decimal_ℕ}
use aero_mq.Fmt.{scan_int, skip_space, space_size, scan_ℕ, scan_digits}
use aero_mq.Server.Listing.{Orders}
use aero_mq.Server.Handlers.{metadata_response}
use aero_mq.Client.Frames.{produce_header, produce_body, fetch_header, fetch_body, max_bytes}
use aero_mq.Script.{value, failure}
use aero_mq.Client.Args.{act_create_topic, act_produce, act_consume, parse_args, parse_create}
use aero_mq.Client.Args.Printed.{parse_args-decimal}
use aero_mq.Client.Leader.{address, get_partition_leader_addr}
use aero_mq.Client.Leader.Found.{has_leader, get_partition_leader_addr-leader}
use aero_mq.Client.Commands.{Site, handle_produce}
use aero_mq.Client.Commands.Produced.{accepting, handle_produce-published}
use aero_mq.Broker.Utf8.{is_utf8, is_utf8_from}
use aero_mq.Broker.Requests.{request, produce_request, fetch_request, read_request}
use aero_mq.Broker.Requests.Sent.{read_request-sent}
use aero_mq.Tests.Samples.{broker, cluster, orders_topic, partition_0}
use aero_mq.Tests.Server.{cluster-IsWellFormed}

abbrev plain : Orders
plain = record { broker_order = []; topic_order = []; partition_orders = λ _. [] }

scan_spaces : scan_int (codes "  -12abc") ≡ some (negsuc 11)
unfolding scan_int skip_space space_size scan_ℕ scan_digits
scan_spaces = refl

scan_newline : scan_int (10 ∷ codes "7") ≡ none
unfolding scan_int skip_space
scan_newline = refl

-- A negative count of partitions is a large one.
parse_negative :
    parse_args (codes "create-topic" ∷ codes "t" ∷ codes "-1" ∷ codes "1" ∷ [])
    ≡ act_create_topic (codes "t") 4294967295 1
unfolding parse_args parse_create scan_int skip_space space_size scan_ℕ scan_digits
parse_negative = refl

parse_args-decimal_example :
    (parse_args (codes "create-topic" ∷ codes "t" ∷ decimal (pos 3) ∷ decimal (pos 2) ∷ [])
      ≡ act_create_topic (codes "t") 3 2)
    × (parse_args (codes "produce" ∷ codes "t" ∷ decimal (pos 3) ∷ codes "hi" ∷ [])
        ≡ act_produce (codes "t") 3 (codes "hi"))
    × (parse_args (codes "consume" ∷ codes "t" ∷ decimal (pos 3) ∷ decimal (pos 2) ∷ [])
        ≡ act_consume (codes "t") 3 2 false)
parse_args-decimal_example =
    parse_args-decimal (codes "t") (codes "hi") [] (pos 3) (pos 2) (omega arith) (omega arith)

orders-is_utf8 : is_utf8 orders_topic ≡ true
unfolding is_utf8 is_utf8_from
orders-is_utf8 = refl

read_request-sent_example :
    (read_request (
        produce_header orders_topic (codes "hi")
        ++ (produce_body orders_topic 7 (codes "hi") ++ []))
      ≡ request (produce_request orders_topic 7 (codes "hi")) [])
    × (read_request (fetch_header orders_topic ++ (fetch_body orders_topic 7 5 ++ []))
        ≡ request (fetch_request orders_topic 7 5 max_bytes) [])
read_request-sent_example =
    read_request-sent orders_topic (codes "hi") [] 7 5 (omega arith) orders-is_utf8 (omega arith)
      (omega arith) (omega arith)

get_partition_leader_addr-leader_example :
    get_partition_leader_addr
      (metadata_response plain (record { topics = orders_topic ∷ [] }) cluster)
      orders_topic
      0
    ≡ address (codes "127.0.0.1" ++ (codes ":" ++ decimal (pos 9091)))
get_partition_leader_addr-leader_example =
    get_partition_leader_addr-leader plain cluster orders_topic 0 partition_0 (broker 1 0)
      cluster-IsWellFormed refl refl refl

-- A controller with the small cluster's state, and brokers that answer with the offset 41.
abbrev site : Site
site = record {
  call_get_metadata = λ req. value (metadata_response plain req cluster);
  call_create_topic = λ _. failure (codes "unavailable");
  dial = λ _. value (accepting 41 0 []);
}

handle_produce-published_example :
    let run = handle_produce site orders_topic 0 (codes "hi") in
    (run.printed ≡ (codes "Message published successfully! Assigned Offset: " ++ decimal_ℕ 41) ∷ [])
    × (run.failed ≡ none)
    × (read_request run.sent ≡ request (produce_request orders_topic 0 (codes "hi")) [])
handle_produce-published_example =
    handle_produce-published site plain cluster orders_topic (codes "hi") [] 0 41 0 partition_0
      (broker 1 0) cluster-IsWellFormed refl refl refl refl refl (omega arith) orders-is_utf8
      (omega arith) (omega arith) (omega arith)

no_leader : has_leader orders_topic 7 cluster ≡ false
unfolding has_leader
no_leader = refl
