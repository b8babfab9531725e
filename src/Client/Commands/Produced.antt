-- ===== src/Client/Commands/Produced.antt =====
-- A message that is produced reaches the leader of its partition.
use aero_mq.Prelude.{
  ℕ, suc, ◌^◌, ◌<◌, ◌≡◌, false, refl, sym, ap, ◌∙◌, true, none, some, [], ◌∷◌, ◌++◌, length, Text,
  codes, arith, nat_key, text_key,
}
use aero_mq.Prelude.Decimal.{decimal, decimal_ℕ}
use aero_mq.Prelude.Map.{lookup}
use aero_mq.Fsm.State.{BrokerStatus, PartitionState, ClusterState}
use aero_mq.Fsm.State.Lookup.{find_partition}
use aero_mq.Fsm.WellFormed.{IsWellFormed}
use aero_mq.Server.Listing.{Orders}
use aero_mq.Server.Messages.{MetadataResponse}
use aero_mq.Server.Handlers.{metadata_response}
use aero_mq.Client.Frames.{be64, magic_0, magic_1, produce_header, produce_body}
use aero_mq.Client.Leader.{address, not_found, get_partition_leader_addr}
use aero_mq.Client.Leader.Found.{
  has_leader, reason, get_partition_leader_addr-reason, get_partition_leader_addr-leader,
}
use aero_mq.Script.{value}
use aero_mq.Client.Exchange.{
  Conn, write, send_frame, read_full, split_at, produce_reply, send_produce,
}
use aero_mq.Client.Commands.{fails, Site, leader_addr, report_produced, handle_produce}
use aero_mq.Broker.Utf8.{is_utf8}
use aero_mq.Broker.Requests.{request, produce_request, read_request}
use aero_mq.Broker.Requests.Sent.{get_be64-be64, read_request-sent}

-- A connection that takes two writes or more, and whose broker has stored a record at `offset`.
abbrev pub accepting : ℕ → ℕ → Text → Conn
accepting offset more rest = record {
  incoming = magic_0 ∷ magic_1 ∷ 0 ∷ (be64 offset ++ rest);
  written = [];
  room = suc (suc more);
}

produce_reply-be64 :
    (offset : ℕ)
    → offset < 2 ^ 64
    → produce_reply (magic_0 ∷ magic_1 ∷ 0 ∷ be64 offset) ≡ value offset
unfolding produce_reply
produce_reply-be64 offset h = ap value (get_be64-be64 offset h)

send_produce-accepting :
    (topic message rest : Text) (p offset more : ℕ)
    → offset < 2 ^ 64
    → let done = send_produce topic p message (accepting offset more rest) in
      (done.0 ≡ value offset)
      × (done.1.written ≡ produce_header topic message ++ produce_body topic p message)
unfolding send_produce send_frame write read_full split_at
send_produce-accepting topic message rest p offset more h = (produce_reply-be64 offset h, refl)

handle_produce-sent :
    (site : Site) (topic message : Text) (p : ℕ) (a : Text) (c : Conn) (offset : ℕ) (sent : Text)
    → leader_addr site topic p ≡ address a
    → site.dial a ≡ value c
    → (send_produce topic p message c).0 ≡ value offset
    → (send_produce topic p message c).1.written ≡ sent
    → handle_produce site topic p message ≡ report_produced (value offset) sent
unfolding handle_produce
handle_produce-sent site topic message p a c offset sent e f g h =
    rw (e, f, g, h, handle_produce) refl

leader_addr-answered :
    (site : Site) (topic : Text) (p : ℕ) (resp : MetadataResponse)
    → site.call_get_metadata (record { topics = topic ∷ [] }) ≡ value resp
    → leader_addr site topic p ≡ get_partition_leader_addr resp topic p
unfolding leader_addr
leader_addr-answered site topic p resp e = rw (e, leader_addr) refl

append-nil : (s : Text) → s ++ [] ≡ s
append-nil [] = refl
append-nil (c ∷ s) = ap (◌∷◌ c) (append-nil s)

-- From the command line's produce to the broker: where the controller answers from a well-formed
-- state in which the partition is led by a known and active broker, and the address of that broker
-- takes the connection and answers with an offset, the client prints that offset and does not fail,
-- and what it has sent is read by the broker as a request to append the message to that partition
-- of that topic. The topic is UTF-8 text of less than 2^16 bytes, the partition a uint32, the offset
-- a uint64, and the message shorter than 2^31 bytes.
pub handle_produce-published :
    (site : Site) (o : Orders) (s : ClusterState) (topic message rest : Text) (p offset more : ℕ)
    (ps : PartitionState) (b : BrokerStatus)
    → IsWellFormed s
    → find_partition topic p s.topics ≡ some ps
    → lookup ps.leader_id s.brokers ≡ some b
    → b.active ≡ true
    → site.call_get_metadata (record { topics = topic ∷ [] })
      ≡ value (metadata_response o (record { topics = topic ∷ [] }) s)
    → site.dial (b.host ++ (codes ":" ++ decimal b.port)) ≡ value (accepting offset more rest)
    → length topic < 2 ^ 16
    → is_utf8 topic ≡ true
    → p < 2 ^ 32
    → offset < 2 ^ 64
    → length message < 2 ^ 31
    → let run = handle_produce site topic p message in
      (run.printed
        ≡ (codes "Message published successfully! Assigned Offset: " ++ decimal_ℕ offset) ∷ [])
      × (run.failed ≡ none)
      × (read_request run.sent ≡ request (produce_request topic p message) [])
handle_produce-published site o s topic message rest p offset more ps b w found led active answer
      dialled ht u hp ho hm =
    let sent = send_produce-accepting topic message rest p offset more ho in
    let ran =
      handle_produce-sent site topic message p (b.host ++ (codes ":" ++ decimal b.port))
        (accepting offset more rest) offset
        (produce_header topic message ++ produce_body topic p message)
        (leader_addr-answered site topic p _ answer
          ∙ get_partition_leader_addr-leader o s topic p ps b w found led active)
        dialled sent.0 sent.1 in
    (
      ap (λ r. r.printed) ran,
      ap (λ r. r.failed) ran,
      ap (λ r. read_request r.sent) ran
          ∙ ap (λ x. read_request (produce_header topic message ++ x))
              (sym (append-nil (produce_body topic p message)))
          ∙ (read_request-sent topic message [] p 0 ht u hp (omega arith) hm).0,
    )

handle_produce-unled :
    (site : Site) (topic message : Text) (p : ℕ) (e : Text)
    → leader_addr site topic p ≡ not_found e
    → handle_produce site topic p message
      ≡ fails (codes "Failed to find leader for partition: " ++ e)
unfolding handle_produce
handle_produce-unled site topic message p e h = rw (h, handle_produce) refl

-- Where the controller answers from a well-formed state, and the partition is not there or its leader
-- is no active broker, the produce command ends with an error that tells which of the two it is, and
-- prints and sends nothing, whatever brokers would take a connection.
pub handle_produce-reason :
    (site : Site) (o : Orders) (s : ClusterState) (topic message : Text) (p : ℕ)
    → IsWellFormed s
    → site.call_get_metadata (record { topics = topic ∷ [] })
      ≡ value (metadata_response o (record { topics = topic ∷ [] }) s)
    → has_leader topic p s ≡ false
    → handle_produce site topic p message
      ≡ fails (
          codes "Failed to find leader for partition: " ++ reason (find_partition topic p s.topics))
handle_produce-reason site o s topic message p w answer h =
    handle_produce-unled site topic message p _ (
      leader_addr-answered site topic p _ answer ∙ get_partition_leader_addr-reason o s topic p w h)
