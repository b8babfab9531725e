-- ===== src/Broker/Requests.antt =====
-- The requests that `handle_connection` of rust-broker/src/net/server.rs reads from a connection:
-- the header, its checks and the fields of each body. What it does with a request is not modelled.
pub mod Sent
use aero_mq.Prelude.{
  ℕ, ◌+◌, ◌*◌, ◌^◌, Bool, not, ◌&&◌, Option, none, some, List, [], ◌∷◌, Text, nat_key, ◌==◌,
  if◌then◌else◌,
}
use aero_mq.Json.{◌>>=◌}
use aero_mq.Client.Frames.{get_be16, get_be32, magic_0, magic_1}
use aero_mq.Client.Exchange.{split_at}
use aero_mq.Broker.Utf8.{is_utf8}

pub data Request : Type 0 where
  produce_request : Text → ℕ → Text → Request
  fetch_request : Text → ℕ → ℕ → ℕ → Request
  replica_fetch_request : ℕ → Text → ℕ → ℕ → ℕ → Request

-- `from_be_bytes` of a u16, a u32 and a u64 at the front of a slice, and the rest of it.
unfoldable pub take_be16 : Text → Option (ℕ × Text)
take_be16 (a ∷ b ∷ s) = some (get_be16 a b, s)
take_be16 _ = none

unfoldable pub take_be32 : Text → Option (ℕ × Text)
take_be32 (a ∷ b ∷ c ∷ d ∷ s) = some (get_be32 a b c d, s)
take_be32 _ = none

unfoldable pub take_be64 : Text → Option (ℕ × Text)
take_be64 (a ∷ b ∷ c ∷ d ∷ e ∷ f ∷ g ∷ h ∷ s) =
    some (get_be32 a b c d * 2 ^ 32 + get_be32 e f g h, s)
take_be64 _ = none

-- The length of the topic in two bytes, and the topic.
unfoldable pub take_topic : Text → Option (Text × Text)
unfolding take_be16 split_at is_utf8
take_topic s = do
  size ← take_be16 s
  topic ← split_at size.0 size.1
  if is_utf8 topic.0 then some topic else none

unfoldable pub read_produce : Text → Option Request
unfolding take_topic take_be32 split_at
read_produce body = do
  topic ← take_topic body
  partition ← take_be32 topic.1
  size ← take_be32 partition.1
  payload ← split_at size.0 size.1
  some (produce_request topic.0 partition.0 payload.0)

unfoldable pub read_fetch_body : Text → Option Request
unfolding take_topic take_be32 take_be64
read_fetch_body body = do
  topic ← take_topic body
  partition ← take_be32 topic.1
  offset ← take_be64 partition.1
  size ← take_be32 offset.1
  some (fetch_request topic.0 partition.0 offset.0 size.0)

unfoldable pub read_replica_fetch : Text → Option Request
unfolding take_topic take_be32 take_be64
read_replica_fetch body = do
  replica ← take_be32 body
  topic ← take_topic replica.1
  partition ← take_be32 topic.1
  offset ← take_be64 partition.1
  size ← take_be32 offset.1
  some (replica_fetch_request replica.0 topic.0 partition.0 offset.0 size.0)

-- The `match` on the command.
unfoldable pub read_body : ℕ → Text → Option Request
unfolding read_produce read_fetch_body read_replica_fetch
read_body cmd body =
    if cmd == 1
    then read_produce body
    else if cmd == 2
    then read_fetch_body body
    else if cmd == 3
    then read_replica_fetch body
    else none

-- A round of the loop: a request and the bytes after it, the end of the connection before a whole
-- header, or an error, which ends the connection.
pub data Incoming : Type 0 where
  request : Request → Text → Incoming
  closed : Incoming
  refused : Incoming

abbrev pub or_refused : Option Request → Text → Incoming
or_refused none rest = refused
or_refused (some r) rest = request r rest

unfoldable pub read_request : Text → Incoming
unfolding split_at read_body
read_request (m ∷ n ∷ cmd ∷ a ∷ b ∷ c ∷ d ∷ s) =
    if not (m == magic_0 && n == magic_1) then refused else (elim (split_at (get_be32 a b c d) s) [
      | none ↦ refused
      | some body ↦ or_refused (read_body cmd body.0) body.1
    ])
read_request _ = closed
