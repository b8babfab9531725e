-- ===== src/Client/Exchange.antt =====
-- `sendProduce`, `sendFetch` and the loop of `handleConsume` of client/main.go, on a connection.
use aero_mq.Prelude.{
  ℕ, zero, suc, ◌+◌, ◌*◌, ◌%◌, ◌^◌, Bool, not, ◌&&◌, Option, none, some, List, [], ◌∷◌, ◌++◌, Text,
  codes, nat_key, ◌==◌, if◌then◌else◌,
}
use aero_mq.Prelude.Int.{pos}
use aero_mq.Prelude.Decimal.{decimal}
use aero_mq.Script.{Result, value, failure}
use aero_mq.Client.Frames.{
  get_be32, magic_0, magic_1, produce_header, produce_body, fetch_header, fetch_body,
}

-- A connection: the bytes that will still come before it is closed, those written so far, and how
-- many more writes it takes.
pub record Conn : Type 0 where
  pub incoming : Text
  pub written : Text
  pub room : ℕ

abbrev pub write_error : Text
write_error = codes "write: broken pipe"

abbrev pub unexpected_eof : Text
unexpected_eof = codes "unexpected EOF"

-- `conn.Write`; `none` is the error.
unfoldable pub write : Text → Conn → Option Conn
write bytes c = elim c.room [
  | zero ↦ none
  | suc room ↦ some (record c { written = c.written ++ bytes; room = room })
]

-- The first `n` bytes and the rest, if there are as many.
unfoldable pub split_at : ℕ → Text → Option (Text × Text)
split_at zero s = some ([], s)
split_at (suc n) [] = none
split_at (suc n) (c ∷ s) = elim (split_at n s) [ none ↦ none | some r ↦ some (c ∷ r.0, r.1) ]

-- `io.ReadFull`: the bytes and what comes after them, or the error of a connection that ends.
unfoldable pub read_full : ℕ → Text → Result (Text × Text)
unfolding split_at
read_full n [] = elim n [ zero ↦ value ([], []) | suc _ ↦ failure (codes "EOF") ]
read_full n (c ∷ s) = elim (split_at n (c ∷ s)) [ none ↦ failure unexpected_eof | some r ↦ value r ]

abbrev pub bad_magic : Text
bad_magic = codes "invalid response magic"

abbrev pub is_magic : ℕ → ℕ → Bool
is_magic a b = a == magic_0 && b == magic_1

abbrev pub status_error : ℕ → Text
status_error status = codes "broker error status: " ++ decimal (pos status)

-- The eleven bytes that answer a produce request.
unfoldable pub produce_reply : Text → Result ℕ
produce_reply (m ∷ n ∷ status ∷ a ∷ b ∷ c ∷ d ∷ e ∷ f ∷ g ∷ h ∷ _) =
    if not (is_magic m n)
    then failure bad_magic
    else if not (status == 0)
    then failure (status_error status)
    else value (get_be32 a b c d * 2 ^ 32 + get_be32 e f g h)
produce_reply _ = failure unexpected_eof

-- The two writes of a request; after a failure the connection is not used again.
unfoldable pub send_frame : Text → Text → Conn → Option Conn
unfolding write
send_frame header body c = elim (write header c) [ none ↦ none | some c' ↦ write body c' ]

unfoldable pub send_produce : Text → ℕ → Text → Conn → Result ℕ × Conn
unfolding send_frame read_full produce_reply
send_produce topic partition message c =
    elim (send_frame (produce_header topic message) (produce_body topic partition message) c) [
      | none ↦ (failure write_error, c)
      | some c' ↦ elim (read_full 11 c'.incoming) [
        | failure e ↦ (failure e, record c' { incoming = [] })
        | value r ↦ (produce_reply r.0, record c' { incoming = r.1 })
      ]
    ]

abbrev pub size_of : Text → ℕ
size_of (a ∷ b ∷ c ∷ d ∷ _) = get_be32 a b c d
size_of _ = 0

-- The size and the bytes of a record.
unfoldable pub read_payload : Text → Result (Option Text) × Text
unfolding read_full
read_payload s = elim (read_full 4 s) [
  | failure e ↦ (failure e, [])
  | value r ↦ elim (read_full (size_of r.0) r.1) [
    | failure e ↦ (failure e, [])
    | value t ↦ (value (some t.0), t.1)
  ]
]

-- The answer to a fetch request; no data is the value `none`.
unfoldable pub read_fetch : Text → Result (Option Text) × Text
unfolding read_payload
read_fetch (m ∷ n ∷ status ∷ s) =
    let payload = read_payload s in
    if not (is_magic m n)
    then (failure bad_magic, s)
    else if status == 1
    then (value none, s)
    else if not (status == 2)
    then (failure (status_error status), s)
    else payload
read_fetch [] = (failure (codes "EOF"), [])
read_fetch _ = (failure unexpected_eof, [])

unfoldable pub send_fetch : Text → ℕ → ℕ → Conn → Result (Option Text) × Conn
unfolding send_frame read_fetch
send_fetch topic partition start_offset c =
    elim (send_frame (fetch_header topic) (fetch_body topic partition start_offset) c) [
      | none ↦ (failure write_error, c)
      | some c' ↦ let r = read_fetch c'.incoming in (r.0, record c' { incoming = r.1 })
    ]

-- How a run of `consume` ends: at the end of the data, or with the error that is fatal. `stuck` is
-- a run whose fuel is used up.
pub data Ending : Type 0 where
  finished : Ending
  fatal : Text → Ending
  stuck : Ending

-- The loop of `handleConsume`: what is printed, with its offset, and how it ends. A uint64 offset
-- wraps.
unfoldable pub consume : ℕ → Text → ℕ → Bool → ℕ → Conn → List (ℕ × Text) × Ending
unfolding send_fetch
consume zero topic partition follow offset c = ([], stuck)
consume (suc fuel) topic partition follow offset c =
    let fetched = send_fetch topic partition offset c in
    elim fetched.0 [
      | failure e ↦ ([], fatal e)
      | value answer ↦ elim answer [
        | none ↦
            let rest = consume fuel topic partition follow offset fetched.1 in
            if follow then rest else ([], finished)
        | some bytes ↦
            let rest = consume fuel topic partition follow ((offset + 1) % 2 ^ 64) fetched.1 in
            ((offset, bytes) ∷ rest.0, rest.1)
      ]
    ]
