-- ===== src/Client/Args.antt =====
-- The argument switch of `main` and `printUsage` of client/main.go. The arguments are those that
-- `flag.Parse` leaves, after the `-controller` flag.
pub mod Printed
use aero_mq.Prelude.{
  ℕ, suc, ◌-◌, ◌%◌, ◌^◌, Bool, true, false, Option, none, some, List, [], ◌∷◌, Text, codes,
  text_key, ◌==◌, if◌then◌else◌,
}
use aero_mq.Prelude.Int.{ℤ, pos, negsuc}
use aero_mq.Fmt.{scan_int}

-- `uint32(v)` and `uint64(v)` of a signed value, with `m` the number of values of the type.
abbrev pub to_unsigned : ℕ → ℤ → ℕ
to_unsigned m (pos n) = n % m
to_unsigned m (negsuc n) = m - suc (n % m)

-- What the client is to do. `fatal` ends the process with status 1 and a message; of a message with
-- an error in it the part before the error is kept.
pub data Action : Type 0 where
  show_usage : Action
  fatal : Text → Action
  show_metadata : Action
  act_create_topic : Text → ℕ → ℕ → Action
  act_produce : Text → ℕ → Text → Action
  act_consume : Text → ℕ → ℕ → Bool → Action
  integration_test : Action

-- `case "create-topic"`, with the arguments after the command.
unfoldable pub parse_create : List Text → Action
parse_create (topic ∷ partitions ∷ factor ∷ _) = elim (scan_int partitions) [
  | none ↦ fatal (codes "Invalid partitions: ")
  | some p ↦ elim (scan_int factor) [
    | none ↦ fatal (codes "Invalid replication factor: ")
    | some r ↦ act_create_topic topic (to_unsigned (2 ^ 32) p) (to_unsigned (2 ^ 32) r)
  ]
]
parse_create _ =
    fatal (codes "Usage: client create-topic <topic> <partitions> <replication_factor>")

-- `case "produce"`
unfoldable pub parse_produce : List Text → Action
parse_produce (topic ∷ partition ∷ message ∷ _) = elim (scan_int partition) [
  | none ↦ fatal (codes "Invalid partition: ")
  | some p ↦ act_produce topic (to_unsigned (2 ^ 32) p) message
]
parse_produce _ = fatal (codes "Usage: client produce <topic> <partition> <message>")

-- `len(args) > 4 && args[4] == "--follow"`
abbrev pub is_follow : List Text → Bool
is_follow [] = false
is_follow (flag ∷ _) = flag == codes "--follow"

-- `case "consume"`
unfoldable pub parse_consume : List Text → Action
parse_consume (topic ∷ partition ∷ offset ∷ more) = elim (scan_int partition) [
  | none ↦ fatal (codes "Invalid partition: ")
  | some p ↦ elim (scan_int offset) [
    | none ↦ fatal (codes "Invalid offset: ")
    | some o ↦ act_consume topic (to_unsigned (2 ^ 32) p) (to_unsigned (2 ^ 64) o) (is_follow more)
  ]
]
parse_consume _ = fatal (codes "Usage: client consume <topic> <partition> <offset> [--follow]")

unfoldable pub parse_args : List Text → Action
unfolding parse_create parse_produce parse_consume
parse_args [] = show_usage
parse_args (cmd ∷ args) =
    if cmd == codes "metadata"
    then show_metadata
    else if cmd == codes "create-topic"
    then parse_create args
    else if cmd == codes "produce"
    then parse_produce args
    else if cmd == codes "consume"
    then parse_consume args
    else if cmd == codes "integration-test"
    then integration_test
    else show_usage

-- The lines of `printUsage`.
abbrev pub usage : List Text
usage =
    codes "AeroMQ CLI Client"
    ∷ codes "Usage:"
    ∷ codes "  client --controller <host:port> <command> [args]"
    ∷ codes ""
    ∷ codes "Commands:"
    ∷ codes
        "  metadata                                                   Fetch cluster topology details"
    ∷ codes
        "  create-topic <topic> <partitions> <replication_factor>      Create a new topic with configurations"
    ∷ codes
        "  produce <topic> <partition> <message>                      Publish a message payload to a partition"
    ∷ codes
        "  consume <topic> <partition> <offset> [--follow]            Retrieve messages starting from an offset"
    ∷ codes
        "  integration-test                                           Run comprehensive integration test suite"
    ∷ []
