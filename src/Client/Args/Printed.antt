-- ===== src/Client/Args/Printed.antt =====
-- What the client reads of the numbers on its command line.
use aero_mq.Prelude.{◌^◌, ◌≡◌, refl, some, List, ◌∷◌, Text, codes, text_key}
use aero_mq.Prelude.Int.{ℤ, IsIn, two63}
use aero_mq.Prelude.Decimal.{decimal}
use aero_mq.Fmt.{scan_int}
use aero_mq.Fmt.RoundTrip.{scan_int-decimal}
use aero_mq.Client.Args.{
  to_unsigned, act_create_topic, act_produce, act_consume, is_follow, parse_create, parse_produce,
  parse_consume, parse_args,
}

parse_create-scanned :
    (topic p r : Text) (more : List Text) (v w : ℤ)
    → scan_int p ≡ some v
    → scan_int r ≡ some w
    → parse_create (topic ∷ p ∷ r ∷ more)
      ≡ act_create_topic topic (to_unsigned (2 ^ 32) v) (to_unsigned (2 ^ 32) w)
unfolding parse_create
parse_create-scanned topic p r more v w e f = rw (e, f, parse_create) refl

parse_produce-scanned :
    (topic p message : Text) (more : List Text) (v : ℤ)
    → scan_int p ≡ some v
    → parse_produce (topic ∷ p ∷ message ∷ more)
      ≡ act_produce topic (to_unsigned (2 ^ 32) v) message
unfolding parse_produce
parse_produce-scanned topic p message more v e = rw (e, parse_produce) refl

parse_consume-scanned :
    (topic p o : Text) (more : List Text) (v w : ℤ)
    → scan_int p ≡ some v
    → scan_int o ≡ some w
    → parse_consume (topic ∷ p ∷ o ∷ more)
      ≡ act_consume topic (to_unsigned (2 ^ 32) v) (to_unsigned (2 ^ 64) w) (is_follow more)
unfolding parse_consume
parse_consume-scanned topic p o more v w e f = rw (e, f, parse_consume) refl

-- A command line that writes its numbers `v` and `w` in decimal, both of them int64 values, is read
-- as the command that it names: with the topic and the message as they stand, `--follow` only as the
-- fifth argument, and each number brought into its unsigned type. A number that is in range there
-- is read as it was written; a negative one wraps.
pub parse_args-decimal :
    (topic message : Text) (more : List Text) (v w : ℤ)
    → IsIn two63 v
    → IsIn two63 w
    → (parse_args (codes "create-topic" ∷ topic ∷ decimal v ∷ decimal w ∷ more)
        ≡ act_create_topic topic (to_unsigned (2 ^ 32) v) (to_unsigned (2 ^ 32) w))
      × (parse_args (codes "produce" ∷ topic ∷ decimal v ∷ message ∷ more)
          ≡ act_produce topic (to_unsigned (2 ^ 32) v) message)
      × (parse_args (codes "consume" ∷ topic ∷ decimal v ∷ decimal w ∷ more)
          ≡ act_consume topic (to_unsigned (2 ^ 32) v) (to_unsigned (2 ^ 64) w) (is_follow more))
unfolding parse_args
parse_args-decimal topic message more v w hv hw = (
  parse_create-scanned topic (decimal v) (decimal w) more v w (scan_int-decimal v hv)
      (scan_int-decimal w hw),
  parse_produce-scanned topic (decimal v) message more v (scan_int-decimal v hv),
  parse_consume-scanned topic (decimal v) (decimal w) more v w (scan_int-decimal v hv)
      (scan_int-decimal w hw),
)
