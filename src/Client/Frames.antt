-- ===== src/Client/Frames.antt =====
-- The frames that `sendProduce` and `sendFetch` of client/main.go write: bytes, with each length cut
-- to the width of its field.
use aero_mq.Prelude.{ℕ, ◌+◌, ◌*◌, ◌/◌, ◌%◌, ◌^◌, [], ◌∷◌, ◌++◌, length, Text}

abbrev pub byte : ℕ → ℕ
byte n = n % 256

-- `binary.BigEndian`
abbrev pub be16 : ℕ → Text
be16 n = byte (n / 256) ∷ byte n ∷ []

abbrev pub be32 : ℕ → Text
be32 n = byte (n / 2 ^ 24) ∷ byte (n / 2 ^ 16) ∷ byte (n / 256) ∷ byte n ∷ []

abbrev pub be64 : ℕ → Text
be64 n = be32 (n / 2 ^ 32) ++ be32 n

abbrev pub get_be16 : ℕ → ℕ → ℕ
get_be16 a b = a * 256 + b

abbrev pub get_be32 : ℕ → ℕ → ℕ → ℕ → ℕ
get_be32 a b c d = a * 2 ^ 24 + b * 2 ^ 16 + c * 256 + d

abbrev pub magic_0 : ℕ
magic_0 = 174

abbrev pub magic_1 : ℕ
magic_1 = 1

unfoldable pub frame_header : ℕ → ℕ → Text
frame_header cmd body_len = magic_0 ∷ magic_1 ∷ cmd ∷ be32 body_len

unfoldable pub produce_body : Text → ℕ → Text → Text
produce_body topic partition message =
    be16 (length topic) ++ (topic ++ (be32 partition ++ (be32 (length message) ++ message)))

unfoldable pub produce_header : Text → Text → Text
unfolding frame_header
produce_header topic message = frame_header 1 (2 + length topic + 4 + 4 + length message)

abbrev pub max_bytes : ℕ
max_bytes = 65536

unfoldable pub fetch_body : Text → ℕ → ℕ → Text
fetch_body topic partition start_offset =
    be16 (length topic) ++ (topic ++ (be32 partition ++ (be64 start_offset ++ be32 max_bytes)))

unfoldable pub fetch_header : Text → Text
unfolding frame_header
fetch_header topic = frame_header 2 (2 + length topic + 4 + 8 + 4)
