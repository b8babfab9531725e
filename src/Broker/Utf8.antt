-- ===== src/Broker/Utf8.antt =====
-- `String::from_utf8` of Rust: which byte strings it takes.
use aero_mq.Prelude.{
  ℕ, zero, suc, Bool, true, false, ◌&&◌, [], ◌∷◌, leb, ltb, Text, nat_key, ◌==◌, if◌then◌else◌,
}

-- A first byte: how many bytes follow it, and the range of the next; none for a byte that starts no
-- code point.
abbrev pub lead_byte : ℕ → ℕ × ℕ × ℕ
lead_byte a =
    if leb 194 a && leb a 223
    then (1, 128, 191)
    else if a == 224
    then (2, 160, 191)
    else if a == 237
    then (2, 128, 159)
    else if leb 225 a && leb a 239
    then (2, 128, 191)
    else if a == 240
    then (3, 144, 191)
    else if leb 241 a && leb a 243
    then (3, 128, 191)
    else if a == 244
    then (3, 128, 143)
    else (0, 0, 0)

-- `n` bytes are still to come of the code point under way, the next one from `low` to `high`.
unfoldable pub is_utf8_from : ℕ → ℕ → ℕ → Text → Bool
is_utf8_from zero low high [] = true
is_utf8_from (suc n) low high [] = false
is_utf8_from (suc n) low high (c ∷ s) = leb low c && (leb c high && is_utf8_from n 128 191 s)
is_utf8_from zero low high (a ∷ s) =
    let lead = lead_byte a in
    let ascii = is_utf8_from zero 0 0 s in
    let other = is_utf8_from lead.0 lead.1 lead.2 s in
    if ltb a 128 then ascii else ltb 0 lead.0 && other

unfoldable pub is_utf8 : Text → Bool
unfolding is_utf8_from
is_utf8 s = is_utf8_from 0 0 0 s
