-- ===== src/Fmt.antt =====
-- `fmt.Sscanf(s, "%d", &v)` of Go, for an `int` or an `int64`: a number at the start of a text.
pub mod RoundTrip
use aero_mq.Prelude.{
  ℕ, zero, suc, ◌+◌, ◌-◌, ◌*◌, ◌^◌, Bool, ◌&&◌, ◌||◌, Option, none, some, [], ◌∷◌, get_or, ltb, leb,
  Text, nat_key, ◌==◌, if◌then◌else◌,
}
use aero_mq.Prelude.Int.{ℤ, pos, negsuc, two63}

-- The bytes of the space that a text starts with, and 0 if it starts with none: the ASCII ones but
-- the newline, then U+0085 and U+00A0, U+1680, U+2000 to U+200A, U+2028, U+2029, U+202F, U+205F and
-- U+3000 in UTF-8.
unfoldable pub space_size : Text → ℕ
space_size [] = 0
space_size (a ∷ s) =
    let b = get_or s 0 0 in
    let c = get_or s 1 0 in
    if a == 32 || (leb 9 a && leb a 13)
    then 1
    else if a == 194 && (b == 133 || b == 160)
    then 2
    else if (a == 225 && (b == 154 && c == 128))
        || (a == 226
            && (b == 128 && ((leb 128 c && leb c 138) || (c == 168 || (c == 169 || c == 175)))))
        || (a == 226 && (b == 129 && c == 159))
        || (a == 227 && (b == 128 && c == 128))
    then 3
    else 0

-- `SkipSpace`: what follows the spaces, with the number of bytes still to be dropped of the last
-- one; a newline is an error.
unfoldable pub skip_space : ℕ → Text → Option Text
unfolding space_size
skip_space n [] = some []
skip_space (suc n) (a ∷ s) = skip_space n s
skip_space zero (a ∷ s) =
    let size = space_size (a ∷ s) in
    let rest = skip_space (size - 1) s in
    if a == 10 then none else if size == 0 then some (a ∷ s) else rest

abbrev pub is_digit : ℕ → Bool
is_digit d = leb 48 d && leb d 57

-- The number that the digits make, after those that make `n`. Whatever follows them is left.
unfoldable pub scan_digits : ℕ → Text → ℕ
scan_digits n [] = n
scan_digits n (d ∷ s) =
    let rest = scan_digits (n * 10 + (d - 48)) s in if is_digit d then rest else n

-- At least one digit.
unfoldable pub scan_ℕ : Text → Option ℕ
unfolding scan_digits
scan_ℕ [] = none
scan_ℕ (d ∷ s) = if is_digit d then some (scan_digits 0 (d ∷ s)) else none

-- `strconv.ParseInt` into 64 bits.
abbrev pub positive : Option ℕ → Option ℤ
positive none = none
positive (some n) = if ltb n two63 then some (pos n) else none

abbrev pub negative : Option ℕ → Option ℤ
negative none = none
negative (some zero) = some (pos 0)
negative (some (suc n)) = if ltb n two63 then some (negsuc n) else none

abbrev pub scan_signed : Text → Option ℤ
scan_signed [] = none
scan_signed (c ∷ s) =
    if c == 45
    then negative (scan_ℕ s)
    else if c == 43
    then positive (scan_ℕ s)
    else positive (scan_ℕ (c ∷ s))

unfoldable pub scan_int : Text → Option ℤ
unfolding skip_space scan_ℕ
scan_int s = elim (skip_space 0 s) [ none ↦ none | some t ↦ scan_signed t ]
