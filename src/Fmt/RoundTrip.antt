-- ===== src/Fmt/RoundTrip.antt =====
-- A number that `%d` prints is scanned back.
use aero_mq.Prelude.{
  ℕ, zero, suc, ◌+◌, ◌/◌, ◌%◌, ◌<◌, ◌≤◌, ◌≡◌, refl, ap, ◌∙◌, true, Bool-cases, inl, inr, some, [],
  ◌∷◌, Text, arith, ltb, nat_key,
}
use aero_mq.Prelude.Int.{ℤ, pos, negsuc, IsIn, two63}
use aero_mq.Prelude.Decimal.{digits, decimal_ℕ, decimal}
use aero_mq.Fmt.{
  space_size, skip_space, is_digit, scan_digits, scan_ℕ, positive, negative, scan_signed, scan_int,
  Text, ℕ,
}

scan_digits-digits :
    (fuel n : ℕ) (rest : Text) → n < fuel → scan_digits 0 (digits fuel n rest) ≡ scan_digits n rest
unfolding digits scan_digits
scan_digits-digits zero n rest h = absurd (omega (arith, h))
scan_digits-digits (suc fuel) n rest h =
    ground (arith, h, scan_digits-digits fuel (n / 10) ((48 + n % 10) ∷ rest))

-- A text that starts with a digit.
abbrev StartsWithDigit : Text → Type 0
StartsWithDigit s = (d : ℕ) × (t : Text) × (s ≡ d ∷ t) × (is_digit d ≡ true)

digits-StartsWithDigit :
    (fuel n : ℕ) (rest : Text) → n < fuel → StartsWithDigit (digits fuel n rest)
unfolding digits
digits-StartsWithDigit zero n rest h = absurd (omega (arith, h))
digits-StartsWithDigit (suc fuel) n rest h = elim (Bool-cases (ltb n 10)) [
  | inl y ↦ (48 + n % 10, rest, rw y refl, ground arith)
  | inr y ↦
      rw y (digits-StartsWithDigit fuel (n / 10) ((48 + n % 10) ∷ rest) (ground (arith, y, h)))
]

scan_ℕ-digit : (s : Text) → StartsWithDigit s → scan_ℕ s ≡ some (scan_digits 0 s)
unfolding scan_ℕ
scan_ℕ-digit s (d, t, e, h) = rw (e, h) refl

scan_digits-nil : (n : ℕ) → scan_digits n [] ≡ n
unfolding scan_digits
scan_digits-nil n = refl

decimal_ℕ-StartsWithDigit : (n : ℕ) → StartsWithDigit (decimal_ℕ n)
unfolding decimal_ℕ
decimal_ℕ-StartsWithDigit n = digits-StartsWithDigit (suc n) n [] (omega arith)

scan_ℕ-decimal_ℕ : (n : ℕ) → scan_ℕ (decimal_ℕ n) ≡ some n
unfolding decimal_ℕ
scan_ℕ-decimal_ℕ n =
    scan_ℕ-digit (digits (suc n) n []) (decimal_ℕ-StartsWithDigit n)
    ∙ ap some (scan_digits-digits (suc n) n [] (omega arith) ∙ scan_digits-nil n)

space_size-visible : (d : ℕ) (t : Text) → 33 ≤ d → d < 128 → space_size (d ∷ t) ≡ 0
unfolding space_size
space_size-visible d t l h = ground (arith, l, h)

skip_space-visible : (d : ℕ) (t : Text) → 33 ≤ d → d < 128 → skip_space 0 (d ∷ t) ≡ some (d ∷ t)
unfolding skip_space
skip_space-visible d t l h = rw (space_size-visible d t l h) (ground (arith, l, h))

scan_signed-digit : (s : Text) → StartsWithDigit s → scan_signed s ≡ positive (scan_ℕ s)
scan_signed-digit s (d, t, e, h) = rw (e) (ground (arith, h))

skip_space-digit : (s : Text) → StartsWithDigit s → skip_space 0 s ≡ some s
skip_space-digit s (d, t, e, h) =
    rw (e) (skip_space-visible d t (ground (arith, h)) (ground (arith, h)))

scan_int-visible : (s : Text) → skip_space 0 s ≡ some s → scan_int s ≡ scan_signed s
unfolding scan_int
scan_int-visible s e = rw (e, scan_int) refl

-- An int64 is read back from its decimal form.
pub scan_int-decimal : (v : ℤ) → IsIn two63 v → scan_int (decimal v) ≡ some v
unfolding decimal
scan_int-decimal (pos n) h =
    let first : StartsWithDigit (decimal_ℕ n) = decimal_ℕ-StartsWithDigit n in
    scan_int-visible (decimal_ℕ n) (skip_space-digit (decimal_ℕ n) first)
    ∙ scan_signed-digit (decimal_ℕ n) first
    ∙ ap positive (scan_ℕ-decimal_ℕ n)
    ∙ ground (arith, h)
scan_int-decimal (negsuc n) h =
    scan_int-visible (45 ∷ decimal_ℕ (suc n))
      (skip_space-visible 45 (decimal_ℕ (suc n)) (omega arith) (omega arith))
    ∙ ap negative (scan_ℕ-decimal_ℕ (suc n))
    ∙ ground (arith, h)
