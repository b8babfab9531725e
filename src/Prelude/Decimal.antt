-- ===== src/Prelude/Decimal.antt =====
-- Numbers in decimal, as Go's fmt and strconv print them.
use Prim.Native.Nat.{ℕ, zero, suc, ◌+◌, ◌/◌, ◌%◌}
use mathlib.Core.List.{[], ◌∷◌}
use aero_mq.Prelude.Tests.{ltb, if◌then◌else◌}
use aero_mq.Prelude.Keys.{Text}
use aero_mq.Prelude.Int.{ℤ, pos, negsuc}

-- The digits of a number, before those that follow it; the fuel is more than the number.
unfoldable pub digits : ℕ → ℕ → Text → Text
digits zero n rest = rest
digits (suc fuel) n rest =
    let digit = b'0' + n % 10 in
    let more = digits fuel (n / 10) (digit ∷ rest) in if ltb n 10 then digit ∷ rest else more

unfoldable pub decimal_ℕ : ℕ → Text
unfolding digits
decimal_ℕ n = digits (suc n) n []

-- `%d`
unfoldable pub decimal : ℤ → Text
unfolding decimal_ℕ
decimal (pos n) = decimal_ℕ n
decimal (negsuc n) = b'-' ∷ decimal_ℕ (suc n)
