-- ===== src/Base/Decimal.antt =====
-- `String` of a natural number: its decimal digits.
use Prim.Native.Nat.{ℕ, zero, suc, ◌+◌, ◌/◌, ◌%◌}
use mathlib.Core.List.{[], ◌∷◌}
use dsh_opencode.Base.Tests.{ltb, if◌then◌else◌}
use dsh_opencode.Base.Texts.{Text}

-- The digits in front of a rest. A number has fewer digits than the number plus one.
unfoldable pub digits : ℕ → ℕ → Text → Text
digits zero n rest = rest
digits (suc fuel) n rest =
    let more = digits fuel (n / 10) ((b'0' + n % 10) ∷ rest) in
    if ltb n 10 then (b'0' + n) ∷ rest else more

unfoldable pub decimal : ℕ → Text
unfolding digits
decimal n = digits (n + 1) n []
