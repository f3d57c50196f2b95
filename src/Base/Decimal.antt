-- ===== src/Base/Decimal.antt =====
-- The decimal digits of a number, as `to_string` prints it.
use Prim.Native.Nat.{ℕ, zero, suc, ◌+◌, ◌/◌, ◌%◌}
use mathlib.Core.List.{[], ◌∷◌}
use yeu_xharness.Base.Tests.{ltb, if◌then◌else◌}
use yeu_xharness.Base.Text.{Str}

-- The digits of `n` in front of `rest`; one round of fuel for each digit.
unfoldable pub digits_onto : ℕ → ℕ → Str → Str
digits_onto zero n rest = rest
digits_onto (suc fuel) n rest =
    let last = (b'0' + n % 10) ∷ rest in
    let more = digits_onto fuel (n / 10) last in if ltb n 10 then last else more

unfoldable pub decimal : ℕ → Str
unfolding digits_onto
decimal n = digits_onto (suc n) n []
