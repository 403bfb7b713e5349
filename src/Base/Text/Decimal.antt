-- ===== src/Base/Text/Decimal.antt =====
-- `%d` on a natural number. The fuel is one more than the number, and each round divides by ten.
use Prim.Native.Nat.{ℕ, zero, suc, ◌/◌, ◌%◌, ◌<◌}
use Prim.Native.Char.{Char}
use Prim.Native.String.{String, char_at}
use mathlib.Core.Path.{◌≡◌}
use native.Mathlib.Omega.{arith}
use zta_core.Base.Tests.{ltb, if◌then◌else◌}

digit : ℕ → Char
digit n = char_at "0123456789" n

decimal_from : ℕ → ℕ → String → String
unfolding digit
decimal_from zero n acc = acc
decimal_from (suc fuel) n acc =
    let more = String.◌∷◌ (digit (n % 10)) acc in
    let rest = decimal_from fuel (n / 10) more in if ltb n 10 then more else rest

unfoldable pub decimal : ℕ → String
unfolding decimal_from
decimal n = decimal_from (suc n) n ""

-- More fuel than the number changes nothing.
decimal_from_fuel :
    (f g n : ℕ) (acc : String) → n < f → n < g → decimal_from f n acc ≡ decimal_from g n acc
unfolding decimal_from
decimal_from_fuel zero g n acc h k = elim h [ ]
decimal_from_fuel (suc f) zero n acc h k = elim k [ ]
decimal_from_fuel (suc f) (suc g) n acc h k =
    ground (arith, decimal_from_fuel f g (n / 10) (String.◌∷◌ (digit (n % 10)) acc))
