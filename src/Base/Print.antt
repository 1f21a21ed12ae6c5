-- ===== src/Base/Print.antt =====
-- `str(n)` of a number that is not negative.
use Prim.Native.Nat.{ℕ, zero, suc, ◌/◌, ◌%◌}
use Prim.Native.String.{String, ◌++◌}
use mathlib.Core.List.{List, [], ◌∷◌}
use vixa_system_config_be.Base.Tests.{if◌then◌else◌, ltb}

-- `sep.join(xs)`
unfoldable pub join_with : String → List String → String
join_with sep [] = ""
join_with sep (x ∷ []) = x
join_with sep (x ∷ y ∷ ys) = x ++ sep ++ join_with sep (y ∷ ys)

digit : ℕ → String
digit zero = "0"
digit (suc zero) = "1"
digit (suc (suc zero)) = "2"
digit (suc (suc (suc zero))) = "3"
digit (suc (suc (suc (suc zero)))) = "4"
digit (suc (suc (suc (suc (suc zero))))) = "5"
digit (suc (suc (suc (suc (suc (suc zero)))))) = "6"
digit (suc (suc (suc (suc (suc (suc (suc zero))))))) = "7"
digit (suc (suc (suc (suc (suc (suc (suc (suc zero)))))))) = "8"
digit _ = "9"

-- The fuel bounds the number of digits: `n` has at most `n` of them, and one if it is zero.
print_fuel : ℕ → ℕ → String
print_fuel zero n = digit n
print_fuel (suc fuel) n =
    let rest = print_fuel fuel (n / 10) in if ltb n 10 then digit n else rest ++ digit (n % 10)

unfoldable pub str : ℕ → String
unfolding print_fuel digit
str n = print_fuel n n
