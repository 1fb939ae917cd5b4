-- ===== src/Shared/Decimal.antt =====
-- How JavaScript writes a whole number as a text.
pub mod Read
use Prim.Native.Nat.{ℕ, zero, suc, ◌/◌, ◌%◌}
use Prim.Native.String.{String, ◌++◌ as append}
use mathlib.Core.List.{List, [], ◌∷◌}
use mathlib.Core.Option.{Option, none, some}
use dist_gatling.Shared.Tests.{ltb, if◌then◌else◌}
use dist_gatling.Shared.Lists.{get_elem?}

abbrev digits : List String
digits = "0" ∷ "1" ∷ "2" ∷ "3" ∷ "4" ∷ "5" ∷ "6" ∷ "7" ∷ "8" ∷ "9" ∷ []

abbrev digit_of : Option String → String
digit_of none = ""
digit_of (some s) = s

-- A number as a text; as many digits as the number has units are enough.
decimal_upto : ℕ → ℕ → String
decimal_upto zero n = ""
decimal_upto (suc fuel) n =
    let rest = decimal_upto fuel (n / 10) in
    let last = digit_of (get_elem? digits (n % 10)) in if ltb n 10 then last else append rest last

unfoldable pub decimal : ℕ → String
unfolding decimal_upto
decimal n = decimal_upto (suc n) n
