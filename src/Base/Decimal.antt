-- ===== src/Base/Decimal.antt =====
-- `strconv.Itoa`, `strconv.Atoi` and `strconv.ParseUint(s, 10, 64)`.
pub mod RoundTrip
use Prim.Native.Nat.{ℕ, zero, suc, ◌+◌, ◌-◌, ◌*◌, ◌/◌, ◌%◌, ◌^◌}
use Prim.Native.Char.{Char, code}
use Prim.Native.String.{String, ◌++◌}
use mathlib.Core.Path.{◌≡◌, refl}
use mathlib.Core.Bool.{Bool, true, false, ◌&&◌}
use mathlib.Core.Option.{Option, none, some}
use text.Mathlib.Text.{◌==◌}
use winchaos.Base.Tests.{ltb, leb, nat_eq, if◌then◌else◌}
use winchaos.Base.Int.{ℤ, pos, negsuc, max_int64, min_int64}

digit : ℕ → String
digit zero = "0"
digit (suc zero) = "1"
digit (suc (suc zero)) = "2"
digit (suc (suc (suc zero))) = "3"
digit (suc (suc (suc (suc zero)))) = "4"
digit (suc (suc (suc (suc (suc zero))))) = "5"
digit (suc (suc (suc (suc (suc (suc zero)))))) = "6"
digit (suc (suc (suc (suc (suc (suc (suc zero))))))) = "7"
digit (suc (suc (suc (suc (suc (suc (suc (suc zero)))))))) = "8"
digit _ = "9"

-- The fuel `suc n` is enough: a quotient by ten is smaller than what it divides.
decimal : ℕ → ℕ → String
decimal zero n = ""
decimal (suc fuel) n =
    let high = decimal fuel (n / 10) in if ltb n 10 then digit n else high ++ digit (n % 10)

unfoldable pub itoa_ℕ : ℕ → String
unfolding digit decimal
itoa_ℕ n = decimal (suc n) n

unfoldable pub itoa : ℤ → String
unfolding itoa_ℕ
itoa (pos n) = itoa_ℕ n
itoa (negsuc n) = "-" ++ itoa_ℕ (suc n)

-- The number that a run of digits spells behind `n`; `none` at any other character.
digits : ℕ → String → Option ℕ
digits n String.[] = some n
digits n (String.◌∷◌ c s) =
    if leb b'0' (code c) && leb (code c) b'9' then digits (n * 10 + (code c - b'0')) s else none

unfoldable pub numeral : String → Option ℕ
unfolding digits
numeral s = if s == "" then none else digits 0 s

-- `ParseUint(s, 10, 64)`: `none` is an error of syntax or of range.
unfoldable pub parse_uint64 : String → Option ℕ
unfolding numeral
parse_uint64 s = elim (numeral s) [ none ↦ none | some n ↦ if ltb n (2 ^ 64) then some n else none ]

-- The value beside the error: 0 for a text that is no number, the nearest bound out of range.
abbrev to_int : Bool → Option ℕ → ℤ × Bool
to_int negative none = (pos 0, true)
to_int false (some n) = if ltb n (2 ^ 63) then (pos n, false) else (max_int64, true)
to_int true (some zero) = (pos 0, false)
to_int true (some (suc n)) = if ltb n (2 ^ 63) then (negsuc n, false) else (min_int64, true)

-- `Atoi`: the value, and whether there is an error.
unfoldable pub atoi : String → ℤ × Bool
unfolding numeral
atoi String.[] = to_int false none
atoi (String.◌∷◌ c s) =
    if nat_eq (code c) b'-'
    then to_int true (numeral s)
    else if nat_eq (code c) b'+'
    then to_int false (numeral s)
    else to_int false (numeral (String.◌∷◌ c s))

atoi_runs :
    (atoi "-12" ≡ (negsuc 11, false)) × (atoi "x" ≡ (pos 0, true)) × (atoi "" ≡ (pos 0, true))
unfolding atoi
atoi_runs = (refl, refl, refl)

itoa_runs : itoa_ℕ 19527 ≡ "19527"
unfolding itoa_ℕ
itoa_runs = refl
