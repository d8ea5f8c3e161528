-- ===== src/Prelude/Text.antt =====
-- Texts as lists of character codes, and `atoi` of the C library.
use Prim.Native.Nat.{ℕ, ◌+◌, ◌-◌, ◌*◌, ◌%◌, ◌^◌}
use Prim.Native.Char.{code}
use Prim.Native.String.{String}
use mathlib.Core.Bool.{Bool, ◌&&◌, ◌||◌}
use mathlib.Core.Option.{Option, none, some}
use mathlib.Core.List.{List, [], ◌∷◌}
use pluto_server.Prelude.Tests.{leb, ◌==◌, if◌then◌else◌}

abbrev pub codes : String → List ℕ
codes String.[] = []
codes (String.◌∷◌ c s) = code c ∷ codes s

abbrev pub is_space : ℕ → Bool
is_space c = c == b' ' || (leb 9 c && leb c 13)

abbrev pub is_digit : ℕ → Bool
is_digit c = leb b'0' c && leb c b'9'

-- The number that the digits at the front of a text make behind `n`.
unfoldable pub digits_from : ℕ → List ℕ → ℕ
digits_from n [] = n
digits_from n (c ∷ s) =
    let rest = digits_from (n * 10 + (c - b'0')) s in if is_digit c then rest else n

-- The pattern of an `int` of that amount; `none` where it does not fit.
abbrev pub negated : ℕ → Option ℕ
negated n = if leb n (2 ^ 31) then some ((2 ^ 32 - n) % 2 ^ 32) else none

abbrev pub as_int : ℕ → Option ℕ
as_int n = if leb (n + 1) (2 ^ 31) then some n else none

abbrev pub signed_digits : List ℕ → Option ℕ
signed_digits [] = some 0
signed_digits (c ∷ s) =
    if c == b'-'
    then negated (digits_from 0 s)
    else (if c == b'+' then as_int (digits_from 0 s) else as_int (digits_from 0 (c ∷ s)))

-- `atoi`, by the bit pattern of its result; for a number that no `int` is, it is undefined.
unfoldable pub atoi : List ℕ → Option ℕ
unfolding digits_from
atoi [] = some 0
atoi (c ∷ s) = let rest = atoi s in if is_space c then rest else signed_digits (c ∷ s)
