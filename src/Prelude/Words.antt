-- ===== src/Prelude/Words.antt =====
-- Go's `int64` as a bit pattern below 2 ^ 64, the decimal print of a number, and joined text.
use Prim.Native.Nat.{ℕ, zero, suc, ◌+◌, ◌-◌, ◌/◌, ◌%◌, ◌^◌}
use Prim.Native.Char.{code}
use Prim.Native.String.{String, ◌++◌}
use mathlib.Core.Bool.{Bool, false, ◌&&◌, ◌||◌}
use mathlib.Core.List.{List, [], ◌∷◌}
use nutanix_vma.Prelude.Tests.{str_eq, is_empty, ltb, ◌==◌, if◌then◌else◌}

abbrev pub word : ℕ
word = 2 ^ 64

-- The first pattern that stands for a negative number.
abbrev pub half_word : ℕ
half_word = 2 ^ 63

-- `a + b` on int64 wraps.
abbrev pub add64 : ℕ → ℕ → ℕ
add64 a b = (a + b) % word

-- `a > 0` on int64.
abbrev pub is_pos64 : ℕ → Bool
is_pos64 a = ltb 0 a && ltb a half_word

-- `a / b` on int64 for a positive divisor: it rounds towards zero.
abbrev pub div64 : ℕ → ℕ → ℕ
div64 a b = if ltb a half_word then a / b else (word - (word - a) / b) % word

abbrev pub concat : List String → String
concat [] = ""
concat (s ∷ ss) = s ++ concat ss

abbrev pub contains : String → List String → Bool
contains id [] = false
contains id (x ∷ xs) = str_eq x id || contains id xs

-- The code points of a text.
abbrev pub codes : String → List ℕ
codes String.[] = []
codes (String.◌∷◌ c s) = code c ∷ codes s

unfoldable pub digit : ℕ → String
digit d =
    if d == 0
    then "0"
    else if d == 1
    then "1"
    else if d == 2
    then "2"
    else if d == 3
    then "3"
    else if d == 4
    then "4"
    else if d == 5
    then "5"
    else if d == 6
    then "6"
    else if d == 7
    then "7"
    else if d == 8
    then "8"
    else "9"

-- `n` has at most `n + 1` digits, which is the fuel that `decimal` gives.
unfoldable pub digits : ℕ → ℕ → String → String
digits zero n out = out
digits (suc f) n out =
    let rest = digits f (n / 10) (digit (n % 10) ++ out) in
    if ltb n 10 then digit n ++ out else rest

-- `%d` of a number that is not negative.
unfoldable pub decimal : ℕ → String
unfolding digits digit
decimal n = digits (suc n) n ""

-- `%d` of an int64.
unfoldable pub decimal64 : ℕ → String
unfolding decimal
decimal64 n = if ltb n half_word then decimal n else "-" ++ decimal (word - n)

-- `strings.TrimRight(url, "/")`
unfoldable pub trim_slashes : String → String
trim_slashes String.[] = String.[]
trim_slashes (String.◌∷◌ c s) =
    let rest = trim_slashes s in
    if is_empty rest && code c == b'/' then String.[] else String.◌∷◌ c rest
