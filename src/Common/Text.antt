-- ===== src/Common/Text.antt =====
-- Go strings as native texts: the conversions `[]rune(s)` and `string(runes)`, and decimal printing.
use Prim.Native.Nat.{ℕ, zero, suc, ◌+◌, ◌/◌, ◌%◌}
use Prim.Native.Char.{Char, code}
use Prim.Native.String.{String, ◌++◌ as ◌<>◌}
use mathlib.Core.Path.{◌≡◌, refl, ap}
use mathlib.Core.List.{List, [], ◌∷◌, ◌++◌}
use Prim.Native.String.append
use contract_review_ai_agent.Common.Tests.{◌==◌, ltb, if◌then◌else◌}
use contract_review_ai_agent.Common.Int.{ℤ, pos, negsuc}

-- `[]rune(s)`
abbrev pub runes : String → List Char
runes String.[] = []
runes (String.◌∷◌ c s) = c ∷ runes s

-- `string(rs)`
abbrev pub from_runes : List Char → String
from_runes [] = String.[]
from_runes (c ∷ cs) = String.◌∷◌ c (from_runes cs)

pub runes-from_runes : (cs : List Char) → runes (from_runes cs) ≡ cs
runes-from_runes [] = refl
runes-from_runes (c ∷ cs) = ap (λ t. c ∷ t) (runes-from_runes cs)

pub from_runes-runes : (s : String) → from_runes (runes s) ≡ s
from_runes-runes String.[] = refl
from_runes-runes (String.◌∷◌ c s) = ap (String.◌∷◌ c) (from_runes-runes s)

pub runes-append : (s t : String) → runes (s <> t) ≡ runes s ++ runes t
runes-append String.[] t = rw (append.nil t)
runes-append (String.◌∷◌ c s) t = rw (append.cons c s t) (ap (λ r. c ∷ r) (runes-append s t))

unfoldable pub digit_text : ℕ → String
digit_text d =
    if d == 0
    then "0"
    else if d == 1
    then "1"
    else if d == 2
    then "2"
    else if d == 3
    then "3"
    else if d == 4
    then "4"
    else if d == 5
    then "5"
    else if d == 6
    then "6"
    else if d == 7
    then "7"
    else if d == 8
    then "8"
    else "9"

-- The digits of `n` in front of `acc`; `n` itself is fuel enough, since each round divides by 10.
unfoldable pub decimal_from : ℕ → ℕ → String → String
decimal_from zero n acc = acc
decimal_from (suc fuel) n acc =
    let acc' = digit_text (n % 10) <> acc in
    let rest = decimal_from fuel (n / 10) acc' in if n / 10 == 0 then acc' else rest

-- `%d`
unfoldable pub decimal : ℕ → String
unfolding decimal_from digit_text
decimal n = decimal_from (suc n) n ""

decimal_example : decimal 4096 ≡ "4096"
unfolding decimal
decimal_example = refl

-- `%d` of a number that can be negative
unfoldable pub decimal_ℤ : ℤ → String
unfolding decimal
decimal_ℤ (pos n) = decimal n
decimal_ℤ (negsuc n) = "-" <> decimal (suc n)

-- `len(s)`: the bytes of UTF-8
utf8_width : ℕ → ℕ
utf8_width c = if ltb c 128 then 1 else if ltb c 2048 then 2 else if ltb c 65536 then 3 else 4

runes_bytes : List Char → ℕ
unfolding utf8_width
runes_bytes [] = 0
runes_bytes (c ∷ cs) = utf8_width (code c) + runes_bytes cs

unfoldable pub byte_length : String → ℕ
unfolding runes_bytes
byte_length s = runes_bytes (runes s)
