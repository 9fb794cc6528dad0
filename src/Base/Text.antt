-- ===== src/Base/Text.antt =====
-- Texts as the program checks and builds them: lengths in characters, control characters, and the
-- decimal form of a number in a formatted string.
use Prim.Native.Nat.{ℕ, zero, suc, ◌/◌, ◌%◌}
use Prim.Native.Char.{code}
use Prim.Native.String.{String, count, ◌++◌}
use mathlib.Core.Bool.{Bool, true, false, ◌&&◌, ◌||◌}
use audio_ventura.Base.Tests.{ltb, ◌==◌, nat_eq, string_eq, if◌then◌else◌}

-- `not text`
abbrev pub is_empty : String → Bool
is_empty s = s == ""

-- `len(text) > bound`
abbrev pub longer_than : String → ℕ → Bool
longer_than s bound = ltb bound (count s)

-- `any(ord(char) < 33 for char in text)`
unfoldable pub has_blank : String → Bool
has_blank String.[] = false
has_blank (String.◌∷◌ c s) = ltb (code c) 33 || has_blank s

-- `text.startswith(part)` and `part in text`
unfoldable pub has_prefix : String → String → Bool
has_prefix s String.[] = true
has_prefix String.[] (String.◌∷◌ d p) = false
has_prefix (String.◌∷◌ c s) (String.◌∷◌ d p) = code c == code d && has_prefix s p

unfoldable pub contains : String → String → Bool
unfolding has_prefix
contains String.[] p = p == ""
contains (String.◌∷◌ c s) p = has_prefix (String.◌∷◌ c s) p || contains s p

digit : ℕ → String
digit n =
    if n == 0
    then "0"
    else if n == 1
    then "1"
    else if n == 2
    then "2"
    else if n == 3
    then "3"
    else if n == 4
    then "4"
    else if n == 5
    then "5"
    else if n == 6
    then "6"
    else if n == 7
    then "7"
    else if n == 8
    then "8"
    else "9"

decimal_from : ℕ → ℕ → String
decimal_from zero n = ""
decimal_from (suc fuel) n =
    let rest = decimal_from fuel (n / 10) in if ltb n 10 then digit n else rest ++ digit (n % 10)

-- `str(n)`: a number has at most as many digits as its successor counts.
unfoldable pub decimal : ℕ → String
unfolding digit decimal_from
decimal n = decimal_from (suc n) n
