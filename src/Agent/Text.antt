-- ===== src/Agent/Text.antt =====
-- What the agent does with texts: `strings.Trim(s, " ")`, the pattern `^/(.*)/$`, and `%d`.
use Prim.Native.Char.{Char, code}
use Prim.Native.String.{◌++◌ as append}
use bpfman_operator.Shared.{
  trim_char, ℕ, zero, suc, ◌+◌, ◌/◌, ◌%◌, ℤ, pos, negsuc, String, Option, none, some, ◌==◌, nat_eq,
  ltb, string_eq, if◌then◌else◌, ◌≡◌, refl,
}

-- `strings.Trim(s, " ")`
unfoldable pub trim : String → String
trim = trim_char 32

abbrev cons? : Char → Option String → Option String
cons? c none = none
cons? c (some s) = some (String.◌∷◌ c s)

-- What stands before a final slash, on one line.
abbrev before_last_slash : String → Option String
before_last_slash String.[] = none
before_last_slash (String.◌∷◌ c String.[]) = if code c == b'/' then some "" else none
before_last_slash (String.◌∷◌ c (String.◌∷◌ d s)) =
    let rest = before_last_slash (String.◌∷◌ d s) in if code c == 10 then none else cons? c rest

-- The group of `^/(.*)/$`, if the text matches.
unfoldable pub between_slashes : String → Option String
between_slashes String.[] = none
between_slashes (String.◌∷◌ c s) = if code c == b'/' then before_last_slash s else none

abbrev digit : ℕ → String
digit n =
    if n == 0
    then "0"
    else if n == 1
    then "1"
    else if n == 2
    then "2"
    else if n == 3
    then "3"
    else if n == 4
    then "4"
    else if n == 5
    then "5"
    else if n == 6
    then "6"
    else if n == 7
    then "7"
    else if n == 8
    then "8"
    else "9"

-- The decimal digits; `fuel` bounds their number.
abbrev decimal : ℕ → ℕ → String
decimal zero n = ""
decimal (suc fuel) n =
    let rest = decimal fuel (n / 10) in if ltb n 10 then digit n else append rest (digit (n % 10))

-- `%d` of an `int32`, which has ten digits at most.
unfoldable pub int32_string : ℤ → String
int32_string (pos n) = decimal 10 n
int32_string (negsuc n) = append "-" (decimal 10 (n + 1))

-- The decimal digits of a `uint64`, of which there are twenty at most.
abbrev pub uint64_string : ℕ → String
uint64_string n = decimal 20 n

trim_test : trim "  a b " ≡ "a b"
unfolding trim
trim_test = refl

between_test : between_slashes "/eth[0-9]/" ≡ some "eth[0-9]"
unfolding between_slashes
between_test = refl

int32_test : int32_string (pos 1203) ≡ "1203"
unfolding int32_string
int32_test = refl
