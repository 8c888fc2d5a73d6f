-- ===== src/Shared/Texts.antt =====
-- What Go's package strings does with one-character sets and prefixes.
use Prim.Native.Nat.{ℕ}
use Prim.Native.Char.{Char, code}
use Prim.Native.String.{String, ◌++◌ as append}
use Prim.Native.String.append.{nil, cons}
use mathlib.Core.Path.{◌≡◌, refl, ap}
use mathlib.Core.Logic.{inl, inr}
use mathlib.Core.Bool.{Bool, false, ◌&&◌, ◌||◌}
use mathlib.Core.List.{List, [], ◌∷◌}
use mathlib.Core.Option.{Option, none, some}
use native.Mathlib.Omega.{arith}
use bpfman_operator.Shared.Tests.{beq_refl, leb, Bool-cases, ◌==◌, nat_eq, if◌then◌else◌}

-- Characters by code: `cut` tells those that are cut off.
module _ (cut : ℕ → Bool) where
  abbrev trim_left : String → String
  trim_left String.[] = String.[]
  trim_left (String.◌∷◌ c s) =
      let rest = trim_left s in if cut (code c) then rest else String.◌∷◌ c s

  abbrev add_unless_cut : Char → String → String
  add_unless_cut c String.[] = if cut (code c) then String.[] else String.◌∷◌ c String.[]
  add_unless_cut c (String.◌∷◌ d s) = String.◌∷◌ c (String.◌∷◌ d s)

  abbrev trim_right : String → String
  trim_right String.[] = String.[]
  trim_right (String.◌∷◌ c s) = add_unless_cut c (trim_right s)

  abbrev pub trim_where : String → String
  trim_where s = trim_left (trim_right s)

-- `strings.Trim(s, string(c))`
abbrev pub trim_char : ℕ → String → String
trim_char c = trim_where (λ x. x == c)

-- `unicode.IsSpace`
abbrev is_space : ℕ → Bool
is_space c =
    leb 9 c && leb c 13
    || (c == 32 || c == 133 || c == 160 || c == 5760)
    || (leb 8192 c && leb c 8202)
    || (c == 8232 || c == 8233 || c == 8239 || c == 8287 || c == 12288)

-- `strings.TrimSpace(s)`
abbrev pub trim_space : String → String
trim_space = trim_where is_space

-- `strings.HasPrefix(s, string(first))`
abbrev pub has_first : ℕ → String → Bool
has_first first String.[] = false
has_first first (String.◌∷◌ c s) = code c == first

-- `strings.HasSuffix(s, string(last))`
abbrev pub has_last : ℕ → String → Bool
has_last last String.[] = false
has_last last (String.◌∷◌ c String.[]) = code c == last
has_last last (String.◌∷◌ c (String.◌∷◌ d s)) = has_last last (String.◌∷◌ d s)

abbrev cons_first : Char → Option (String × String) → Option (String × String)
cons_first c none = none
cons_first c (some (front, back)) = some (String.◌∷◌ c front, back)

-- `strings.SplitN(s, string(sep), 2)`, if it gives two parts.
abbrev pub split_two : ℕ → String → Option (String × String)
split_two sep String.[] = none
split_two sep (String.◌∷◌ c s) =
    let rest = split_two sep s in if code c == sep then some ("", s) else cons_first c rest

-- The text's first word, empty if it begins with a space, and the words after it.
abbrev add_word : String → List String → List String
add_word String.[] words = words
add_word (String.◌∷◌ c word) words = String.◌∷◌ c word ∷ words

abbrev first_word : String → String × List String
first_word String.[] = ("", [])
first_word (String.◌∷◌ c s) =
    let (word, words) = first_word s in
    if is_space (code c) then ("", add_word word words) else (String.◌∷◌ c word, words)

-- `strings.Fields(s)`
abbrev pub fields : String → List String
fields s = let (word, words) = first_word s in add_word word words

-- Whether a character stands in a text.
abbrev pub has_char : ℕ → String → Bool
has_char x String.[] = false
has_char x (String.◌∷◌ c s) = code c == x || has_char x s

pub split_two-append :
    (sep : Char) (front back : String)
    → has_char (code sep) front ≡ false
    → split_two (code sep) (append front (String.◌∷◌ sep back)) ≡ some (front, back)
split_two-append sep String.[] back apart =
    rw (nil (String.◌∷◌ sep back)) (rw (beq_refl (code sep)) refl)
split_two-append sep (String.◌∷◌ c front) back apart =
    let rest = split_two-append sep front back in
    elim (Bool-cases (code c == code sep)) [
      | inl e ↦ ground (arith, apart, e)
      | inr e ↦
          rw (cons c front (String.◌∷◌ sep back))
            (rw e (ap (cons_first c) (rest (ground (arith, apart)))))
    ]
