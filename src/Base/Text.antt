-- ===== src/Base/Text.antt =====
-- The operations of Go's `strings` package that the program uses, on native texts. A text is walked
-- one character at a time.
use Prim.Native.Nat.{ℕ}
use Prim.Native.Char.{Char, code}
use Prim.Native.String.{String, ◌++◌}
use mathlib.Core.Bool.{Bool, true, false, ◌&&◌, ◌||◌}
use mathlib.Core.Option.{Option, none, some}
use mathlib.Core.List.{List, [], ◌∷◌}
use mathlib.Core.Path.{◌≡◌}
use mathlib.Core.Logic.{inl, inr}
use text.Mathlib.TextEquality.{eq_iff}
use text.Mathlib.TextLemmas.{cons≢nil}
use text.Mathlib.Text.{◌==◌}
use winchaos.Base.Tests.{leb, nat_eq, if◌then◌else◌, Bool-cases}

-- What follows the prefix, if the text has it.
unfoldable pub strip_prefix : String → String → Option String
strip_prefix String.[] s = some s
strip_prefix (String.◌∷◌ c p) String.[] = none
strip_prefix (String.◌∷◌ c p) (String.◌∷◌ d s) =
    if nat_eq (code c) (code d) then strip_prefix p s else none

abbrev pub is_some {ℓ} : {A : Type ℓ} → Option A → Bool
is_some none = false
is_some (some a) = true

-- `strings.HasPrefix(s, p)`, with the prefix first.
unfoldable pub has_prefix : String → String → Bool
unfolding strip_prefix
has_prefix p s = is_some (strip_prefix p s)

-- `strings.Contains(s, t)`, with the part first.
unfoldable pub contains : String → String → Bool
unfolding has_prefix
contains t String.[] = t == ""
contains t (String.◌∷◌ c s) = has_prefix t (String.◌∷◌ c s) || contains t s

-- `s[strings.Index(s, t):]`, or `none` where the index is -1.
unfoldable pub from_first : String → String → Option String
unfolding has_prefix
from_first t String.[] = if t == "" then some "" else none
from_first t (String.◌∷◌ c s) =
    if has_prefix t (String.◌∷◌ c s) then some (String.◌∷◌ c s) else from_first t s

abbrev pub add_to_first : Char → List String → List String
add_to_first c [] = String.◌∷◌ c "" ∷ []
add_to_first c (p ∷ ps) = String.◌∷◌ c p ∷ ps

-- `strings.Split(s, sep)` at a separator of one character, given by its code.
unfoldable pub split : ℕ → String → List String
split sep String.[] = "" ∷ []
split sep (String.◌∷◌ c s) =
    if nat_eq (code c) sep then "" ∷ split sep s else add_to_first c (split sep s)

-- `strings.SplitN(s, sep, 2)`: what precedes the first separator, and what follows it if there is
-- one.
unfoldable pub cut : ℕ → String → String × Option String
cut sep String.[] = ("", none)
cut sep (String.◌∷◌ c s) =
    let (before, after) = cut sep s in
    if nat_eq (code c) sep then ("", some s) else (String.◌∷◌ c before, after)

-- `unicode.IsSpace`
abbrev pub is_space : Char → Bool
is_space c =
    let n = code c in
    (leb 9 n && leb n 13)
    || nat_eq n 32
    || nat_eq n 0x85
    || nat_eq n 0xa0
    || nat_eq n 0x1680
    || (leb 0x2000 n && leb n 0x200a)
    || nat_eq n 0x2028
    || nat_eq n 0x2029
    || nat_eq n 0x202f
    || nat_eq n 0x205f
    || nat_eq n 0x3000

unfoldable pub trim_left : String → String
trim_left String.[] = ""
trim_left (String.◌∷◌ c s) = if is_space c then trim_left s else String.◌∷◌ c s

unfoldable pub trim_right : String → String
trim_right String.[] = ""
trim_right (String.◌∷◌ c s) =
    let rest = trim_right s in if rest == "" && is_space c then "" else String.◌∷◌ c rest

-- `strings.TrimSpace`
unfoldable pub trim_space : String → String
unfolding trim_left trim_right
trim_space s = trim_right (trim_left s)

-- The words so far, the word that is open, and the rest of the text.
fields_from : String → Option String → List String
fields_from String.[] none = []
fields_from String.[] (some word) = word ∷ []
fields_from (String.◌∷◌ c s) none =
    fields_from s (if is_space c then none else some (String.◌∷◌ c ""))
fields_from (String.◌∷◌ c s) (some word) =
    let closed = word ∷ fields_from s none in
    let open_word = fields_from s (some (word ++ String.◌∷◌ c "")) in
    if is_space c then closed else open_word

-- `strings.Fields`
unfoldable pub fields : String → List String
unfolding fields_from
fields s = fields_from s none

-- `strings.Join(parts, sep)`, with the separator first.
unfoldable pub join : String → List String → String
join sep [] = ""
join sep (p ∷ []) = p
join sep (p ∷ q ∷ ps) = p ++ sep ++ join sep (q ∷ ps)

-- A text with a first character is not empty.
pub cons-eq-empty : (c : Char) (s : String) → (String.◌∷◌ c s == "") ≡ false
cons-eq-empty c s = elim (Bool-cases (String.◌∷◌ c s == "")) [
  | inl e ↦ absurd (cons≢nil ((eq_iff _ _).0 e))
  | inr e ↦ e
]
