-- ===== src/Base/Splitting.antt =====
-- What a text is that splits into one part, or into two.
use text.Mathlib.TextLemmas.{nil-append, cons-append}
use winchaos.Base.{
  ℕ, String, Char, code, true, false, List, [], ◌∷◌, ◌≡◌, ◌≢◌, refl, sym, ap, ◌∙◌, ◌⧺◌, ◌⊎◌, inl,
  inr, nat_eq, split, Bool-cases, add_to_first,
}
use winchaos.Base.TextLaws.{has_code, split-whole, split-append}

-- The text has the separator once, between the two parts.
abbrev pub Halves : ℕ → String → String → String → Type 0
Halves sep s a b =
    (d : Char) × (nat_eq (code d) sep ≡ true)
    × (s ≡ a ⧺ String.◌∷◌ d b)
    × (has_code sep a ≡ false)
    × (has_code sep b ≡ false)

uncons :
    (c : Char) (parts : List String) (a : String) (rest : List String)
    → add_to_first c parts ≡ a ∷ rest
    → ((parts ≡ []) × (a ≡ String.◌∷◌ c "") × (rest ≡ []))
      ⊎ ((p : String) × (parts ≡ p ∷ rest) × (a ≡ String.◌∷◌ c p))
uncons c [] a rest h = inl (refl, cc, cc)
uncons c (p ∷ ps) a rest h = inr (p, cc, cc)

add_to_first-some : (c : Char) (parts : List String) → add_to_first c parts ≢ []
add_to_first-some c [] h = cc
add_to_first-some c (p ∷ ps) h = cc

some_part : (sep : ℕ) (s : String) → split sep s ≢ []
unfolding split
some_part sep String.[] h = cc
some_part sep (String.◌∷◌ c s) h = elim (Bool-cases (nat_eq (code c) sep)) [
  | inl here ↦ (let h' : "" ∷ split sep s ≡ [] = rw here at h in cc)
  | inr there ↦ add_to_first-some c (split sep s) (rw there at h)
]

pub split-one : (sep : ℕ) (s a : String) → split sep s ≡ a ∷ [] → (s ≡ a) × (has_code sep a ≡ false)
unfolding split has_code
split-one sep String.[] a h = let e : "" ≡ a = cc in (e, rw (← e) refl)
split-one sep (String.◌∷◌ c s) a h = elim (Bool-cases (nat_eq (code c) sep)) [
  | inl here ↦ (let h' : "" ∷ split sep s ≡ a ∷ [] = rw here at h in absurd (some_part sep s cc))
  | inr there ↦ elim (uncons c (split sep s) a [] (rw there at h)) [
    | inl (none_left, _, _) ↦ absurd (some_part sep s none_left)
    | inr (p, parts, e) ↦
        let (same, free) = split-one sep s p parts in
        (ap (String.◌∷◌ c) same ∙ sym e, rw (e, there, free) refl)
  ]
]

pub split_two : (sep : ℕ) (s a b : String) → split sep s ≡ a ∷ b ∷ [] → Halves sep s a b
unfolding split has_code
split_two sep String.[] a b h = cc
split_two sep (String.◌∷◌ c s) a b h = elim (Bool-cases (nat_eq (code c) sep)) [
  | inl here ↦
      let h' : "" ∷ split sep s ≡ a ∷ b ∷ [] = rw here at h in
      let (same, free) = split-one sep s b cc in
      let e : "" ≡ a = cc in (c, here, rw (← e, nil-append, same) refl, rw (← e) refl, free)
  | inr there ↦ elim (uncons c (split sep s) a (b ∷ []) (rw there at h)) [
    | inl (none_left, _, _) ↦ absurd (some_part sep s none_left)
    | inr (p, parts, e) ↦
        let (d, is_sep, same, free, free') = split_two sep s p b parts in
        (d, is_sep, rw (e, cons-append, same) refl, rw (e, there, free) refl, free')
  ]
]

pub split-Halves : (sep : ℕ) (s a b : String) → Halves sep s a b → split sep s ≡ a ∷ b ∷ []
split-Halves sep s a b (d, is_sep, same, free, free') =
    rw (same, split-append sep a b d is_sep free, split-whole sep b free') refl
