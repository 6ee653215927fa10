-- ===== src/Base/TextLaws.antt =====
-- Laws of the operations on texts: what splitting, cutting and trimming make of texts put together.
use text.Mathlib.TextLemmas.{nil-append, cons-append}
use winchaos.Base.{
  ℕ, String, Char, code, Bool, true, false, ◌||◌, [], ◌∷◌, none, some, ◌≡◌, refl, ◌==◌, ◌⧺◌, nat_eq,
  split, cut, trim_right, cons-eq-empty, Bool-cases, inl, inr, arith,
}

unfoldable pub has_code : ℕ → String → Bool
has_code sep String.[] = false
has_code sep (String.◌∷◌ c s) = nat_eq (code c) sep || has_code sep s

pub has_code-append :
    (sep : ℕ) (s t : String) → has_code sep (s ⧺ t) ≡ (has_code sep s || has_code sep t)
unfolding has_code
has_code-append sep String.[] t = rw nil-append refl
has_code-append sep (String.◌∷◌ c s) t = rw cons-append (ground (arith, has_code-append sep s t))

pub split-whole : (sep : ℕ) (s : String) → has_code sep s ≡ false → split sep s ≡ s ∷ []
unfolding split has_code
split-whole sep String.[] h = refl
split-whole sep (String.◌∷◌ c s) h = elim (Bool-cases (nat_eq (code c) sep)) [
  | inl here ↦ ground arith
  | inr there ↦ rw (there, split-whole sep s (rw there at h)) refl
]

pub split-append :
    (sep : ℕ) (s t : String) (d : Char)
    → nat_eq (code d) sep ≡ true
    → has_code sep s ≡ false
    → split sep (s ⧺ String.◌∷◌ d t) ≡ s ∷ split sep t
unfolding split has_code
split-append sep String.[] t d here h = rw (nil-append, split, here) refl
split-append sep (String.◌∷◌ c s) t d here h = elim (Bool-cases (nat_eq (code c) sep)) [
  | inl there ↦ ground arith
  | inr later ↦ rw (cons-append, split, later, split-append sep s t d here (rw later at h)) refl
]

pub cut-append :
    (sep : ℕ) (s t : String) (d : Char)
    → nat_eq (code d) sep ≡ true
    → has_code sep s ≡ false
    → cut sep (s ⧺ String.◌∷◌ d t) ≡ (s, some t)
unfolding cut has_code
cut-append sep String.[] t d here h = rw (nil-append, cut, here) refl
cut-append sep (String.◌∷◌ c s) t d here h = elim (Bool-cases (nat_eq (code c) sep)) [
  | inl there ↦ ground arith
  | inr later ↦ rw (cons-append, cut, later, cut-append sep s t d here (rw later at h)) refl
]

pub cut-whole : (sep : ℕ) (s : String) → has_code sep s ≡ false → cut sep s ≡ (s, none)
unfolding cut has_code
cut-whole sep String.[] h = refl
cut-whole sep (String.◌∷◌ c s) h = elim (Bool-cases (nat_eq (code c) sep)) [
  | inl there ↦ ground arith
  | inr later ↦ rw (cut, later, cut-whole sep s (rw later at h)) refl
]

pub append-some : (s t : String) → (t == "") ≡ false → (s ⧺ t == "") ≡ false
append-some String.[] t h = rw nil-append h
append-some (String.◌∷◌ c s) t h = rw cons-append (cons-eq-empty c (s ⧺ t))

-- A text that does not end in a blank keeps what precedes it.
pub trim_right-append :
    (s t : String) → (trim_right t == "") ≡ false → trim_right (s ⧺ t) ≡ s ⧺ trim_right t
unfolding trim_right
trim_right-append String.[] t h = rw (nil-append t, nil-append) refl
trim_right-append (String.◌∷◌ c s) t h =
    rw
      (
        cons-append c s t,
        trim_right,
        trim_right-append s t h,
        append-some s (trim_right t) h,
        cons-append c s (trim_right t),
      )
      refl

pub trim_right-blank : (s : String) → trim_right (s ⧺ "\n") ≡ trim_right s
unfolding trim_right
trim_right-blank String.[] = refl
trim_right-blank (String.◌∷◌ c s) = rw (cons-append, trim_right, trim_right-blank s) refl
