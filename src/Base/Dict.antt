-- ===== src/Base/Dict.antt =====
-- Go's `map[string]V` as an association list without repeated keys.
pub mod Keyed
use Prim.Native.String.{String}
use mathlib.Core.Path.{◌≡◌, refl}
use mathlib.Core.Bool.{Bool, true, false}
use mathlib.Core.Option.{Option, none, some}
use mathlib.Core.List.{List, [], ◌∷◌}
use native.Mathlib.Omega.{arith}
use text.Mathlib.Text.{◌==◌}
use text.Mathlib.TextEquality.{eq_iff}
use text.Mathlib.TextPositions.{eq_refl}
use winchaos.Base.Tests.{if◌then◌else◌}

abbrev pub Dict {ℓ} : Type ℓ → Type ℓ
Dict V = List (String × V)

module _ {ℓ} {V : Type ℓ} where
  unfoldable pub lookup : String → Dict V → Option V
  lookup k [] = none
  lookup k ((j, v) ∷ m) = if j == k then some v else lookup k m

  unfoldable pub insert : String → V → Dict V → Dict V
  insert k v [] = (k, v) ∷ []
  insert k v ((j, w) ∷ m) = if j == k then (k, v) ∷ m else (j, w) ∷ insert k v m

  -- Go's `delete`; every binding of the key goes.
  unfoldable pub delete : String → Dict V → Dict V
  delete k [] = []
  delete k ((j, v) ∷ m) = let rest = delete k m in if j == k then rest else (j, v) ∷ rest

  pub lookup-insert :
      (key asked : String) (v : V) (bindings : Dict V)
      → lookup asked (insert key v bindings)
        ≡ (if key == asked then some v else lookup asked bindings)
  unfolding insert lookup
  lookup-insert key asked v [] = refl
  lookup-insert key asked v ((held, old) ∷ bindings) = ground (
    arith,
    lookup-insert key asked v bindings,
    eq_iff held asked,
    eq_iff held key,
    eq_iff key asked,
  )

  pub lookup-delete :
      (key asked : String) (bindings : Dict V)
      → lookup asked (delete key bindings) ≡ (if key == asked then none else lookup asked bindings)
  unfolding delete lookup
  lookup-delete key asked [] = ground arith
  lookup-delete key asked ((held, old) ∷ bindings) = ground (
    arith,
    lookup-delete key asked bindings,
    eq_iff held asked,
    eq_iff held key,
    eq_iff key asked,
  )

pub ruleset dict_laws = (lookup-insert, lookup-delete, eq_refl)

-- `m[k]` of a map of texts: a missing key reads as the empty text.
abbrev pub text_or_empty : Option String → String
text_or_empty none = ""
text_or_empty (some v) = v

unfoldable pub get : String → Dict String → String
get k m = text_or_empty (lookup k m)

pub get-insert :
    (k j v : String) (m : Dict String) → get j (insert k v m) ≡ (if k == j then v else get j m)
unfolding get
get-insert k j v m = ground (arith, lookup-insert k j v m)
