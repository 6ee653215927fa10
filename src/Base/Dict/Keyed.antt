-- ===== src/Base/Dict/Keyed.antt =====
-- A map binds no key twice, and what goes through it.
use winchaos.Base.{String, [], ◌∷◌, Option, none, some, ◌≡◌, refl, eq_iff, arith}
use winchaos.Base.Dict.{Dict, lookup, insert, lookup-insert}

module _ {ℓ} {V : Type ℓ} where
  abbrev pub IsKeyed : Dict V → Type ℓ
  IsKeyed [] = Unit
  IsKeyed ((k, v) ∷ m) = (lookup k m ≡ none) × IsKeyed m

  abbrev pub first_of : Option V → Option V → Option V
  first_of none o = o
  first_of (some v) o = some v

  pub insert-IsKeyed : (k : String) (v : V) (m : Dict V) → IsKeyed m → IsKeyed (insert k v m)
  unfolding insert lookup
  insert-IsKeyed k v [] h = (refl, tt)
  insert-IsKeyed k v ((j, w) ∷ m) h =
      ground (arith, insert-IsKeyed k v m, lookup-insert k j v m, eq_iff j k, eq_iff k j)
