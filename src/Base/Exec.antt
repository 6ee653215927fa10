-- ===== src/Base/Exec.antt =====
-- Go functions with effects. A world goes through the calls; a call returns, returns early with
-- what its caller makes of an error, panics, or (a loop on fuel) has used up its fuel.
use Prim.Native.String.{String}
use mathlib.Core.Path.{◌≡◌, refl, ap}

-- What a call of a library returns: a value, or an error with its text.
pub data Result {ℓ} (A : Type ℓ) : Type ℓ where
  value : A → Result A
  failure : String → Result A

pub data Flow {ℓ} (E A : Type ℓ) : Type ℓ where
  ok : A → Flow E A
  err : E → Flow E A
  panic : Flow E A
  no_fuel : Flow E A

abbrev pub Exec {ℓ} : Type ℓ → Type ℓ → Type ℓ → Type ℓ
Exec W E A = W → Flow E A × W

module _ {ℓ} {W E A : Type ℓ} where
  abbrev pub pure : A → Exec W E A
  pure a w = (ok a, w)

  -- `return` out of the function that the block stands for.
  abbrev pub throw : E → Exec W E A
  throw e w = (err e, w)

  abbrev pub crash : Exec W E A
  crash w = (panic, w)

  abbrev pub out_of_fuel : Exec W E A
  out_of_fuel w = (no_fuel, w)

  abbrev pub gets : (W → A) → Exec W E A
  gets f w = (ok (f w), w)

module _ {ℓ} {W E A B : Type ℓ} where
  abbrev pub continue : Flow E A × W → (A → Exec W E B) → Flow E B × W
  continue (ok a, w) f = f a w
  continue (err e, w) f = (err e, w)
  continue (panic, w) f = (panic, w)
  continue (no_fuel, w) f = (no_fuel, w)

  infixl 5 ◌>>=◌ ◌>>◌
  abbrev pub ◌>>=◌ : Exec W E A → (A → Exec W E B) → Exec W E B
  ◌>>=◌ m f w = continue (m w) f

  abbrev pub ◌>>◌ : Exec W E A → Exec W E B → Exec W E B
  m >> n = m >>= λ _. n

module _ {ℓ} {W E E' A : Type ℓ} where
  abbrev pub rethrow : (E → E') → Flow E A × W → Flow E' A × W
  rethrow f (ok a, w) = (ok a, w)
  rethrow f (err e, w) = (err (f e), w)
  rethrow f (panic, w) = (panic, w)
  rethrow f (no_fuel, w) = (no_fuel, w)

  -- `if err != nil { return f(err) }`
  abbrev pub on_err : (E → E') → Exec W E A → Exec W E' A
  on_err f m w = rethrow f (m w)

module _ {ℓ} {W E E' A : Type ℓ} where
  abbrev pub settle : (E → A) → Flow E A × W → Flow E' A × W
  settle f (ok a, w) = (ok a, w)
  settle f (err e, w) = (ok (f e), w)
  settle f (panic, w) = (panic, w)
  settle f (no_fuel, w) = (no_fuel, w)

  -- The error is looked at and dropped, as `checkError` does.
  abbrev pub or_else : (E → A) → Exec W E A → Exec W E' A
  or_else f m w = settle f (m w)

-- What a caller sees of a function that returns one value on every path.
pub data Outcome {ℓ} (R : Type ℓ) : Type ℓ where
  returned : R → Outcome R
  panicked : Outcome R
  exhausted : Outcome R

module _ {ℓ} {W R : Type ℓ} where
  abbrev pub outcome : Flow R R × W → Outcome R × W
  outcome (ok r, w) = (returned r, w)
  outcome (err r, w) = (returned r, w)
  outcome (panic, w) = (panicked, w)
  outcome (no_fuel, w) = (exhausted, w)

  abbrev pub run : Exec W R R → W → Outcome R × W
  run m w = outcome (m w)

-- Inversion of a block that succeeds.
pub >>=-eq-ok {ℓ} :
    {W E A B : Type ℓ} (m : Exec W E A) (f : A → Exec W E B) (w : W) {b : B}
    → (◌>>=◌ m f w).0 ≡ ok b
    → (a : A) × ((m w).0 ≡ ok a) × ((f a (m w).1).0 ≡ ok b) × ((◌>>=◌ m f w) ≡ f a (m w).1)
>>=-eq-ok {W} {E} {A} {B} m f w {b} h = go (m w) h
  where
    go :
        (r : Flow E A × W)
        → (continue r f).0 ≡ ok b
        → (a : A) × (r.0 ≡ ok a) × ((f a r.1).0 ≡ ok b) × (continue r f ≡ f a r.1)
    go (ok a, w') k = (a, refl, k, refl)
    go (err e, w') k = cc
    go (panic, w') k = cc
    go (no_fuel, w') k = cc

pub ok-injective {ℓ} : {E A : Type ℓ} {a b : A} → ◌≡◌ {A = Flow E A} (ok a) (ok b) → a ≡ b
ok-injective h = cc

pub err-injective {ℓ} : {E A : Type ℓ} {a b : E} → ◌≡◌ {A = Flow E A} (err a) (err b) → a ≡ b
err-injective h = cc

-- The other way: a block whose first call succeeds goes on with its value.
pub >>=-of-ok {ℓ} :
    {W E A B : Type ℓ} (m : Exec W E A) (f : A → Exec W E B) (w : W) {a : A}
    → (m w).0 ≡ ok a
    → (◌>>=◌ m f w) ≡ f a (m w).1
>>=-of-ok {W} {E} {A} {B} m f w {a} h = go (m w) h
  where
    go : (r : Flow E A × W) → r.0 ≡ ok a → continue r f ≡ f a r.1
    go (ok b, w') k = ap (λ x. f x w') (ok-injective k)
    go (err e, w') k = cc
    go (panic, w') k = cc
    go (no_fuel, w') k = cc

pub returned-injective {ℓ} :
    {W R : Type ℓ} {r r' : R} {w w' : W}
    → ◌≡◌ {A = Outcome R × W} (returned r, w) (returned r', w')
    → r ≡ r'
returned-injective h = cc

pub >>=-of-err {ℓ} :
    {W E A B : Type ℓ} (m : Exec W E A) (f : A → Exec W E B) (w : W) {e : E}
    → (m w).0 ≡ err e
    → (◌>>=◌ m f w) ≡ (err e, (m w).1)
>>=-of-err {W} {E} {A} {B} m f w {e} h = go (m w) h
  where
    go : (r : Flow E A × W) → r.0 ≡ err e → continue r f ≡ (err e, r.1)
    go (ok b, w') k = cc
    go (err x, w') k = ap (λ x. (err x, w')) (err-injective k)
    go (panic, w') k = cc
    go (no_fuel, w') k = cc

pub or_else-of-ok {ℓ} :
    {W E E' A : Type ℓ} (f : E → A) (m : Exec W E A) (w : W) {a : A}
    → (m w).0 ≡ ok a
    → or_else {E' = E'} f m w ≡ (ok a, (m w).1)
or_else-of-ok {W} {E} {E'} {A} f m w {a} h = go (m w) h
  where
    go : (r : Flow E A × W) → r.0 ≡ ok a → settle {E' = E'} f r ≡ (ok a, r.1)
    go (ok b, w') k = ap (λ x. (ok x, w')) (ok-injective k)
    go (err x, w') k = cc
    go (panic, w') k = cc
    go (no_fuel, w') k = cc

pub or_else-of-err {ℓ} :
    {W E E' A : Type ℓ} (f : E → A) (m : Exec W E A) (w : W) {e : E}
    → (m w).0 ≡ err e
    → or_else {E' = E'} f m w ≡ (ok (f e), (m w).1)
or_else-of-err {W} {E} {E'} {A} f m w {e} h = go (m w) h
  where
    go : (r : Flow E A × W) → r.0 ≡ err e → settle {E' = E'} f r ≡ (ok (f e), r.1)
    go (ok b, w') k = cc
    go (err x, w') k = ap (λ x. (ok (f x), w')) (err-injective k)
    go (panic, w') k = cc
    go (no_fuel, w') k = cc
