-- ===== src/Web/Serve/Names.antt =====
-- web/server/gateway.go: which handler a name has after any registrations.
use winchaos.Base.{
  String, List, [], ◌∷◌, Option, none, some, ◌≡◌, refl, ap, ◌∙◌, ◌==◌, eq_iff, if◌then◌else◌, arith,
}
use winchaos.Base.Dict.{Dict, lookup, lookup-insert}
use winchaos.Web.Serve.{register_handler, register_all, kept_or}

module _ {H : Type 0} where
  abbrev pub or_first : Option H → Option H → Option H
  or_first none o = o
  or_first (some h) o = some h

  -- The handler of the first registration of a name that is not blank, with one that is not nil.
  abbrev pub first_of : String → List (String × Option H) → Option H
  first_of name [] = none
  first_of name ((n, h) ∷ more) =
      or_first (if n == "" then none else if n == name then h else none) (first_of name more)

  or_first_assoc : (a b c : Option H) → or_first (or_first a b) c ≡ or_first a (or_first b c)
  or_first_assoc none b c = refl
  or_first_assoc (some h) b c = refl

  or_first-none : (a : Option H) → a ≡ or_first a none
  or_first-none none = refl
  or_first-none (some h) = refl

  lookup-kept :
      (asked name : String) (h : Option H) (handlers : Dict H)
      → lookup asked (kept_or handlers (register_handler name h handlers))
        ≡ or_first
            (lookup asked handlers)
            (if name == "" then none else if name == asked then h else none)
  unfolding register_handler
  lookup-kept asked name none handlers = ground (arith, or_first-none (lookup asked handlers))
  lookup-kept asked name (some h) handlers = ground (
    arith,
    or_first-none (lookup asked handlers),
    lookup-insert name asked h handlers,
    eq_iff name asked,
  )

-- Whatever is registered, and in whatever order, a name has the handler that it had, or else the
-- one of its first registration with a handler that is not nil; a blank name gets none.
pub lookup-register_all :
    {H : Type 0} (asked : String) (registrations : List (String × Option H)) (handlers : Dict H)
    → lookup asked (register_all registrations handlers)
      ≡ or_first (lookup asked handlers) (first_of asked registrations)
unfolding register_all
lookup-register_all asked [] handlers = or_first-none (lookup asked handlers)
lookup-register_all asked ((name, h) ∷ more) handlers =
    lookup-register_all asked more (kept_or handlers (register_handler name h handlers))
    ∙ ap (λ found. or_first found (first_of asked more)) (lookup-kept asked name h handlers)
    ∙ or_first_assoc (lookup asked handlers)
        (if name == "" then none else if name == asked then h else none) (first_of asked more)
