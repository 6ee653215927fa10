-- ===== src/Tools/Set.antt =====
-- pkg/tools/set.go: a set, as a map whose values are true.
use winchaos.Base.{
  ℕ, String, Bool, true, false, List, [], ◌∷◌, Option, none, some, ◌≡◌, refl, ◌∙◌, ap, length, map,
  if◌then◌else◌, ◌==◌,
}
use winchaos.Base.Dict.{Dict, lookup, insert, delete, lookup-insert, lookup-delete}

-- The items are texts: the string keys of the set.
abbrev pub Set : Type 0
Set = Dict Bool

abbrev pub new_set : Set
new_set = []

unfoldable pub add : String → Set → Set
add item s = insert item true s

unfoldable pub remove : String → Set → Set
remove item s = delete item s

abbrev or_false : Option Bool → Bool
or_false none = false
or_false (some b) = b

-- A missing key reads as false.
unfoldable pub contains_item : String → Set → Bool
contains_item item s = or_false (lookup item s)

unfoldable pub size : Set → ℕ
size s = length s

unfoldable pub clear : Set → Set
clear s = []

abbrev first : String × Bool → String
first (k, b) = k

-- `Keys` and `StringKeys`, in the order in which the map is gone through.
unfoldable pub keys : Set → List String
keys s = map first s

pub data Op : Type 0 where
  added removed : String → Op
  cleared : Op

unfoldable pub after : List Op → Set → Set
unfolding add remove clear
after [] s = s
after (added item ∷ ops) s = after ops (add item s)
after (removed item ∷ ops) s = after ops (remove item s)
after (cleared ∷ ops) s = after ops (clear s)

-- What the last operation on an item says of it, from what was so before.
abbrev pub said : String → List Op → Bool → Bool
said asked [] b = b
said asked (added item ∷ ops) b = said asked ops (if item == asked then true else b)
said asked (removed item ∷ ops) b = said asked ops (if item == asked then false else b)
said asked (cleared ∷ ops) b = said asked ops false

or_false-if :
    (c : Bool) (o o' : Option Bool)
    → or_false (if c then o else o') ≡ (if c then or_false o else or_false o')
or_false-if true o o' = refl
or_false-if false o o' = refl

-- Whatever was done to a set, an item is in it just where the last operation that concerns it added
-- it, or none does and it was in it before.
pub contains_item-after :
    (asked : String) (ops : List Op) (s : Set)
    → contains_item asked (after ops s) ≡ said asked ops (contains_item asked s)
unfolding contains_item after add remove clear lookup
contains_item-after asked [] s = refl
contains_item-after asked (added item ∷ ops) s =
    contains_item-after asked ops (add item s)
    ∙ ap (said asked ops) (
        ap or_false (lookup-insert item asked true s)
        ∙ or_false-if (item == asked) (some true) (lookup asked s))
contains_item-after asked (removed item ∷ ops) s =
    contains_item-after asked ops (remove item s)
    ∙ ap (said asked ops) (
        ap or_false (lookup-delete item asked s)
        ∙ or_false-if (item == asked) none (lookup asked s))
contains_item-after asked (cleared ∷ ops) s = contains_item-after asked ops (clear s)
