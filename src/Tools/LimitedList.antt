-- ===== src/Tools/LimitedList.antt =====
-- pkg/tools/limitedlist.go: a list that keeps its last items. The lock makes each method one step.
pub mod History
use winchaos.Base.{
  ℕ, String, Bool, true, false, List, [], ◌∷◌, ◌++◌, ltb, leb, if◌then◌else◌, length, ℤ, pos, ltb_ℤ,
  reverse,
}
use winchaos.Base.Exec.{Flow, ok, err, panic, no_fuel, Result, value, failure, Exec, pure}

pub record LimitedList {ℓ} (A : Type ℓ) : Type ℓ where
  pub cap : ℤ
  pub items : List A

module _ {A : Type 0} where
  unfoldable pub new_limited_sort_list : ℤ → Result (LimitedList A)
  new_limited_sort_list cap =
      if ltb_ℤ (pos 0) cap
      then value (record { cap = cap; items = [] })
      else failure "cap less or equal than 0"

  abbrev without_front : List A → List A
  without_front [] = []
  without_front (x ∷ xs) = xs

  unfoldable pub put : A → LimitedList A → LimitedList A
  put x l =
      let longer = l.items ++ x ∷ [] in
      record l {
        items = if ltb_ℤ l.cap (pos (length longer)) then without_front longer else longer;
      }

  module _ {W E : Type 0} (handle : A → Exec W String Unit) (break_when_wrong : Bool) where
    -- An error is logged; it ends the loop only if that is asked for.
    go_on : Flow String Unit × W → Exec W E Unit → Flow E Unit × W
    go_on (ok u, w) rest = rest w
    go_on (err x, w) rest = if break_when_wrong then (ok tt, w) else rest w
    go_on (panic, w) rest = (panic, w)
    go_on (no_fuel, w) rest = (no_fuel, w)

    visit : List A → Exec W E Unit
    unfolding go_on
    visit [] w = (ok tt, w)
    visit (x ∷ xs) w = go_on (handle x w) (visit xs)

    unfoldable pub foreach : LimitedList A → Exec W E Unit
    unfolding visit
    foreach l = visit l.items

    unfoldable pub foreach_reverse : LimitedList A → Exec W E Unit
    unfolding visit
    foreach_reverse l = visit (reverse l.items)
