-- ===== src/Tools/LimitedList/History.antt =====
-- A limited list holds the end of its history.
use mathlib.Core.List.{append_assoc, append-nil}
use winchaos.Base.{
  ℕ, zero, suc, ◌+◌, ◌-◌, ◌<◌, List, [], ◌∷◌, ◌++◌, ◌≡◌, refl, sym, ap, Bool-cases, inl, inr,
  length, drop, length-append, length-drop, drop-append_le, drop_all, pos, ltb_ℤ, if◌then◌else◌,
  arith,
}
use winchaos.Base.Exec.{value}
use winchaos.Tools.LimitedList.{LimitedList, new_limited_sort_list, without_front, put}

module _ {A : Type 0} where
  -- `Put` of each item in turn.
  unfoldable pub put_all : List A → LimitedList A → LimitedList A
  put_all [] l = l
  put_all (x ∷ xs) l = put_all xs (put x l)

  -- What is left of a history under a bound.
  abbrev pub last_items : ℕ → List A → List A
  last_items bound history = drop (length history - bound) history

  without_front-drop : (n : ℕ) (xs : List A) → without_front (drop n xs) ≡ drop (suc n) xs
  without_front-drop zero [] = refl
  without_front-drop zero (x ∷ xs) = refl
  without_front-drop (suc n) [] = refl
  without_front-drop (suc n) (x ∷ xs) = without_front-drop n xs

  length-concat : (history : List A) (x : A) → length (history ++ x ∷ []) ≡ length history + 1
  length-concat history x = length-append history (x ∷ [])

  concat-last_items :
      (bound : ℕ) (history : List A) (x : A)
      → last_items bound history ++ x ∷ [] ≡ drop (length history - bound) (history ++ x ∷ [])
  concat-last_items bound history x =
      sym (drop-append_le (length history - bound) history (x ∷ []) (omega arith))

  -- The item in front goes exactly when the bound is passed.
  drop_over_cap :
      (bound n : ℕ) (xs : List A)
      → (if ltb_ℤ (pos bound) (pos (n + 1 - (n - bound)))
          then drop (suc (n - bound)) xs
          else drop (n - bound) xs)
        ≡ drop (n + 1 - bound) xs
  drop_over_cap bound n xs = elim (Bool-cases (ltb_ℤ (pos bound) (pos (n + 1 - (n - bound))))) [
    | inl over ↦
        let e : suc (n - bound) ≡ n + 1 - bound = ground arith in rw over (ap (λ k. drop k xs) e)
    | inr fits ↦ let e : n - bound ≡ n + 1 - bound = ground arith in rw fits (ap (λ k. drop k xs) e)
  ]

  put-last_items :
      (bound : ℕ) (history : List A) (x : A)
      → put x (record { cap = pos bound; items = last_items bound history })
        ≡ record { cap = pos bound; items = last_items bound (history ++ x ∷ []) }
  unfolding put
  put-last_items bound history x =
      rw (concat-last_items, without_front-drop, length-drop, length-concat)
        (ap (λ l. record { cap = pos bound; items = l })
          (drop_over_cap bound (length history) (history ++ x ∷ [])))

  put_all-last_items :
      (bound : ℕ) (history xs : List A)
      → put_all xs (record { cap = pos bound; items = last_items bound history })
        ≡ record { cap = pos bound; items = last_items bound (history ++ xs) }
  unfolding put_all
  put_all-last_items bound history [] = rw append-nil
  put_all-last_items bound history (x ∷ xs) =
      rw (put-last_items, put_all-last_items bound (history ++ x ∷ []) xs, append_assoc)

-- A list made for a positive cap holds the last items that were put in, at most as many as the cap,
-- in their order.
pub put_all-history :
    {A : Type 0} (bound : ℕ) (xs : List A)
    → 0 < bound
    → (l : LimitedList A) × (new_limited_sort_list (pos bound) ≡ value l)
      × ((put_all xs l).items ≡ drop (length xs - bound) xs)
unfolding new_limited_sort_list
put_all-history {A} bound xs h =
    let empty : LimitedList A = record { cap = pos bound; items = [] } in
    (
      empty,
      ground arith,
      ap (λ l. l.items)
          (rw (drop_all {A = A} (0 - bound) [] (omega arith)) at (put_all-last_items bound [] xs)),
    )
