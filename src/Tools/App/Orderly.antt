-- ===== src/Tools/App/Orderly.antt =====
-- pkg/tools/app.go: what holds whenever the process has exited, or `Wait` has returned.
use winchaos.Base.{true, none, some, ◌≡◌, refl, ◌⊎◌, inl, inr, pos, Bool-cases}
use winchaos.Tools.App.{
  App, idle, timing, stopped, begin, end_wait, close, Step, goes, finishes, defers_one, calls_wait,
  returns, closes, signalled, in_time, too_late, Reaches, start, next,
}

-- The process runs, or it has exited with the code 1 while the half minute of a signal ran. Whoever
-- has seen a signal has told the goroutines to close. The goroutine of the signal has ended only
-- behind the end of `Wait`; `Wait` has ended well only once.
abbrev pub IsOrderly : {W : Type 0} → App W → Type 0
IsOrderly app =
    ((app.exit_code ≡ none) ⊎ ((app.exit_code ≡ some (pos 1)) × (app.watch ≡ timing)))
    × ((app.watch ≡ idle) ⊎ (app.closing ≡ true))
    × ((app.watch ≡ stopped → ⊥) ⊎ (app.done_closed ≡ true))

end_wait-IsOrderly : {W : Type 0} (app : App W) → IsOrderly app → IsOrderly (end_wait app)
unfolding end_wait
end_wait-IsOrderly app (ended, told, stops) = elim (Bool-cases app.done_closed) [
  | inl closed ↦ rw closed (ended, told, inr refl)
  | inr unclosed ↦ rw unclosed (ended, told, inr refl)
]

Step-IsOrderly : {W : Type 0} {a b : App W} → Step a b → IsOrderly a → IsOrderly b
unfolding close
Step-IsOrderly (goes app up) h = h
Step-IsOrderly (finishes app n up e) h = h
Step-IsOrderly (defers_one app f up) h = h
Step-IsOrderly (calls_wait app up) h = h
Step-IsOrderly (returns app up e e') h = end_wait-IsOrderly app h
Step-IsOrderly (closes app up) (ended, told, stops) = (ended, inr refl, stops)
Step-IsOrderly (signalled app up e) (ended, told, stops) = (inl up, inr refl, inl (λ e. cc))
Step-IsOrderly (in_time app up e closed) (ended, inl is_idle, stops) = absurd cc
Step-IsOrderly (in_time app up e closed) (ended, inr told, stops) = (inl up, inr told, inr closed)
Step-IsOrderly (too_late app up e) (ended, told, stops) = (inr (refl, e), told, stops)

-- In whatever order the goroutines, `Wait` and the goroutine of the signal take turns.
app-IsOrderly : {W : Type 0} {w : W} {app : App W} → Reaches w app → IsOrderly app
unfolding begin
app-IsOrderly start = (inl refl, inl refl, inl (λ e. cc))
app-IsOrderly (next r step) = Step-IsOrderly step (app-IsOrderly r)
