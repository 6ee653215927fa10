-- ===== src/Tools/Ending.antt =====
-- pkg/tools/app.go and signal.go: what is run when the agent ends.
use winchaos.Base.{
  ℕ, zero, suc, Bool, true, false, List, [], ◌∷◌, ◌++◌, Option, none, some, ◌≡◌, refl, ap,
}

pub data Signal : Type 0 where
  sigint sigquit sigterm : Signal

abbrev quits : ℕ → List Signal → List Signal
quits zero signals = signals
quits (suc n) signals = sigquit ∷ quits n signals

module _ {W : Type 0} where
  -- `Defer`: nothing is kept of a nil function.
  unfoldable pub defer : Option (W → W) → List (W → W) → List (W → W)
  defer none defers = defers
  defer (some f) defers = defers ++ f ∷ []

  -- The loop of `Wait` over the deferred functions, from the last to the first.
  unfoldable pub run_defers : List (W → W) → W → W
  run_defers [] w = w
  run_defers (f ∷ defers) w = f (run_defers defers w)

  -- The hooks in their order; a nil one is skipped.
  unfoldable pub shutdown : List (Option (W → W)) → W → W
  shutdown [] w = w
  shutdown (none ∷ hooks) w = shutdown hooks w
  shutdown (some hook ∷ hooks) w = shutdown hooks (hook w)

  -- `Hold`, over the signals that come: whether it has returned.
  unfoldable pub hold : List (Option (W → W)) → List Signal → W → Bool × W
  hold hooks [] w = (false, w)
  hold hooks (sigint ∷ signals) w = (true, shutdown hooks w)
  hold hooks (sigterm ∷ signals) w = (true, shutdown hooks w)
  hold hooks (sigquit ∷ signals) w = hold hooks signals (shutdown hooks w)

  run_defers-append :
      (fs gs : List (W → W)) (w : W) → run_defers (fs ++ gs) w ≡ run_defers fs (run_defers gs w)
  unfolding run_defers
  run_defers-append [] gs w = refl
  run_defers-append (f ∷ fs) gs w = ap f (run_defers-append fs gs w)

  -- What was deferred last is run first.
  run_defers-defer :
      (f : W → W) (defers : List (W → W)) (w : W)
      → run_defers (defer (some f) defers) w ≡ run_defers defers (f w)
  unfolding defer run_defers
  run_defers-defer f defers w = run_defers-append defers (f ∷ []) w

  abbrev pub times : ℕ → (W → W) → W → W
  times zero f w = w
  times (suc n) f w = times n f (f w)

  -- Each request for the stacks runs the hooks as the end does: before the end they have run once
  -- for each of the n requests, and once more behind it.
  hold-quits :
      (hooks : List (Option (W → W))) (n : ℕ) (rest : List Signal) (w : W)
      → hold hooks (quits n (sigterm ∷ rest)) w ≡ (true, times (suc n) (shutdown hooks) w)
  unfolding hold
  hold-quits hooks zero rest w = refl
  hold-quits hooks (suc n) rest w = hold-quits hooks n rest (shutdown hooks w)
