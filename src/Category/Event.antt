-- ===== src/Category/Event.antt =====
-- web/category/event/cmd.go: the program os.exe, from its arguments to its run.
pub mod Started
use winchaos.Base.{ℕ, String, List, [], ◌∷◌, Option, none, some, ◌==◌, if◌then◌else◌, ℤ}
use winchaos.Base.Decimal.{atoi}

-- What `main` runs; for another kind it logs an error and returns.
pub data Event : Type 0 where
  run_cpu : ℤ → ℤ → String → ℤ → Event
  run_mem : ℤ → String → String → ℤ → Event
  not_expected : String → Event

-- An error of Atoi is dropped: the value beside it counts.
abbrev int_of : String → ℤ
int_of s = (atoi s).0

-- The arguments behind the path of the program; `none` is the panic of a missing one.
unfoldable pub main : List String → Option Event
main (first ∷ second ∷ uid ∷ kind ∷ timeout ∷ more) =
    if kind == "cpu"
    then some (run_cpu (int_of first) (int_of second) uid (int_of timeout))
    else if kind == "mem"
    then some (run_mem (int_of second) first uid (int_of timeout))
    else some (not_expected kind)
main _ = none
