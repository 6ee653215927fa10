-- ===== src/Agent.antt =====
-- cmd/chaos_agent.go: the program of the agent.
pub mod Start
pub mod Life
use winchaos.Base.{
  String, Bool, true, false, Option, none, some, ◌⧺◌, ◌≡◌, refl, if◌then◌else◌, ℤ, pos, negsuc,
}
use winchaos.Base.Decimal.{itoa}
use winchaos.Base.Exec.{Flow, ok, err, panic, no_fuel, Exec, ◌>>=◌}

-- The process goes on, or has ended with an exit code.
pub data Fate {ℓ} (A : Type ℓ) : Type ℓ where
  up : A → Fate A
  exited : ℤ → Fate A

-- `os.OpenFile` for reading and writing, which makes a file that is missing, with the text that the
-- file then holds; and the text that it holds behind a write, without an error or with one.
pub record PidDisk (X : Type 0) : Type 0 where
  pub open_file : String → Exec X String String
  pub put_text : String → String → Exec X String Unit

-- What a file holds when a text is written at its beginning, and the file is not truncated.
unfoldable pub overwrite : String → String → String
overwrite String.[] old = old
overwrite (String.◌∷◌ c s) String.[] = String.◌∷◌ c s
overwrite (String.◌∷◌ c s) (String.◌∷◌ d old) = String.◌∷◌ c (overwrite s old)

unfoldable pub get_pid_file : Bool → Bool → String
get_pid_file windows unix =
    if windows then "C:\\chaos.pid" else if unix then "/var/run/chaos.pid" else ""

module _ {X : Type 0} (disk : PidDisk X) where
  unfoldable pub write_pid : String → ℤ → Exec X String Unit
  unfolding overwrite
  write_pid path pid = do old ← disk.open_file path; disk.put_text path (overwrite (itoa pid) old)

  -- The error of writing is dropped.
  unfoldable pub handler_err : {A : Type 0} → String → Option String → A → X → Fate A × X
  unfolding write_pid
  handler_err path none a x = (up a, x)
  handler_err path (some error) a x = (exited (pos 1), (write_pid path (negsuc 0) x).1)

-- A longer text that the file held keeps its end.
overwritten : overwrite (itoa (negsuc 0)) "4711" ≡ "-111"
unfolding overwrite itoa
overwritten = refl
