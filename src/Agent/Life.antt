-- ===== src/Agent/Life.antt =====
-- cmd/chaos_agent.go: the agent behind its start. `Wait` returns at once, as nothing was started
-- with `Go`; the HTTP server runs in a goroutine beside `Hold`.
use winchaos.Base.{
  ℕ, zero, suc, String, Bool, true, false, List, [], ◌∷◌, Option, none, some, ◌≡◌, refl, pos, All,
}
use winchaos.Tools.Ending.{Signal, sigint, sigquit, sigterm, shutdown, hold, times}
use winchaos.Base.Exec.{Flow, ok, err, panic, no_fuel}
use winchaos.Agent.{Fate, up, exited, PidDisk, handler_err}

-- What happens to the process: a signal comes, or `ListenAndServe` returns, with an error or none.
pub data Event : Type 0 where
  caught : Signal → Event
  served : Option String → Event

-- The process behind its events: `Hold` returns on the signals that end it, and so does `main`; an
-- error of the server ends the process beside it.
module _ {X : Type 0} (disk : PidDisk X) (pid_file : String) (hooks : List (Option (X → X))) where
  abbrev go_on : Fate (Unit {0}) × X → (X → Fate (Unit {0}) × X) → Fate (Unit {0}) × X
  go_on (up u, x) rest = rest x
  go_on (exited code, x) rest = (exited code, x)

  abbrev held : Bool × X → (X → Fate (Unit {0}) × X) → Fate (Unit {0}) × X
  held (true, x) rest = (exited (pos 0), x)
  held (false, x) rest = rest x

  unfoldable pub live : List Event → X → Fate (Unit {0}) × X
  unfolding hold
  live [] x = (up tt, x)
  live (caught signal ∷ events) x = held (hold hooks (signal ∷ []) x) (live events)
  live (served error ∷ events) x = go_on (handler_err disk pid_file error tt x) (live events)

  -- The events that the process lives through.
  unfoldable pub survived : Event → Bool
  survived (caught sigint) = false
  survived (caught sigterm) = false
  survived (caught sigquit) = true
  survived (served none) = true
  survived (served (some error)) = false

  -- How often the hooks run in them.
  unfoldable pub quits : List Event → ℕ
  quits [] = zero
  quits (caught signal ∷ events) = suc (quits events)
  quits (served error ∷ events) = quits events

  -- A text whose first two characters are replaced with -1.
  abbrev minus_one : String → String
  minus_one String.[] = "-1"
  minus_one (String.◌∷◌ c String.[]) = "-1"
  minus_one (String.◌∷◌ c (String.◌∷◌ d rest)) = String.◌∷◌ "-" (String.◌∷◌ "1" rest)

  -- The file of the process id is written if it can be opened.
  abbrev noted : Flow String String × X → X
  noted (ok old, x) = (disk.put_text pid_file (minus_one old) x).1
  noted (err e, x) = x
  noted (panic, x) = x
  noted (no_fuel, x) = x

  -- How an event ends the process.
  unfoldable pub ends : Event → X → Fate (Unit {0}) × X
  ends (caught signal) x = (exited (pos 0), shutdown hooks x)
  ends (served error) x = (exited (pos 1), noted (disk.open_file pid_file x))

  -- The process never ends otherwise.
  live_goes_on :
      (events : List Event) (x : X)
      → All (λ e. survived e ≡ true) events
      → live events x ≡ (up tt, times (quits events) (shutdown hooks) x)
  unfolding live survived quits handler_err
  live_goes_on [] x all = refl
  live_goes_on (caught sigint ∷ events) x (h, all) = cc
  live_goes_on (caught sigterm ∷ events) x (h, all) = cc
  live_goes_on (caught sigquit ∷ events) x (h, all) = live_goes_on events (shutdown hooks x) all
  live_goes_on (served none ∷ events) x (h, all) = live_goes_on events x all
  live_goes_on (served (some error) ∷ events) x (h, all) = cc
