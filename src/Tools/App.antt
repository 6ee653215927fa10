-- ===== src/Tools/App.antt =====
-- pkg/tools/app.go: the goroutines of a process, and its end at a signal. The goroutines, `Wait`
-- and the goroutine that waits for a signal take turns in any order.
pub mod Orderly
use winchaos.Base.{
  ℕ, zero, suc, Bool, true, false, List, [], Option, none, some, ◌≡◌, ◌+◌, ℤ, pos, if◌then◌else◌,
}
use winchaos.Tools.Ending.{defer, run_defers}

-- Where `Wait` stands: it is not called, it waits for the goroutines, it has returned, or it has
-- closed a channel that was closed, which panics.
pub data Waiting : Type 0 where
  not_called waits over panics : Waiting

-- Where the goroutine of the signal stands: it waits for one, it waits half a minute for the end of
-- `Wait`, or it has ended.
pub data Watch : Type 0 where
  idle timing stopped : Watch

pub record App (W : Type 0) : Type 0 where
  pub running : ℕ
  pub waiting : Waiting
  pub done_closed : Bool
  pub closing : Bool
  pub watch : Watch
  pub defers : List (W → W)
  pub exit_code : Option ℤ
  pub world : W

-- `init`
unfoldable pub begin : {W : Type 0} → W → App W
begin w = record {
  running = 0;
  waiting = not_called;
  done_closed = false;
  closing = false;
  watch = idle;
  defers = [];
  exit_code = none;
  world = w;
}

-- The end of `Wait`, once no goroutine runs: the deferred functions, and then the close of
-- `wgDone`.
unfoldable pub end_wait : {W : Type 0} → App W → App W
end_wait app =
    let app' = record app { world = run_defers app.defers app.world } in
    if app.done_closed
    then record app' { waiting = panics }
    else record app' { waiting = over; done_closed = true }

unfoldable pub close : {W : Type 0} → App W → App W
close app = record app { closing = true }

-- A step of a process that has not exited.
pub data Step {W : Type 0} : App W → App W → Type 0 where
  goes : (app : App W) → app.exit_code ≡ none → Step app (record app { running = suc app.running })
  finishes :
      (app : App W) (n : ℕ)
      → app.exit_code ≡ none
      → app.running ≡ suc n
      → Step app (record app { running = n })
  defers_one :
      (app : App W) (f : Option (W → W))
      → app.exit_code ≡ none
      → Step app (record app { defers = defer f app.defers })
  calls_wait : (app : App W) → app.exit_code ≡ none → Step app (record app { waiting = waits })
  returns :
      (app : App W)
      → app.exit_code ≡ none
      → app.waiting ≡ waits
      → app.running ≡ 0
      → Step app (end_wait app)
  closes : (app : App W) → app.exit_code ≡ none → Step app (close app)
  signalled :
      (app : App W)
      → app.exit_code ≡ none
      → app.watch ≡ idle
      → Step app (record (close app) { watch = timing })
  in_time :
      (app : App W)
      → app.exit_code ≡ none
      → app.watch ≡ timing
      → app.done_closed ≡ true
      → Step app (record app { watch = stopped })
  too_late :
      (app : App W)
      → app.exit_code ≡ none
      → app.watch ≡ timing
      → Step app (record app { exit_code = some (pos 1) })

pub data Reaches {W : Type 0} (w : W) : App W → Type 0 where
  start : Reaches w (begin w)
  next : {a b : App W} → Reaches w a → Step a b → Reaches w b
