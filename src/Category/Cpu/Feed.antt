-- ===== src/Category/Cpu/Feed.antt =====
-- web/category/cpu_main.go: `CpuStart`, which measures the load and feeds the goroutines that burn.
pub mod Delivered
use winchaos.Base.{
  ℕ, zero, suc, String, Bool, true, false, List, [], ◌∷◌, ◌++◌, Option, ◌≡◌, ◌<◌, length,
  if◌then◌else◌, ℤ, pos, negsuc, ltb_ℤ,
}
use winchaos.Base.Exec.{Flow, ok, err, panic, no_fuel, Exec, pure, crash, ◌>>=◌, ◌>>◌}
use winchaos.Category.Cpu.{period}

-- The floating-point numbers.
pub record Float (F : Type 0) : Type 0 where
  pub of_int : ℤ → F
  pub add : F → F → F
  pub minus : F → F → F
  pub times : F → F → F
  pub over : F → F → F
  pub below : F → F → Bool
  pub to_int64 : F → ℤ

-- `cpu.Percent` over a second, with its list and its error; `runtime.GOMAXPROCS`.
pub record Meter (W F : Type 0) : Type 0 where
  pub percent : W → (List F × Option String) × W
  pub gomaxprocs : ℤ → W → W

module _ {W F : Type 0} (float : Float F) (meter : Meter W F) where
  abbrev first_used : (List F × Option String) × W → Flow String F × W
  first_used (([], error), w) = (panic, w)
  first_used ((used ∷ more, error), w) = (ok used, w)

  -- An error is logged, and the first number is read all the same.
  unfoldable pub get_used : Exec W String F
  get_used w = first_used (meter.percent w)

  unfoldable pub get_quota : F → Exec W String ℤ
  unfolding get_used
  get_quota slope_percent = do
    used ← get_used
    let dx = float.over (float.minus slope_percent used) (float.of_int (pos 100))
    pure (float.to_int64 (float.times dx (float.of_int period)))

  abbrev climbs : ℤ → ℤ → F → Exec W String (F × Option F)
  climbs percent (pos zero) slope_percent = pure (slope_percent, Option.none)
  climbs percent climb_time slope_percent = do
    used ← get_used
    pure (used, Option.some (float.minus (float.of_int percent) used))

  -- The percent to start with, and where it is to climb, the distance from there to the target.
  unfoldable pub slope : ℤ → ℤ → F → Exec W String (F × Option F)
  unfolding get_used
  slope = climbs

  -- `make` of a channel panics on a negative size.
  abbrev goroutines : ℤ → F × Option F → Exec W String (ℕ × F)
  goroutines (pos count) (slope_percent, climbing) = pure (count, slope_percent)
  goroutines (negsuc n) (slope_percent, climbing) = crash

  -- `CpuStart` up to its loop: how many goroutines burn, and at which percent. The climb time is 0.
  unfoldable pub cpu_start : ℤ → ℤ → Exec W String (ℕ × F)
  unfolding slope
  cpu_start count percent = do
    (λ w. (ok tt, meter.gomaxprocs count w))
    started ← slope percent (pos 0) (float.of_int percent)
    goroutines count started

  -- One tick of the goroutine that climbs.
  unfoldable pub climb : ℤ → ℤ → F → F → F
  climb percent climb_time start_percent at =
      let target = float.of_int percent in
      let stride = float.over start_percent (float.of_int climb_time) in
      if float.below at target
      then float.add at stride
      else if float.below target at
      then float.minus at stride
      else at

-- The channel of quotas. `rounds` are the quotas that the loop has measured, `received` what the
-- goroutines have taken, and the loop still has to send the last quota `pending` times.
pub record State : Type 0 where
  pub channel : List ℤ
  pub quota : ℤ
  pub pending : ℕ
  pub rounds : List ℤ
  pub received : List ℤ

-- The channel is made with room for a quota of each goroutine.
unfoldable pub begin : State
begin = record { channel = []; quota = pos 0; pending = 0; rounds = []; received = [] }

-- The loop sends while there is room, and measures the next quota once it has sent the last one to
-- each goroutine; any goroutine receives.
pub data Step (count : ℕ) : State → State → Type 0 where
  measures :
      (s : State) (q : ℤ)
      → s.pending ≡ 0
      → Step count s (record s { quota = q; pending = count; rounds = s.rounds ++ q ∷ [] })
  sends :
      (s : State) (n : ℕ)
      → s.pending ≡ suc n
      → length s.channel < count
      → Step count s (record s { channel = s.channel ++ s.quota ∷ []; pending = n })
  receives :
      (s : State) (q : ℤ) (rest : List ℤ)
      → s.channel ≡ q ∷ rest
      → Step count s (record s { channel = rest; received = s.received ++ q ∷ [] })

pub data Reaches (count : ℕ) : State → Type 0 where
  start : Reaches count begin
  next : {s t : State} → Reaches count s → Step count s t → Reaches count t
