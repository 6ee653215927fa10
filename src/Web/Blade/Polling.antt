-- ===== src/Web/Blade/Polling.antt =====
-- The loop that watches a status ends, and how.
use winchaos.Base.{
  ℕ, zero, suc, Option, none, some, ◌⧺◌, ◌≤◌, ◌<◌, String, Bool, true, false, ◌≡◌, ◌≢◌, refl, ◌⊎◌,
  inl, inr, arith, Bool-cases, Option-cases,
}
use winchaos.Base.Exec.{Flow, ok, err, panic, no_fuel, Exec}
use winchaos.Transport.Value.{Value, null, str, num, bool, arr, obj, model, models, Fields, field?}
use winchaos.Web.Blade.{
  Blade, Preparation, equal_fold, filled, preparation_of, answered, watched, parse_result,
  text_field, query_preparation_status, timing_check_status,
}

-- The timer: the minute is made of ticks, and no run of the program gives time back.
pub record IsTimer {W : Type 0} (blade : Blade W) (left : W → ℕ) : Type 0 where
  pub tick_counts : (w : W) → blade.is_done (blade.tick w) ≡ false → left (blade.tick w) < left w
  pub exec_counts : (command : String) (w : W) → left (blade.exec_script command w).1 ≤ left w

module _ {W : Type 0} (blade : Blade W) where
  -- One of the three fields of a record is there and is no text.
  abbrev pub HasBadField : Fields → Type 0
  HasBadField fs =
      (key : String) × (v : Value) × ((key ≡ "ProgramType") ⊎ ((key ≡ "Status") ⊎ (key ≡ "Error")))
      × (field? key fs ≡ some v)
      × ((s : String) → v ≢ str s)

  -- The program, asked for the status of the uid, has left this world, with the answer of an object
  -- that has such a field.
  abbrev pub BadAnswer : String → W → Type 0
  BadAnswer uid w =
      (before : W) × (result : String) × (error_msg : String) × (fs : Fields) × (blade.exec_script
          ("status " ⧺ uid) before
        ≡ ((result, error_msg, true), w))
      × ((parse_result blade result).result ≡ obj fs)
      × HasBadField fs

  -- A status that is settled, unless the time was over first.
  abbrev pub Settled : String → Flow Unit (String × String) × W → Type 0
  Settled uid (ok (status, error_msg), w) =
      (equal_fold status "Created" ≡ false) ⊎ (blade.is_done w ≡ true)
  Settled uid (err u, w) = ⊥
  Settled uid (panic, w) = BadAnswer uid w
  Settled uid (no_fuel, w) = ⊥

  -- Why a look at the status has panicked.
  abbrev Caused : String → Flow String Preparation × W → Type 0
  Caused uid (ok r, w) = Unit
  Caused uid (err x, w) = Unit
  Caused uid (panic, w) = BadAnswer uid w
  Caused uid (no_fuel, w) = Unit

  bad_field :
      (key : String) (fs : Fields)
      → (key ≡ "ProgramType") ⊎ ((key ≡ "Status") ⊎ (key ≡ "Error"))
      → text_field key fs ≡ none
      → HasBadField fs
  bad_field key fs known h = elim (Option-cases (field? key fs)) [
    | inl lacks ↦ cc (rw (lacks, text_field) at h)
    | inr (v, here) ↦ (key, v, known, here, λ s e. cc (rw (here, e, text_field) at h))
  ]

  filled-Caused :
      (uid : String) (fs : Fields) (p s x : Option String) (w : W)
      → text_field "ProgramType" fs ≡ p
      → text_field "Status" fs ≡ s
      → text_field "Error" fs ≡ x
      → (HasBadField fs → BadAnswer uid w)
      → Caused uid (filled blade uid p s x w)
  filled-Caused uid fs none s x w e e' e'' why = why (bad_field "ProgramType" fs (inl refl) e)
  filled-Caused uid fs (some p) none x w e e' e'' why =
      why (bad_field "Status" fs (inr (inl refl)) e')
  filled-Caused uid fs (some p) (some s) none w e e' e'' why =
      why (bad_field "Error" fs (inr (inr refl)) e'')
  filled-Caused uid fs (some p) (some s) (some x) w e e' e'' why = tt

  preparation_of-Caused :
      (uid : String) (v : Value) (w : W)
      → ((fs : Fields) → v ≡ obj fs → HasBadField fs → BadAnswer uid w)
      → Caused uid (preparation_of blade uid v w)
  unfolding preparation_of
  preparation_of-Caused uid null w why = tt
  preparation_of-Caused uid (obj fs) w why =
      filled-Caused uid fs _ _ _ w refl refl refl (why fs refl)
  preparation_of-Caused uid (str s) w why = tt
  preparation_of-Caused uid (num s) w why = tt
  preparation_of-Caused uid (bool b) w why = tt
  preparation_of-Caused uid (arr vs) w why = tt
  preparation_of-Caused uid (model m) w why = tt
  preparation_of-Caused uid (models ms) w why = tt

  answered-Caused :
      (uid : String) (before : W) (r : (String × String × Bool) × W)
      → blade.exec_script ("status " ⧺ uid) before ≡ r
      → Caused uid (answered blade uid r)
  unfolding answered
  answered-Caused uid before ((result, error_msg, false), w) e = tt
  answered-Caused uid before ((result, error_msg, true), w) e =
      preparation_of-Caused uid (parse_result blade result).result w
        (λ fs is bad. (before, result, error_msg, fs, e, is, bad))

  module _ (left : W → ℕ) where
    -- A look at the status ends, with no more time left than there was.
    abbrev Looked : ℕ → Flow String Preparation × W → Type 0
    Looked n r = (r.0 ≢ no_fuel) × (left r.1 ≤ n)

    filled_looks :
        (uid : String) (p s x : Option String) (w : W) → Looked (left w) (filled blade uid p s x w)
    filled_looks uid none s x w = (λ e. cc, omega arith)
    filled_looks uid (some p) none x w = (λ e. cc, omega arith)
    filled_looks uid (some p) (some s) none w = (λ e. cc, omega arith)
    filled_looks uid (some p) (some s) (some x) w = (λ e. cc, omega arith)

    preparation_of_looks :
        (uid : String) (v : Value) (w : W) → Looked (left w) (preparation_of blade uid v w)
    unfolding preparation_of
    preparation_of_looks uid null w = (λ e. cc, omega arith)
    preparation_of_looks uid (obj fs) w = filled_looks uid _ _ _ w
    preparation_of_looks uid (str s) w = (λ e. cc, omega arith)
    preparation_of_looks uid (num s) w = (λ e. cc, omega arith)
    preparation_of_looks uid (bool b) w = (λ e. cc, omega arith)
    preparation_of_looks uid (arr vs) w = (λ e. cc, omega arith)
    preparation_of_looks uid (model m) w = (λ e. cc, omega arith)
    preparation_of_looks uid (models ms) w = (λ e. cc, omega arith)

    answered_looks :
        (uid : String) (r : (String × String × Bool) × W) → Looked (left r.1) (answered blade uid r)
    unfolding answered
    answered_looks uid ((result, error_msg, false), w) = (λ e. cc, omega arith)
    answered_looks uid ((result, error_msg, true), w) =
        preparation_of_looks uid (parse_result blade result).result w

    watched_settles :
        (n : ℕ) (uid status error_msg : String)
        (again : String → String → Exec W Unit (String × String))
        → ((s x : String) (w : W) → left w ≤ n → Settled uid (again s x w))
        → (r : Flow String Preparation × W) → Looked n r
        → Caused uid r
        → Settled uid (watched blade status error_msg again r)
    watched_settles n uid status error_msg again ih (ok r, w) looked why =
        elim (Bool-cases (equal_fold r.status "Created")) [
          | inl created ↦ rw created (ih r.status error_msg w looked.1)
          | inr settled ↦ rw settled (inl settled)
        ]
    watched_settles n uid status error_msg again ih (err x, w) looked why =
        ih status error_msg w looked.1
    watched_settles n uid status error_msg again ih (panic, w) looked why = why
    watched_settles n uid status error_msg again ih (no_fuel, w) looked why = absurd (looked.0 refl)

    module _ (timer : IsTimer blade left) where
      timing_settles :
          (fuel : ℕ) (uid status error_msg : String) (w : W)
          → left w < fuel
          → Settled uid (timing_check_status blade fuel uid status error_msg w)
      unfolding timing_check_status query_preparation_status
      timing_settles zero uid status error_msg w h = omega arith
      timing_settles (suc fuel) uid status error_msg w h =
          elim (Bool-cases (blade.is_done (blade.tick w))) [
            | inl done ↦ rw done (inr done)
            | inr going ↦
                let counts = timer.tick_counts w going in
                let ran = blade.exec_script ("status " ⧺ uid) (blade.tick w) in
                let (ends, less) = answered_looks uid ran in
                let rest = timer.exec_counts ("status " ⧺ uid) (blade.tick w) in
                rw going (
                  watched_settles (left (blade.tick w)) uid status error_msg
                    (timing_check_status blade fuel uid)
                    (λ s x v k. timing_settles fuel uid s x v (omega arith))
                    (answered blade uid ran) (ends, omega arith)
                    (answered-Caused uid (blade.tick w) ran refl))
          ]

-- If the minute is made of ticks, the loop over the ticks ends: with more fuel than there are ticks
-- left it does not run out of it. It returns a status that is not `Created` in any case of its
-- letters, unless the minute is over, or it panics, on an answer of the program
-- that is an object whose field ProgramType, Status or Error is there and is no text.
pub timing_check_status_settles :
    {W : Type 0} (blade : Blade W) (left : W → ℕ)
    → IsTimer blade left
    → (uid status error_msg : String) (w : W)
    → Settled blade uid (timing_check_status blade (suc (left w)) uid status error_msg w)
timing_check_status_settles blade left timer uid status error_msg w =
    timing_settles blade left timer (suc (left w)) uid status error_msg w (omega arith)
