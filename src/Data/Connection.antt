-- ===== src/Data/Connection.antt =====
-- data/source.go: the source that the process shares, its connection, and the user version.
use winchaos.Base.{
  ℕ, zero, suc, String, Bool, true, false, List, [], ◌∷◌, Option, none, some, ◌≡◌, refl, ap, ◌∙◌,
  ◌⧺◌, if◌then◌else◌, ℤ, pos,
}
use winchaos.Base.Decimal.{itoa}
use winchaos.Base.Exec.{
  Flow, ok, err, panic, no_fuel, Exec, continue, crash, pure, or_else, ◌>>=◌, ◌>>◌,
}
use winchaos.Data.Engine.{Engine}
use winchaos.Data.Experiment.{check_and_init_experiment_table}

-- The field DB of a `Source`: a connection, or nil.
pub data Handle : Type 0 where
  connected unconnected : Handle

-- `sql.Open` of the data file, `Close` of a connection, and a query of numbers with what the scan
-- of each row yields; an error of the scan is dropped.
pub record Driver (W : Type 0) : Type 0 where
  pub sql_open : Exec W String Unit
  pub close : Exec W String Unit
  pub query_ints : String → Exec W String (List (Option ℤ))

-- The variables of the package: `source`, and whether `once` has run its function.
pub record Package : Type 0 where
  pub source : Option Handle
  pub done : Bool

abbrev pub fresh_package : Package
fresh_package = record { source = none; done = false }

module _ {W : Type 0} (driver : Driver W) (engine : Engine W) where
  abbrev handle_of : Flow String Unit × W → Flow String Handle × W
  handle_of (ok u, w) = (ok connected, w)
  handle_of (err x, w) = (ok unconnected, w)
  handle_of (panic, w) = (panic, w)
  handle_of (no_fuel, w) = (no_fuel, w)

  -- The error is dropped, and the connection is nil then.
  unfoldable pub get_connection : Exec W String Handle
  get_connection w = handle_of (driver.sql_open w)

  -- A method of a connection that is nil panics.
  unfoldable pub init : Handle → Exec W String Unit
  init connected = check_and_init_experiment_table engine
  init unconnected = crash

  unfoldable pub new_source : Exec W String Handle
  unfolding get_connection init
  new_source = do handle ← get_connection; init handle; pure handle

  -- `once` has run even where its function panics.
  abbrev shared : Flow String Handle × W → Flow String (Option Handle) × (Package × W)
  shared (ok handle, w) = (ok (some handle), (record { source = some handle; done = true }, w))
  shared (err x, w) = (err x, (record { source = none; done = true }, w))
  shared (panic, w) = (panic, (record { source = none; done = true }, w))
  shared (no_fuel, w) = (no_fuel, (record { source = none; done = true }, w))

  unfoldable pub get_source : Exec (Package × W) String (Option Handle)
  unfolding new_source
  get_source (p, w) = if p.done then (ok p.source, (p, w)) else shared (new_source w)

  abbrev kept_ds :
      Flow String (Option Handle) × (Package × W)
      → Flow String (Option Handle) × (Option Handle × (Package × W))
  kept_ds (ok d, s) = (ok d, (d, s))
  kept_ds (err x, s) = (err x, (none, s))
  kept_ds (panic, s) = (panic, (none, s))
  kept_ds (no_fuel, s) = (no_fuel, (none, s))

  -- `GetDS`, with the variable of its package.
  unfoldable pub get_ds : Exec (Option Handle × (Package × W)) String (Option Handle)
  unfolding get_source
  get_ds (none, s) = kept_ds (get_source s)
  get_ds (some d, s) = (ok (some d), (some d, s))

  unfoldable pub close_source : Handle → Exec W String Unit
  close_source connected = or_else (λ x. tt) driver.close
  close_source unconnected = pure tt

  -- The loop over the rows, with the number so far.
  unfoldable pub last_scanned : ℤ → List (Option ℤ) → ℤ
  last_scanned n [] = n
  last_scanned n (none ∷ rows) = last_scanned n rows
  last_scanned n (some m ∷ rows) = last_scanned m rows

  unfoldable pub get_user_version : Exec W String ℤ
  unfolding last_scanned
  get_user_version = do
    rows ← driver.query_ints "PRAGMA user_version"
    pure (last_scanned (pos 0) rows)

  unfoldable pub update_user_version : ℤ → Exec W String Unit
  update_user_version version = engine.exec ("PRAGMA user_version=" ⧺ itoa version) []

  new_source_unopened :
      {x : String} (r : Flow String Unit × W)
      → r.0 ≡ err x
      → continue (handle_of r) (λ handle. do init handle; pure handle) ≡ (panic, r.1)
  unfolding init
  new_source_unopened (ok u, w) h = cc
  new_source_unopened (err y, w) h = refl
  new_source_unopened (panic, w) h = cc
  new_source_unopened (no_fuel, w) h = cc

  first_unopened :
      (w : W) {x : String}
      → (driver.sql_open w).0 ≡ err x
      → get_source (fresh_package, w)
        ≡ (panic, (record { source = none; done = true }, (driver.sql_open w).1))
  unfolding get_source new_source get_connection
  first_unopened w h = ap shared (new_source_unopened (driver.sql_open w) h)

  -- The package and the world behind some calls.
  abbrev pub calls : ℕ → Package × W → Package × W
  calls zero s = s
  calls (suc n) s = calls n (get_source s).1

  shared-done : (r : Flow String Handle × W) → (shared r).1.0.done ≡ true
  shared-done (ok h, w) = refl
  shared-done (err x, w) = refl
  shared-done (panic, w) = refl
  shared-done (no_fuel, w) = refl

  get_source-done :
      (p : Package) (w : W) → p.done ≡ true → get_source (p, w) ≡ (ok p.source, (p, w))
  unfolding get_source
  get_source-done p w h = rw h refl

  calls-done : (n : ℕ) (p : Package) (w : W) → p.done ≡ true → calls n (p, w) ≡ (p, w)
  calls-done zero p w h = refl
  calls-done (suc n) p w h = rw (get_source-done p w h) (calls-done n p w h)

  first-done : (w : W) → (get_source (fresh_package, w)).1.0.done ≡ true
  unfolding get_source
  first-done w = shared-done (new_source w)

-- However often the source was asked for since its first use: another call returns the source that
-- the first call left, and does nothing; the set-up has run once.
pub get_source_once :
    {W : Type 0} (driver : Driver W) (engine : Engine W) (n : ℕ) (w : W)
    → get_source driver engine
        (calls driver engine n (get_source driver engine (fresh_package, w)).1)
      ≡ (
        ok (get_source driver engine (fresh_package, w)).1.0.source,
        (get_source driver engine (fresh_package, w)).1,
      )
get_source_once driver engine n w =
    let (p, v) = (get_source driver engine (fresh_package, w)).1 in
    let done = first-done driver engine w in
    rw (calls-done driver engine n p v done) (get_source-done driver engine p v done)

-- Where the data file cannot be opened, the first call panics, and every later one returns nil.
pub get_source_unopened :
    {W : Type 0} (driver : Driver W) (engine : Engine W) (n : ℕ) (w : W) {x : String}
    → (driver.sql_open w).0 ≡ err x
    → ((get_source driver engine (fresh_package, w)).0 ≡ panic)
      × ((get_source driver engine
            (calls driver engine n (get_source driver engine (fresh_package, w)).1)).0
          ≡ ok none)
get_source_unopened driver engine n w unopened =
    let first = first_unopened driver engine w unopened in
    (
      ap (λ r. r.0) first,
      ap (λ r. r.0) (get_source_once driver engine n w) ∙ ap (λ r. ok r.1.0.source) first,
    )
