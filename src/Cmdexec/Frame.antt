-- ===== src/Cmdexec/Frame.antt =====
-- What a request may do to the table of experiments: calls that leave it alone, and the one change
-- that there is.
use winchaos.Base.{ℕ, zero, suc, String, false, Option, none, some, ◌≡◌, refl, ◌∙◌, ◌==◌, ◌⊎◌, inl}
use winchaos.Base.Exec.{
  Flow, ok, err, panic, no_fuel, Exec, Outcome, returned, panicked, exhausted, outcome, pure,
  settle, rethrow, continue, ◌>>=◌,
}
use winchaos.Data.Model.{ExperimentModel}
use winchaos.Data.Source.{SourceI, IsSource, restamped}
use winchaos.Cmdexec.Host.{Host, IsApart}
use winchaos.Cmdexec.Uid.{unless_known, generate_uid}
use winchaos.Cmdexec.Status.{created, success, error, destroyed}

module _ {W : Type 0} (find : W → String → Option ExperimentModel) where
  -- A call that leaves the table alone, in whatever way it ends.
  abbrev pub Keeps : {A : Type 0} → Exec W String A → Type 0
  Keeps m = (w : W) (k : String) → find (m w).1 k ≡ find w k

  pub continue-Keeps :
      {A B : Type 0} (r : Flow String A × W) (f : A → Exec W String B)
      → ((a : A) → Keeps (f a))
      → (k : String) → find (continue r f).1 k ≡ find r.1 k
  continue-Keeps (ok a, w) f h k = h a w k
  continue-Keeps (err x, w) f h k = refl
  continue-Keeps (panic, w) f h k = refl
  continue-Keeps (no_fuel, w) f h k = refl

  pub >>=-Keeps :
      {A B : Type 0} (m : Exec W String A) (f : A → Exec W String B)
      → Keeps m
      → ((a : A) → Keeps (f a))
      → Keeps (m >>= f)
  >>=-Keeps m f h g w k = continue-Keeps (m w) f g k ∙ h w k

  pub settle_keeps :
      {A : Type 0} (f : String → A) (r : Flow String A × W) (k : String)
      → find (settle {E' = String} f r).1 k ≡ find r.1 k
  settle_keeps f (ok a, w) k = refl
  settle_keeps f (err x, w) k = refl
  settle_keeps f (panic, w) k = refl
  settle_keeps f (no_fuel, w) k = refl

module _ {W : Type 0} (host : Host W) (ds : SourceI W) (find : W → String → Option ExperimentModel)
    (apart : IsApart host find) (law : IsSource ds find) where
  unless_known-Keeps :
      (found : Option ExperimentModel) (uid : String) (again : Exec W String String)
      → Keeps find again
      → Keeps find (unless_known host ds found uid again)
  unless_known-Keeps none uid again h = λ w k. refl
  unless_known-Keeps (some m) uid again h = h

  pub generate_uid-Keeps : (fuel : ℕ) → Keeps find (generate_uid host ds fuel)
  unfolding generate_uid
  generate_uid-Keeps zero = λ w k. refl
  generate_uid-Keeps (suc fuel) = >>=-Keeps find host.generate_uid _ apart.generate_keeps (λ uid.
      >>=-Keeps find (ds.query_experiment_model_by_uid uid) _ (λ w k. law.query_keeps uid k w)
        (λ found. unless_known-Keeps found uid _ (generate_uid-Keeps fuel)))

module _ {W : Type 0} (find : W → String → Option ExperimentModel) where
  -- No record has changed.
  abbrev pub Same : W → W → Type 0
  Same w w' = (k : String) → find w' k ≡ find w k

  -- A status that the record of a script may have.
  abbrev pub IsRun : String → Type 0
  IsRun s = (s ≡ created) ⊎ ((s ≡ success) ⊎ (s ≡ error))

  -- The uid has a new record, or its record is marked as destroyed.
  abbrev pub IsStep : Option ExperimentModel → Option ExperimentModel → Type 0
  IsStep old new =
      ((old ≡ none) × ((m : ExperimentModel) × (new ≡ some m) × IsRun m.status))
      ⊎ ((m : ExperimentModel) × (old ≡ some m)
          × ((t : String) × (new ≡ restamped destroyed "" t (some m))))

  -- No record has changed, or the one of a single uid.
  abbrev pub Changes : W → W → Type 0
  Changes w w' =
      Same w w'
      ⊎ ((uid : String) × ((k : String) → (uid == k) ≡ false → find w' k ≡ find w k)
          × IsStep (find w uid) (find w' uid))

  -- So it is wherever a call returns, in whatever way.
  abbrev pub Effects : {E A : Type 0} → W → Flow E A × W → Type 0
  Effects w (ok a, w') = Changes w w'
  Effects w (err e, w') = Changes w w'
  Effects w (panic, w') = Unit
  Effects w (no_fuel, w') = Unit

  abbrev pub Outcomes : {R : Type 0} → W → Outcome R × W → Type 0
  Outcomes w (returned r, w') = Changes w w'
  Outcomes w (panicked, w') = Unit
  Outcomes w (exhausted, w') = Unit

  pub outcome-Effects :
      {R : Type 0} (w : W) (r : Flow R R × W) → Effects w r → Outcomes w (outcome r)
  outcome-Effects w (ok a, v) h = h
  outcome-Effects w (err x, v) h = h
  outcome-Effects w (panic, v) h = tt
  outcome-Effects w (no_fuel, v) h = tt

  pub rethrow-Effects :
      {E E' A : Type 0} (f : E → E') (w : W) (r : Flow E A × W)
      → Effects w r
      → Effects w (rethrow f r)
  rethrow-Effects f w (ok a, v) h = h
  rethrow-Effects f w (err x, v) h = h
  rethrow-Effects f w (panic, v) h = tt
  rethrow-Effects f w (no_fuel, v) h = tt

  pub pure-Effects :
      {E A B : Type 0} (g : A → B) (w : W) (r : Flow E A × W)
      → Effects w r
      → Effects w (continue r (λ a. pure (g a)))
  pure-Effects g w (ok a, v) h = h
  pure-Effects g w (err x, v) h = h
  pure-Effects g w (panic, v) h = tt
  pure-Effects g w (no_fuel, v) h = tt

  -- A call that leaves the table alone.
  pub Same-Effects : {E A : Type 0} (w : W) (r : Flow E A × W) → Same w r.1 → Effects w r
  Same-Effects w (ok a, v) same = inl same
  Same-Effects w (err x, v) same = inl same
  Same-Effects w (panic, v) same = tt
  Same-Effects w (no_fuel, v) same = tt

  pub continue-Effects :
      {E A B : Type 0} (w : W) (r : Flow E A × W) (f : A → Exec W E B)
      → Same w r.1
      → ((a : A) (v : W) → r ≡ (ok a, v) → Same w v → Effects w (f a v))
      → Effects w (continue r f)
  continue-Effects w (ok a, v) f same h = h a v refl same
  continue-Effects w (err x, v) f same h = inl same
  continue-Effects w (panic, v) f same h = tt
  continue-Effects w (no_fuel, v) f same h = tt
