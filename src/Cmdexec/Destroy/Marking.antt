-- ===== src/Cmdexec/Destroy/Marking.antt =====
-- What the update at the end of an experiment does to the records.
use winchaos.Base.{
  String, Option, ◌≡◌, ◌≢◌, refl, sym, ap, ◌∙◌, ◌==◌, eq_iff, inl, inr, ◌⊎◌, if◌then◌else◌, arith,
}
use winchaos.Base.Exec.{Flow, ok, err, panic, no_fuel, returned, outcome, continue, settle}
use winchaos.Data.Model.{ExperimentModel}
use winchaos.Data.Source.{SourceI, IsSource, restamped}
use winchaos.Transport.Response.{Response, return_success}
use winchaos.Cmdexec.Status.{destroyed}

module _ {W : Type 0} (ds : SourceI W) (find : W → String → Option ExperimentModel) where
  -- The record of the uid is marked, or the update that should mark it, made in the world `before`,
  -- failed.
  abbrev pub Marks : String → W → W → W → Type 0
  Marks uid w before w' =
      ((t : String) × (find w' uid ≡ restamped destroyed "" t (find w uid)))
      ⊎ ((x : String) × ((ds.update_experiment_model_by_uid uid destroyed "" before).0 ≡ err x))

  -- No other record changes.
  abbrev pub Leaves : String → W → W → Type 0
  Leaves uid w w' = (k : String) → uid ≢ k → find w' k ≡ find w k

  updated_at :
      (uid k t : String) (w w' : W)
      → find w' k ≡ (if uid == k then restamped destroyed "" t (find w k) else find w k)
      → (uid ≡ k → find w' k ≡ restamped destroyed "" t (find w k))
        × (uid ≢ k → find w' k ≡ find w k)
  updated_at uid k t w w' h = ground (arith, eq_iff uid k)

module _ {W : Type 0} (ds : SourceI W) (find : W → String → Option ExperimentModel)
    (law : IsSource ds find) where
  pub settle_from :
      (uid : String) (w : W) (r : Flow String Unit × W) (w' : W) {a : Response}
      → r ≡ ds.update_experiment_model_by_uid uid destroyed "" w
      → outcome (continue {E = Response} (settle (λ x. tt) r) (λ _ v. (ok return_success, v)))
        ≡ (returned a, w')
      → Marks ds find uid w w w' × Leaves ds find uid w w'
  settle_from uid w (ok u, v) w' e h =
      let same : (ds.update_experiment_model_by_uid uid destroyed "" w).1 ≡ w' =
        sym (ap (λ r. r.1) e) ∙ ap (λ o. o.1) h in
      let (t, sets) = law.update_sets uid destroyed "" w (sym (ap (λ r. r.0) e)) in
      let at = λ (k : String). updated_at ds find uid k t w w' (rw (← same) (sets k)) in
      (inl (t, (at uid).0 refl), λ k. (at k).1)
  settle_from uid w (err x, v) w' e h =
      let failed : (ds.update_experiment_model_by_uid uid destroyed "" w).0 ≡ err x =
        sym (ap (λ r. r.0) e) in
      let same : (ds.update_experiment_model_by_uid uid destroyed "" w).1 ≡ w' =
        sym (ap (λ r. r.1) e) ∙ ap (λ o. o.1) h in
      (inr (x, failed), λ k _. rw (← same) (law.update_fails uid destroyed "" k w x failed))
  settle_from uid w (panic, v) w' e h = cc
  settle_from uid w (no_fuel, v) w' e h = cc
