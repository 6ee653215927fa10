-- ===== src/Cmdexec/Destroy/Framed.antt =====
-- The end of an experiment marks its record, and no other.
use winchaos.Base.{
  String, Option, none, some, ◌≡◌, refl, sym, ap, ◌∙◌, ◌==◌, Bool-cases, inl, inr, eq_refl,
}
use winchaos.Base.Exec.{Flow, ok, err, panic, no_fuel, settle, rethrow, continue}
use winchaos.Data.Model.{ExperimentModel}
use winchaos.Data.Source.{SourceI, IsSource}
use winchaos.Transport.Response.{Response}
use winchaos.Cmdexec.Host.{Host, IsApart}
use winchaos.Cmdexec.Status.{destroyed}
use winchaos.Cmdexec.Frame.{
  Same, Effects, Outcomes, outcome-Effects, pure-Effects, continue-Effects,
}
use winchaos.Cmdexec.Destroy.{undo, mark_destroyed, destroy_found, destroy_experiment, not_found}
use winchaos.Cmdexec.Destroy.Keeps.{undo_keeps}

module _ {W : Type 0} (host : Host W) (ds : SourceI W) (find : W → String → Option ExperimentModel)
    (apart : IsApart host find) (law : IsSource ds find) where
  update-Effects :
      (uid : String) (m : ExperimentModel) (w v : W) (r : Flow String Unit × W)
      → find w uid ≡ some m
      → Same find w v
      → r ≡ ds.update_experiment_model_by_uid uid destroyed "" v
      → Effects find w (settle {E' = Response} (λ x. tt) r)
  update-Effects uid m w v (ok u, v') there same e =
      let (t, sets) = law.update_sets uid destroyed "" v (sym (ap (λ r. r.0) e)) in
      let now = λ (k : String). ap (λ a. find a.1 k) e ∙ sets k in
      inr (
        uid,
        (λ k other. now k ∙ rw other (same k)),
        inr (m, there, (t, now uid ∙ rw (eq_refl uid, same uid, there) refl)),
      )
  update-Effects uid m w v (err x, v') there same e = inl (λ k.
      ap (λ a. find a.1 k) e
      ∙ law.update_fails uid destroyed "" k v x (sym (ap (λ r. r.0) e))
      ∙ same k)
  update-Effects uid m w v (panic, v') there same e = tt
  update-Effects uid m w v (no_fuel, v') there same e = tt

  mark_destroyed-Effects :
      (uid : String) (m : ExperimentModel) (w v : W)
      → find w uid ≡ some m
      → Same find w v
      → Effects find w (mark_destroyed host ds uid v)
  unfolding mark_destroyed
  mark_destroyed-Effects uid m w v there same = pure-Effects find _ w _ (
      update-Effects uid m w v (ds.update_experiment_model_by_uid uid destroyed "" v) there same
        refl)

  destroy_found-Effects :
      (uid : String) (w v : W) (found : Option ExperimentModel)
      → found ≡ find w uid
      → Same find w v
      → Effects find w (destroy_found host ds uid found v)
  unfolding destroy_found
  destroy_found-Effects uid w v none e same = tt
  destroy_found-Effects uid w v (some m) e same = elim (Bool-cases (m.status == destroyed)) [
    | inl done ↦ rw (destroy_found, done) (inl same)
    | inr alive ↦
        rw (destroy_found, alive)
          (continue-Effects find w (undo host ds uid m v) _
            (λ k. undo_keeps host ds find apart uid m v k ∙ same k)
            (λ u v' _ same'. mark_destroyed-Effects uid m w v' (sym e) same'))
  ]

  found-Effects :
      (uid : String) (w : W) (r : Flow String (Option ExperimentModel) × W)
      → r ≡ ds.query_experiment_model_by_uid uid w
      → Effects find w (continue (rethrow (not_found host ds uid) r) (destroy_found host ds uid))
  found-Effects uid w (ok found, v) e =
      let kept = λ (k : String). ap (λ r. find r.1 k) e ∙ law.query_keeps uid k w in
      destroy_found-Effects uid w v found (law.query_finds uid w (sym (ap (λ r. r.0) e))) kept
  found-Effects uid w (err x, v) e = inl (λ k. ap (λ r. find r.1 k) e ∙ law.query_keeps uid k w)
  found-Effects uid w (panic, v) e = tt
  found-Effects uid w (no_fuel, v) e = tt

  pub destroy_experiment-Outcomes :
      (uid : String) (w : W) → Outcomes find w (destroy_experiment host ds uid w)
  unfolding destroy_experiment
  destroy_experiment-Outcomes uid w =
      outcome-Effects find w _ (found-Effects uid w (ds.query_experiment_model_by_uid uid w) refl)
