-- ===== src/Cmdexec/Script/Marks.antt =====
-- How the end of a script shows in its record.
use winchaos.Base.{
  String, Bool, true, false, ◌&&◌, List, Option, some, ◌≡◌, refl, sym, ap, ◌∙◌, ◌==◌, ◌⊎◌, inl, inr,
  ltb, if◌then◌else◌,
}
use winchaos.Base.Decimal.{parse_uint64}
use winchaos.Base.Exec.{Flow, ok, err, panic, no_fuel, settle, continue}
use winchaos.Data.Model.{ExperimentModel}
use winchaos.Data.Source.{SourceI, IsSource, restamped}
use winchaos.Cmdexec.Host.{Host, IsApart}
use winchaos.Cmdexec.Status.{success, error}
use winchaos.Cmdexec.Script.{finish_script, run_script, timeout_seconds}

module _ {W : Type 0} (ds : SourceI W) (find : W → String → Option ExperimentModel) where
  -- The record of the uid has the status and the error text and no other record changed, or the
  -- update failed and none changed.
  abbrev pub Marked : String → String → String → W → W → Type 0
  Marked uid s x w w' =
      ((t : String) × ((k : String)
          → find w' k ≡ (if uid == k then restamped s x t (find w k) else find w k)))
      ⊎ ((before : W) × (y : String) × (ds.update_experiment_model_by_uid uid s x before
            ≡ (err y, w'))
          × ((k : String) → find w' k ≡ find w k))

  -- How a run that began in `w` ends.
  abbrev pub Ends : String → W → Flow String String × W → Type 0
  Ends uid w (ok a, w') = (a ≡ uid) × Marked uid success "" w w'
  Ends uid w (err x, w') = Marked uid error x w w'
  Ends uid w (panic, w') = Unit
  Ends uid w (no_fuel, w') = Unit

module _ {W : Type 0} (host : Host W) (ds : SourceI W) (find : W → String → Option ExperimentModel)
    (apart : IsApart host find) (law : IsSource ds find) where
  -- An update that ends well, or fails, on a table that the script left alone.
  marked :
      (uid s x t : String) (w v : W) (r : W)
      → ((k : String) → find v k ≡ find w k)
      → ((k : String) → find r k ≡ (if uid == k then restamped s x t (find v k) else find v k))
      → (k : String) → find r k ≡ (if uid == k then restamped s x t (find w k) else find w k)
  marked uid s x t w v r kept sets k = sets k ∙ rw (kept k) refl

  succeeded :
      (uid : String) (w v : W) (r : Flow String Unit × W)
      → ((k : String) → find v k ≡ find w k)
      → r ≡ ds.update_experiment_model_by_uid uid success "" v
      → Ends ds find uid w (continue {E = String} (settle (λ y. tt) r) (λ _ u. (ok uid, u)))
  succeeded uid w v (ok u, r) kept e =
      let (t, sets) = law.update_sets uid success "" v (sym (ap (λ r. r.0) e)) in
      (refl, inl (t, marked uid success "" t w v r kept (λ k. ap (λ a. find a.1 k) e ∙ sets k)))
  succeeded uid w v (err y, r) kept e =
      let fails = law.update_fails uid success "" in
      (
        refl,
        inr (
          v,
          y,
          sym e,
          λ k. ap (λ a. find a.1 k) e ∙ fails k v y (sym (ap (λ r. r.0) e)) ∙ kept k,
        ),
      )
  succeeded uid w v (panic, r) kept e = tt
  succeeded uid w v (no_fuel, r) kept e = tt

  failed :
      (uid x : String) (w v : W) (r : Flow String Unit × W)
      → ((k : String) → find v k ≡ find w k)
      → r ≡ ds.update_experiment_model_by_uid uid error x v
      → Ends ds find uid w (continue {E = String} (settle (λ y. tt) r) (λ _ u. (err x, u)))
  failed uid x w v (ok u, r) kept e =
      let (t, sets) = law.update_sets uid error x v (sym (ap (λ r. r.0) e)) in
      inl (t, marked uid error x t w v r kept (λ k. ap (λ a. find a.1 k) e ∙ sets k))
  failed uid x w v (err y, r) kept e =
      let fails = law.update_fails uid error x in
      inr (v, y, sym e, λ k. ap (λ a. find a.1 k) e ∙ fails k v y (sym (ap (λ r. r.0) e)) ∙ kept k)
  failed uid x w v (panic, r) kept e = tt
  failed uid x w v (no_fuel, r) kept e = tt

  killed_keeps :
      (late : Bool) (w : W) (k : String)
      → find (if late then host.kill_command w else w) k ≡ find w k
  killed_keeps true w k = apart.kill_command_keeps w k
  killed_keeps false w k = refl

  finish_script-Ends :
      (uid timeout : String) (w : W) (r : Flow String String × W)
      → ((k : String) → find r.1 k ≡ find w k)
      → Ends ds find uid w (finish_script host ds uid timeout w r)
  unfolding finish_script
  finish_script-Ends uid timeout w (ok output, v) kept =
      let seconds = timeout_seconds host ds (parse_uint64 timeout) timeout in
      let late = ltb 0 seconds && ltb seconds (host.seconds_since w v) in
      succeeded uid w (if late then host.kill_command v else v) _
        (λ k. killed_keeps late v k ∙ kept k) refl
  finish_script-Ends uid timeout w (err x, v) kept = failed uid x w v _ kept refl
  finish_script-Ends uid timeout w (panic, v) kept = tt
  finish_script-Ends uid timeout w (no_fuel, v) kept = tt

-- A script of a kind that is run, in whatever way its command ends: if the run returns, it returns
-- the uid of the experiment, and the record of the uid is marked with `Success` and no error text;
-- if it fails, the record is marked with `Error` and the text of that error. Where the update
-- fails, and in every other record, nothing has changed.
pub run_script_marks :
    {W : Type 0} (host : Host W) (ds : SourceI W) (find : W → String → Option ExperimentModel)
    → IsApart host find
    → IsSource ds find
    → (uid timeout path name : String) (args : List String) (w : W)
    → Ends ds find uid w (run_script host ds uid timeout path (some (name, args)) w)
unfolding run_script
run_script_marks host ds find apart law uid timeout path name args w =
    finish_script-Ends host ds find apart law uid timeout w (host.combined_output name args w)
      (apart.output_keeps name args w)
