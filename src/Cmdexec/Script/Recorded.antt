-- ===== src/Cmdexec/Script/Recorded.antt =====
-- What a script leaves in the table of experiments, from its request to its end.
use winchaos.Base.{
  String, false, List, Option, none, some, ◌≡◌, refl, ◌∙◌, ◌==◌, ◌⧺◌, ◌⊎◌, inl, inr, eq_refl,
}
use winchaos.Base.Exec.{Flow, ok, err, panic, no_fuel}
use winchaos.Data.Model.{ExperimentModel, with_status}
use winchaos.Data.Source.{SourceI, IsSource}
use winchaos.Cmdexec.Host.{Host, IsApart}
use winchaos.Cmdexec.Status.{created, success, error}
use winchaos.Cmdexec.Frame.{Same}
use winchaos.Cmdexec.Script.{run_script, script_model}
use winchaos.Cmdexec.Script.Marks.{Marked, Ends, run_script_marks}

module _ {W : Type 0} (host : Host W) (ds : SourceI W)
    (find : W → String → Option ExperimentModel) where
  -- The record has this status and error text, or it has the status of its start, as the last
  -- update failed.
  abbrev pub SettledAs : String → String → String → W → ExperimentModel → Type 0
  SettledAs uid s x w' m =
      ((m.status ≡ s) × (m.error ≡ x))
      ⊎ ((m.status ≡ created)
          × ((before : W) × (y : String) × (ds.update_experiment_model_by_uid uid s x before
                ≡ (err y, w'))))

  -- The insertion of this record failed, in a world with the records of `w`.
  abbrev pub Refused : ExperimentModel → W → Type 0
  Refused m w =
      (before : W) × (y : String) × Same find w before
      × ((ds.insert_experiment_model m before).0 ≡ err y)

  -- The uid was in no record, and every other record is as it was. The uid now has a record of a
  -- script with this flag, of which the predicate holds, or its insertion has failed.
  abbrev pub Traced : String → String → W → W → (ExperimentModel → Type 0) → Type 0
  Traced uid flag w w' P =
      (find w uid ≡ none)
      × ((k : String) → (uid == k) ≡ false → find w' k ≡ find w k)
      × (((find w' uid ≡ none)
            × ((dir : String) × (now : String) × Refused (script_model host ds uid dir flag now) w))
          ⊎ ((m : ExperimentModel) × (find w' uid ≡ some m)
              × (m.cmd_type ≡ "script")
              × (m.flag ≡ flag)
              × P m))

  -- What has become of the records behind a script with these arguments that began in `w`.
  abbrev pub Recorded : String → W → Flow String String × W → Type 0
  Recorded flag w (ok uid, w') = Traced uid flag w w' (SettledAs uid success "" w')
  Recorded flag w (err x, w') =
      Same find w w'
      ⊎ ((uid : String) × (Traced uid flag w w' (SettledAs uid error x w')
            ⊎ (((path : String) × (x ≡ path ⧺ " : format is wrong!"))
                × Traced uid flag w w' (λ m. m.status ≡ created))))
  Recorded flag w (panic, w') = Unit
  Recorded flag w (no_fuel, w') = Unit

  -- The table behind the insertion of a record.
  abbrev pub Inserted : ExperimentModel → W → W → Type 0
  Inserted m w v =
      (find w m.uid ≡ none)
      × ((k : String) → (m.uid == k) ≡ false → find v k ≡ find w k)
      × (((find v m.uid ≡ none) × Refused m w) ⊎ (find v m.uid ≡ some m))

module _ {W : Type 0} (host : Host W) (ds : SourceI W) (find : W → String → Option ExperimentModel)
    (apart : IsApart host find) (law : IsSource ds find) where
  Traced-Same :
      (uid dir flag now : String) (w v w' : W) (P : ExperimentModel → Type 0)
      → Inserted host ds find (script_model host ds uid dir flag now) w v
      → Same find v w'
      → P (script_model host ds uid dir flag now)
      → Traced host ds find uid flag w w' P
  Traced-Same uid dir flag now w v w' P (fresh, others, inl (lost, refused)) same p =
      (fresh, λ k h. same k ∙ others k h, inl (same uid ∙ lost, (dir, now, refused)))
  Traced-Same uid dir flag now w v w' P (fresh, others, inr there) same p =
      (fresh, λ k h. same k ∙ others k h, inr (_, same uid ∙ there, refl, refl, p))

  Traced-Marked :
      (uid dir flag now s x : String) (w v w' : W)
      → Inserted host ds find (script_model host ds uid dir flag now) w v
      → Marked ds find uid s x v w'
      → Traced host ds find uid flag w w' (SettledAs host ds find uid s x w')
  Traced-Marked uid dir flag now s x w v w' inserted (inr (before, y, fails, same)) =
      Traced-Same uid dir flag now w v w' _ inserted same (inr (refl, (before, y, fails)))
  Traced-Marked uid dir flag now s x w v w' (fresh, others, inl (lost, refused)) (inl (t, sets)) = (
    fresh,
    λ k h. sets k ∙ rw h (others k h),
    inl (sets uid ∙ rw (eq_refl uid, lost) refl, (dir, now, refused)),
  )
  Traced-Marked uid dir flag now s x w v w' (fresh, others, inr there) (inl (t, sets)) =
      let now_there : find w' uid
          ≡ some (with_status s x t (script_model host ds uid dir flag now)) =
        sets uid ∙ rw (eq_refl uid, there) refl in
      (fresh, λ k h. sets k ∙ rw h (others k h), inr (_, now_there, refl, refl, inl (refl, refl)))

  Recorded-Ends :
      (uid dir flag now : String) (w v : W) (r : Flow String String × W)
      → Inserted host ds find (script_model host ds uid dir flag now) w v
      → Ends ds find uid v r
      → Recorded host ds find flag w r
  Recorded-Ends uid dir flag now w v (ok a, w') inserted (same, marked) =
      rw same (Traced-Marked uid dir flag now success "" w v w' inserted marked)
  Recorded-Ends uid dir flag now w v (err x, w') inserted marked =
      inr (uid, inl (Traced-Marked uid dir flag now error x w v w' inserted marked))
  Recorded-Ends uid dir flag now w v (panic, w') inserted marked = tt
  Recorded-Ends uid dir flag now w v (no_fuel, w') inserted marked = tt

  pub run_script-Recorded :
      (uid dir flag now timeout path : String) (command : Option (String × List String)) (w v : W)
      → Inserted host ds find (script_model host ds uid dir flag now) w v
      → Recorded host ds find flag w (run_script host ds uid timeout path command v)
  unfolding run_script
  run_script-Recorded uid dir flag now timeout path none w v inserted =
      inr (uid, inr ((path, refl), Traced-Same uid dir flag now w v v _ inserted (λ k. refl) refl))
  run_script-Recorded uid dir flag now timeout path (some (name, args)) w v inserted =
      Recorded-Ends uid dir flag now w v _ inserted
        (run_script_marks host ds find apart law uid timeout path name args v)
