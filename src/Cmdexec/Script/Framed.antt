-- ===== src/Cmdexec/Script/Framed.antt =====
-- A script adds at most one record.
use winchaos.Base.{
  ℕ, String, false, List, Option, ◌≡◌, refl, sym, ◌∙◌, ◌==◌, Bool-cases, inl, inr, join, eq_iff,
}
use winchaos.Base.Exec.{Flow, ok, err, panic, no_fuel}
use winchaos.Data.Model.{ExperimentModel}
use winchaos.Data.Source.{SourceI, IsSource}
use winchaos.Cmdexec.Host.{Host, IsApart}
use winchaos.Cmdexec.Frame.{
  Changes, IsRun, Effects, Outcomes, outcome-Effects, pure-Effects, rethrow-Effects,
}
use winchaos.Cmdexec.Status.{success, error}
use winchaos.Cmdexec.Script.{script, exec_script}
use winchaos.Cmdexec.Script.Recorded.{Traced, SettledAs, Recorded}
use winchaos.Cmdexec.Script.Whole.{exec_script_records}

module _ {W : Type 0} (host : Host W) (ds : SourceI W) (find : W → String → Option ExperimentModel)
    (apart : IsApart host find) (law : IsSource ds find) where
  same_at :
      (uid k : String) (w w' : W)
      → find w' uid ≡ find w uid
      → ((k : String) → (uid == k) ≡ false → find w' k ≡ find w k)
      → find w' k ≡ find w k
  same_at uid k w w' here others = elim (Bool-cases (uid == k)) [
    | inl same ↦ (let e : uid ≡ k = (eq_iff uid k).0 same in rw (← e) here)
    | inr other ↦ others k other
  ]

  Traced-Changes :
      (uid flag : String) (w w' : W) (P : ExperimentModel → Type 0)
      → ((m : ExperimentModel) → P m → IsRun find m.status)
      → Traced host ds find uid flag w w' P
      → Changes find w w'
  Traced-Changes uid flag w w' P runs (fresh, others, inl (lost, refused)) =
      inl (λ k. same_at uid k w w' (lost ∙ sym fresh) others)
  Traced-Changes uid flag w w' P runs (fresh, others, inr (m, there, kind, args, p)) =
      inr (uid, others, inl (fresh, (m, there, runs m p)))

  settled-IsRun :
      (uid s x : String) (w' : W) (m : ExperimentModel)
      → IsRun find s
      → SettledAs host ds find uid s x w' m
      → IsRun find m.status
  settled-IsRun uid s x w' m run (inl (same, _)) = rw same run
  settled-IsRun uid s x w' m run (inr (start, _)) = inl start

  Recorded-Effects :
      (flag : String) (w : W) (r : Flow String String × W)
      → Recorded host ds find flag w r
      → Effects find w r
  Recorded-Effects flag w (ok uid, w') traced =
      Traced-Changes uid flag w w' _ (λ m. settled-IsRun uid success "" w' m (inr (inl refl)))
        traced
  Recorded-Effects flag w (err x, w') (inl same) = inl same
  Recorded-Effects flag w (err x, w') (inr (uid, inl traced)) =
      Traced-Changes uid flag w w' _ (λ m. settled-IsRun uid error x w' m (inr (inr refl))) traced
  Recorded-Effects flag w (err x, w') (inr (uid, inr (_, traced))) =
      Traced-Changes uid flag w w' _ (λ m start. inl start) traced
  Recorded-Effects flag w (panic, w') h = tt
  Recorded-Effects flag w (no_fuel, w') h = tt

  pub script-Outcomes :
      (fuel : ℕ) (sub_cmd url : String) (args : List String) (timeout recover : String) (w : W)
      → Outcomes find w (script host ds fuel sub_cmd url args timeout recover w)
  unfolding script
  script-Outcomes fuel sub_cmd url args timeout recover w =
      elim (Bool-cases (sub_cmd == "execute")) [
        | inr other ↦ rw (script, other) (inl (λ k. refl))
        | inl execute ↦
            rw (script, execute)
              (outcome-Effects find w _ (
                pure-Effects find _ w _ (
                  rethrow-Effects find _ w _ (
                    Recorded-Effects (join "," args) w
                      (exec_script host ds fuel url args timeout recover w)
                      (exec_script_records host ds find apart law fuel url timeout recover args
                        w)))))
      ]
