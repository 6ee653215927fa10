-- ===== src/Web/Dispatch/Framed.antt =====
-- What a command may do to the table of experiments.
use winchaos.Base.{
  ℕ, String, List, Option, none, some, refl, ◌==◌, Bool-cases, Option-cases, inl, inr, split,
}
use winchaos.Base.Dict.{Dict, get}
use winchaos.Data.Model.{ExperimentModel}
use winchaos.Data.Source.{SourceI, IsSource}
use winchaos.Transport.Request.{Request}
use winchaos.Cmdexec.Host.{Host, IsApart}
use winchaos.Cmdexec.Frame.{Outcomes}
use winchaos.Cmdexec.Cpu.Framed.{cpu_resolver-Outcomes}
use winchaos.Cmdexec.Mem.Framed.{mem_resolver-Outcomes}
use winchaos.Cmdexec.Script.Framed.{script-Outcomes}
use winchaos.Cmdexec.Destroy.Framed.{destroy_experiment-Outcomes}
use winchaos.Cmdexec.Status.Framed.{search_experiments-Outcomes}
use winchaos.Web.Dispatch.{
  Kind, cpu, mem, script_kind, destroy, status, other, kind_of, command_parts, second?,
  timeout_error, or_empty, run_timed, handle_cpu, handle_mem, handle_script, handle_destroy,
  handle_status, handle_kind, handle,
}

module _ {W : Type 0} (host : Host W) (ds : SourceI W) (duration_error : String → Option String)
    (find : W → String → Option ExperimentModel) (apart : IsApart host find)
    (law : IsSource ds find) where
  handle_cpu-Outcomes :
      (fuel : ℕ) (params : Dict String) (vals : List String) (w : W)
      → Outcomes find w (handle_cpu host ds duration_error fuel params vals w)
  unfolding handle_cpu
  handle_cpu-Outcomes fuel params vals w = elim (Option-cases (second? vals)) [
    | inl bare ↦ rw (handle_cpu, bare) (inl (λ k. refl))
    | inr (v1, named) ↦
        rw (handle_cpu, named) (cpu_resolver-Outcomes host ds find apart law fuel _ w)
  ]

  handle_mem-Outcomes :
      (fuel : ℕ) (params : Dict String) (vals : List String) (w : W)
      → Outcomes find w (handle_mem host ds duration_error fuel params vals w)
  unfolding handle_mem
  handle_mem-Outcomes fuel params vals w = elim (Option-cases (second? vals)) [
    | inl bare ↦ rw (handle_mem, bare) tt
    | inr (v1, named) ↦
        rw (handle_mem, named) (mem_resolver-Outcomes host ds find apart law fuel _ w)
  ]

  run_timed-Outcomes :
      (fuel : ℕ) (sub url : String) (args : List String) (timeout recover : String)
      (error : Option String) (w : W)
      → Outcomes find w (run_timed host ds duration_error fuel sub url args timeout recover error w)
  run_timed-Outcomes fuel sub url args timeout recover (some x) w = inl (λ k. refl)
  run_timed-Outcomes fuel sub url args timeout recover none w =
      script-Outcomes host ds find apart law fuel sub url args timeout recover w

  handle_script-Outcomes :
      (fuel : ℕ) (params : Dict String) (vals : List String) (w : W)
      → Outcomes find w (handle_script host ds duration_error fuel params vals w)
  unfolding handle_script
  handle_script-Outcomes fuel params vals w = elim (Bool-cases (get "downloadUrl" params == "")) [
    | inl nowhere ↦ rw (handle_script, nowhere) (inl (λ k. refl))
    | inr url ↦
        rw (handle_script, url)
          (run_timed-Outcomes fuel (or_empty (second? vals)) (get "downloadUrl" params) _
            (get "timeout" params) (get "recover" params) (timeout_error duration_error _) w)
  ]

  handle_destroy-Outcomes :
      (params : Dict String) (w : W)
      → Outcomes find w (handle_destroy host ds duration_error params w)
  unfolding handle_destroy
  handle_destroy-Outcomes params w = elim (Option-cases (second? (split b' ' (get "cmd" params)))) [
    | inl bare ↦ rw (handle_destroy, bare) tt
    | inr (uid, named) ↦
        rw (handle_destroy, named) (destroy_experiment-Outcomes host ds find apart law uid w)
  ]

  handle_kind-Outcomes :
      (fuel : ℕ) (params : Dict String) (vals : List String) (kind : Kind) (w : W)
      → Outcomes find w (handle_kind host ds duration_error fuel params vals kind w)
  unfolding handle_kind handle_status
  handle_kind-Outcomes fuel params vals cpu w = handle_cpu-Outcomes fuel params vals w
  handle_kind-Outcomes fuel params vals mem w = handle_mem-Outcomes fuel params vals w
  handle_kind-Outcomes fuel params vals script_kind w = handle_script-Outcomes fuel params vals w
  handle_kind-Outcomes fuel params vals destroy w = handle_destroy-Outcomes params w
  handle_kind-Outcomes fuel params vals status w = search_experiments-Outcomes ds find law _ w
  handle_kind-Outcomes fuel params vals (other name) w = inl (λ k. refl)

  handle-Outcomes :
      (fuel : ℕ) (request : Request) (w : W)
      → Outcomes find w (handle host ds duration_error fuel request w)
  unfolding handle
  handle-Outcomes fuel request w =
      let (vals, name) = command_parts request.params in
      elim (Bool-cases (get "cmd" request.params == "")) [
        | inl empty ↦ rw (handle, empty) (inl (λ k. refl))
        | inr some_cmd ↦ elim (Bool-cases (name == "")) [
          | inl unnamed ↦ rw (handle, some_cmd, unnamed) (inl (λ k. refl))
          | inr named ↦
              rw (handle, some_cmd, named)
                (handle_kind-Outcomes fuel request.params vals (kind_of name) w)
        ]
      ]

-- A command of the server, of whatever kind, once it is answered: no record of an experiment has
-- changed, or the one of a single uid. That uid had no record and now has one with the status
-- `Created`, `Success` or `Error`; or its record is as it was, but for the status `Destroyed`, an
-- empty error text and the time of the update.
pub handle_changes_one :
    {W : Type 0} (host : Host W) (ds : SourceI W) (duration_error : String → Option String)
    (find : W → String → Option ExperimentModel)
    → IsApart host find
    → IsSource ds find
    → (fuel : ℕ) (request : Request) (w : W)
    → Outcomes find w (handle host ds duration_error fuel request w)
handle_changes_one host ds duration_error find apart law fuel request w =
    handle-Outcomes host ds duration_error find apart law fuel request w
