-- ===== src/Cmdexec/Destroy.antt =====
-- web/cmdexec/destroy.go: the end of an experiment.
pub mod Framed
pub mod Keeps
pub mod Marking
pub mod Effects
use winchaos.Base.{
  String, Bool, true, false, not, List, [], ◌∷◌, Option, none, some, ◌==◌, if◌then◌else◌, ℤ,
}
use winchaos.Base.Decimal.{atoi}
use winchaos.Base.Exec.{
  Flow, ok, err, panic, no_fuel, Result, value, failure, Exec, Outcome, pure, throw, crash, on_err,
  or_else, outcome, run, ◌>>=◌, ◌>>◌,
}
use winchaos.Data.Model.{ExperimentModel}
use winchaos.Data.Source.{SourceI}
use winchaos.Transport.Value.{str}
use winchaos.Transport.Response.{
  Response, text, destroyed_experiment_not_found, destroyed_experiment_error, return_fail,
  return_success, return_success_with_result,
}
use winchaos.Cmdexec.Host.{Host}
use winchaos.Cmdexec.Status.{destroyed}

module _ {W : Type 0} (host : Host W) (ds : SourceI W) where
  -- A process that is not found is taken to be gone; one that cannot be killed is an error.
  unfoldable pub kill_found : Flow String ℤ × W → Flow String Unit × W
  kill_found (ok handle, w) = host.kill handle w
  kill_found (err x, w) = (ok tt, w)
  kill_found (panic, w) = (panic, w)
  kill_found (no_fuel, w) = (no_fuel, w)

  unfoldable pub experiment_destroy : String → Exec W String Unit
  unfolding kill_found
  experiment_destroy pidstr w =
      let (pid, wrong) = atoi pidstr in
      if wrong then (err (host.atoi_error pidstr), w) else kill_found (host.find_process pid w)

  abbrev pub not_found : String → String → Response
  not_found uid x = return_fail destroyed_experiment_not_found (text uid ∷ text x ∷ [])

  abbrev pub failed : String → Response
  failed x = return_fail destroyed_experiment_error (text x ∷ [])

  -- The process of a CPU or memory experiment; the parameter decoded from `null` is a nil pointer.
  unfoldable pub destroy_process : String → Result (Option String) → Exec W Response Unit
  unfolding experiment_destroy
  destroy_process uid (failure x) = throw (not_found uid x)
  destroy_process uid (value none) = crash
  destroy_process uid (value (some pid)) = on_err failed (experiment_destroy pid)

  -- What the type of the experiment asks for; another type asks for nothing.
  unfoldable pub undo : String → ExperimentModel → Exec W Response Unit
  unfolding destroy_process
  undo uid m =
      if m.cmd_type == "cpu"
      then destroy_process uid (host.unmarshal_cpu_pid m.flag)
      else if m.cmd_type == "mem"
      then destroy_process uid (host.unmarshal_mem_pid m.flag)
      else if m.cmd_type == "script"
      then on_err failed (host.remove_all m.sub_command)
      else pure tt

  -- An update that fails is logged; the answer is a success all the same.
  unfoldable pub mark_destroyed : String → Exec W Response Response
  mark_destroyed uid = do
    or_else (λ x. tt) (ds.update_experiment_model_by_uid uid destroyed "")
    pure return_success

  -- `err.Error()` of a look-up that found nothing is a call on a nil error.
  unfoldable pub destroy_found : String → Option ExperimentModel → Exec W Response Response
  unfolding undo mark_destroyed
  destroy_found uid none = crash
  destroy_found uid (some m) =
      if m.status == destroyed
      then pure (return_success_with_result (str "Experiment already destroyed"))
      else do undo uid m; mark_destroyed uid

  unfoldable pub destroy_experiment : String → W → Outcome Response × W
  unfolding destroy_found
  destroy_experiment uid = run do
    found ← on_err (not_found uid) (ds.query_experiment_model_by_uid uid)
    destroy_found uid found
