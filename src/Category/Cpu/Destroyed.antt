-- ===== src/Category/Cpu/Destroyed.antt =====
-- A CPU load that is destroyed: its record leads from the command back to the process.
use winchaos.Base.{
  String, false, Option, some, [], ◌∷◌, ◌≡◌, refl, sym, subst, ap, ◌∙◌, ◌==◌, eq_refl, ℤ, ◌≤ℤ◌,
  min_int64, max_int64,
}
use winchaos.Base.Decimal.{itoa}
use winchaos.Base.Decimal.RoundTrip.{atoi-itoa}
use winchaos.Base.Exec.{
  Flow, ok, err, panic, no_fuel, value, outcome, continue, rethrow, or_else-of-ok, ok-injective,
  settle, Outcome, returned, panicked, exhausted,
}
use winchaos.Data.Model.{ExperimentModel, with_status}
use winchaos.Data.Source.{SourceI, IsSource, restamped}
use winchaos.Transport.Response.{
  Response, text, destroyed_experiment_error, return_fail, return_success,
}
use winchaos.Cmdexec.Host.{Host}
use winchaos.Cmdexec.Status.{destroyed}
use winchaos.Cmdexec.Destroy.{
  kill_found, experiment_destroy, destroy_process, undo, mark_destroyed, destroy_found, not_found,
  failed, destroy_experiment,
}
use winchaos.Category.Cpu.{Cpuparams, params_of, cpu_run, created_model}

module _ {W : Type 0} (host : Host W) (ds : SourceI W) where
  experiment_destroy-itoa :
      (pid : ℤ) (w : W)
      → min_int64 ≤ℤ pid
      → pid ≤ℤ max_int64
      → experiment_destroy host ds (itoa pid) w ≡ kill_found host ds (host.find_process pid w)
  unfolding experiment_destroy
  experiment_destroy-itoa pid w low high = rw (atoi-itoa pid low high) refl

  undo-cpu :
      (uid : String) (m : ExperimentModel) (pid : ℤ) (w : W)
      → min_int64 ≤ℤ pid
      → pid ≤ℤ max_int64
      → m.cmd_type ≡ "cpu"
      → host.unmarshal_cpu_pid m.flag ≡ value (some (itoa pid))
      → undo host ds uid m w
        ≡ rethrow (failed host ds) (kill_found host ds (host.find_process pid w))
  unfolding undo destroy_process
  undo-cpu uid m pid w low high kind decoded =
      rw (undo, kind, decoded, destroy_process, experiment_destroy-itoa pid w low high) refl

  continue-destroy_found :
      (uid : String) (m : ExperimentModel) (r : Flow String (Option ExperimentModel) × W)
      → r.0 ≡ ok (some m)
      → (m.status == destroyed) ≡ false
      → continue (rethrow (not_found host ds uid) r) (destroy_found host ds uid)
        ≡ continue (undo host ds uid m r.1) (λ u. mark_destroyed host ds uid)
  unfolding destroy_found
  continue-destroy_found uid m (ok found, w) e alive =
      let same : found ≡ some m = ok-injective e in rw (same, destroy_found, alive) refl
  continue-destroy_found uid m (err x, w) e alive = cc
  continue-destroy_found uid m (panic, w) e alive = cc
  continue-destroy_found uid m (no_fuel, w) e alive = cc

  -- Behind the update that marks the record.
  abbrev pub Answered : Flow String Unit × W → Outcome Response × W → Type 0
  Answered (ok u, w) o = o ≡ (returned return_success, w)
  Answered (err x, w) o = o ≡ (returned return_success, w)
  Answered (panic, w) o = o ≡ (panicked, w)
  Answered (no_fuel, w) o = o ≡ (exhausted, w)

  abbrev pub Updates : String → W → Outcome Response × W → Type 0
  Updates uid w = Answered (ds.update_experiment_model_by_uid uid "Destroyed" "" w)

  -- Behind the kill of the process.
  abbrev pub Killed : String → Flow String Unit × W → Outcome Response × W → Type 0
  Killed uid (ok u, w) o = Updates uid w o
  Killed uid (err x, w) o = o ≡ (returned (return_fail destroyed_experiment_error (text x ∷ [])), w)
  Killed uid (panic, w) o = o ≡ (panicked, w)
  Killed uid (no_fuel, w) o = o ≡ (exhausted, w)

  -- Behind the search of the process.
  abbrev pub Ends : String → Flow String ℤ × W → Outcome Response × W → Type 0
  Ends uid (ok handle, w) o = Killed uid (host.kill handle w) o
  Ends uid (err x, w) o = Updates uid w o
  Ends uid (panic, w) o = o ≡ (panicked, w)
  Ends uid (no_fuel, w) o = o ≡ (exhausted, w)

  settle-Answered :
      (r : Flow String Unit × W)
      → Answered r
          (outcome (continue {E = Response} (settle (λ x. tt) r) (λ _ v. (ok return_success, v))))
  settle-Answered (ok u, w) = refl
  settle-Answered (err x, w) = refl
  settle-Answered (panic, w) = refl
  settle-Answered (no_fuel, w) = refl

  mark_destroyed-Updates :
      (uid : String) (w : W) → Updates uid w (outcome (mark_destroyed host ds uid w))
  unfolding mark_destroyed
  mark_destroyed-Updates uid w =
      settle-Answered (ds.update_experiment_model_by_uid uid "Destroyed" "" w)

  kill-Killed :
      (uid : String) (r : Flow String Unit × W)
      → Killed uid r
          (outcome (continue (rethrow (failed host ds) r) (λ u. mark_destroyed host ds uid)))
  kill-Killed uid (ok u, w) = mark_destroyed-Updates uid w
  kill-Killed uid (err x, w) = refl
  kill-Killed uid (panic, w) = refl
  kill-Killed uid (no_fuel, w) = refl

  found-Ends :
      (uid : String) (r : Flow String ℤ × W)
      → Ends uid r (
          outcome (
            continue
              (rethrow (failed host ds) (kill_found host ds r))
              (λ u. mark_destroyed host ds uid)))
  unfolding kill_found
  found-Ends uid (ok handle, w) = kill-Killed uid (host.kill handle w)
  found-Ends uid (err x, w) = mark_destroyed-Updates uid w
  found-Ends uid (panic, w) = refl
  found-Ends uid (no_fuel, w) = refl

-- A CPU load whose record was inserted when it ran, and has since been marked with a status, but
-- not as destroyed: the command that destroys it looks for the process with the id of the one that
-- ran it. If it is found, it is killed, and the record is marked as destroyed with no error text;
-- an error of the kill is answered with a failure, and nothing else is done. If it is not found,
-- the record is marked all the same. The answer is a success where the update comes back, with an
-- error or none. JSON decodes the process id that it has encoded, which is an int of 64 bits.
pub destroy_experiment-cpu_run :
    {W : Type 0} (host : Host W) (ds : SourceI W) (find : W → String → Option ExperimentModel)
    → IsSource ds find
    → (marshal : Cpuparams → String)
    → ((p : Cpuparams) → host.unmarshal_cpu_pid (marshal p) ≡ value (some p.pid))
    → (pid count percent : ℤ) (uid : String) (w : W) → min_int64 ≤ℤ pid
    → pid ≤ℤ max_int64
    → ((ds.insert_experiment_model
          (created_model uid (marshal (params_of pid count percent uid)) (host.now w))
          w).0
        ≡ ok tt)
    → (v : W) (s x t : String) {found : Option ExperimentModel}
    → find v uid ≡ restamped s x t (find (cpu_run host ds marshal pid count percent uid w).1 uid)
    → (s == destroyed) ≡ false
    → (ds.query_experiment_model_by_uid uid v).0 ≡ ok found
    → Ends host ds uid
        (host.find_process pid (ds.query_experiment_model_by_uid uid v).1)
        (destroy_experiment host ds uid v)
unfolding destroy_experiment cpu_run
destroy_experiment-cpu_run host ds find law marshal decodes pid count percent uid w low high
      inserted v s x t {found} now alive answered =
    let m = created_model uid (marshal (params_of pid count percent uid)) (host.now w) in
    let m' = with_status s x t m in
    let r = ds.query_experiment_model_by_uid uid v in
    let there : find (cpu_run host ds marshal pid count percent uid w).1 uid ≡ some m =
      ap (λ r. find r.1 uid)
        (or_else-of-ok {E' = String} (λ _. tt) (ds.insert_experiment_model m) w inserted)
      ∙ law.insert_adds m uid w inserted
      ∙ rw (eq_refl uid) refl in
    let there' : find v uid ≡ some m' = now ∙ ap (restamped s x t) there in
    let answer : r.0 ≡ ok (some m') = answered ∙ ap ok (law.query_finds uid v answered ∙ there') in
    subst (Ends host ds uid (host.find_process pid r.1))
      (sym (
        ap outcome (
          continue-destroy_found host ds uid m' r answer alive
          ∙ ap (λ r. continue r (λ u. mark_destroyed host ds uid))
              (undo-cpu host ds uid m' pid r.1 low high refl
                (decodes (params_of pid count percent uid))))))
      (found-Ends host ds uid (host.find_process pid r.1))
