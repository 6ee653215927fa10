-- ===== src/Cmdexec/Destroy/Keeps.antt =====
-- The end of an experiment leaves the records alone, but for the update.
use winchaos.Base.{String, Option, none, some, ◌≡◌, refl, ◌∙◌, ◌==◌, Bool-cases, inl, inr, ℤ, arith}
use winchaos.Base.Exec.{Flow, ok, err, panic, no_fuel, Result, value, failure, rethrow}
use winchaos.Data.Model.{ExperimentModel}
use winchaos.Data.Source.{SourceI}
use winchaos.Base.Decimal.{atoi}
use winchaos.Cmdexec.Host.{Host, IsApart}
use winchaos.Cmdexec.Destroy.{kill_found, experiment_destroy, destroy_process, undo}

module _ {W : Type 0} (host : Host W) (ds : SourceI W) (find : W → String → Option ExperimentModel)
    (apart : IsApart host find) where
  kill_found_keeps :
      (r : Flow String ℤ × W) (k : String) → find (kill_found host ds r).1 k ≡ find r.1 k
  unfolding kill_found
  kill_found_keeps (ok pid, w) k = apart.kill_keeps pid w k
  kill_found_keeps (err x, w) k = refl
  kill_found_keeps (panic, w) k = refl
  kill_found_keeps (no_fuel, w) k = refl

  experiment_destroy_keeps :
      (pid : String) (w : W) (k : String) → find (experiment_destroy host ds pid w).1 k ≡ find w k
  unfolding experiment_destroy
  experiment_destroy_keeps pid w k = ground (
    arith,
    kill_found_keeps (host.find_process (atoi pid).0 w) k,
    apart.find_keeps (atoi pid).0 w k,
  )

  rethrow_keeps :
      {E A : Type 0} (f : String → E) (r : Flow String A × W) (k : String)
      → find (rethrow f r).1 k ≡ find r.1 k
  rethrow_keeps f (ok a, w) k = refl
  rethrow_keeps f (err x, w) k = refl
  rethrow_keeps f (panic, w) k = refl
  rethrow_keeps f (no_fuel, w) k = refl

  destroy_process_keeps :
      (uid : String) (p : Result (Option String)) (w : W) (k : String)
      → find (destroy_process host ds uid p w).1 k ≡ find w k
  unfolding destroy_process
  destroy_process_keeps uid (failure x) w k = refl
  destroy_process_keeps uid (value none) w k = refl
  destroy_process_keeps uid (value (some pid)) w k =
      rethrow_keeps _ (experiment_destroy host ds pid w) k ∙ experiment_destroy_keeps pid w k

  pub undo_keeps :
      (uid : String) (m : ExperimentModel) (w : W) (k : String)
      → find (undo host ds uid m w).1 k ≡ find w k
  unfolding undo
  undo_keeps uid m w k = elim (Bool-cases (m.cmd_type == "cpu")) [
    | inl cpu ↦ rw cpu (destroy_process_keeps uid (host.unmarshal_cpu_pid m.flag) w k)
    | inr no_cpu ↦ elim (Bool-cases (m.cmd_type == "mem")) [
      | inl mem ↦ rw (no_cpu, mem) (destroy_process_keeps uid (host.unmarshal_mem_pid m.flag) w k)
      | inr no_mem ↦ elim (Bool-cases (m.cmd_type == "script")) [
        | inl script ↦
            rw (no_cpu, no_mem, script)
              (rethrow_keeps _ (host.remove_all m.sub_command w) k
                ∙ apart.remove_keeps m.sub_command w k)
        | inr unknown ↦ rw (no_cpu, no_mem, unknown) refl
      ]
    ]
  ]
