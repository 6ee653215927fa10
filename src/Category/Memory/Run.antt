-- ===== src/Category/Memory/Run.antt =====
-- web/category/mem_main.go: a run of the program that loads the memory, from its record to its end.
use winchaos.Base.{ℕ, String, Bool, true, false, ℤ, pos}
use winchaos.Base.Decimal.{itoa}
use winchaos.Base.Exec.{Result, value, failure, ok, Exec, or_else, pure, ◌>>=◌}
use winchaos.Data.Model.{ExperimentModel}
use winchaos.Data.Source.{SourceI}
use winchaos.Cmdexec.Host.{Host}
use winchaos.Category.Memory.{Machine, ticks, rate_or_100, empty_cache}

pub record MemParams : Type 0 where
  pub mode : String
  pub mem_percent : ℤ
  pub timeout : ℤ
  pub pid : String
  pub uid : String

-- `os.Getpid()`, and `json.Marshal` of the parameters.
pub record Process : Type 0 where
  pub getpid : ℤ
  pub marshal : MemParams → Result String

abbrev pub created_model : String → String → String → ExperimentModel
created_model uid flag now = record {
  uid = uid;
  command = "create mem load";
  cmd_type = "mem";
  sub_command = "";
  flag = flag;
  status = "Created";
  error = "";
  create_time = now;
  update_time = now;
}

module _ {W : Type 0} (host : Host W) (ds : SourceI W) where
  -- The update whose error is logged.
  unfoldable pub succeed : String → Exec W String Unit
  succeed uid = or_else (λ _. tt) (ds.update_experiment_model_by_uid uid "Success" "")

  module _ (machine : Machine W) where
    -- `n` is the number of ticks before the context is done; the process exits behind the update.
    unfoldable pub starts : ℕ → ℤ → ℤ → ℤ → String → String → Exec W String Unit
    starts n percent reserve mem_rate mode uid = do
      _ ← ticks machine n mode percent reserve (rate_or_100 mem_rate) empty_cache
      succeed uid

  module _ (process : Process) where
    -- The function of `time.AfterFunc`: whether it ends the process. Errors of its calls are
    -- logged.
    unfoldable pub on_timer : String → Exec W String Bool
    on_timer uid =
        or_else (λ _. false)
          (do
            handle ← host.find_process process.getpid
            _ ← succeed uid
            _ ← host.kill handle
            pure true)

    module _ (machine : Machine W) where
      unfoldable pub create_and_fill : ℕ → ℤ → String → String → Result String → Exec W String Bool
      create_and_fill n percent mode uid (failure x) w = (ok true, w)
      create_and_fill n percent mode uid (value flag) w =
          (do
            _ ← or_else (λ _. tt) (ds.insert_experiment_model (created_model uid flag (host.now w)))
            _ ← ticks machine n mode percent (pos 0) (rate_or_100 (pos 0)) empty_cache
            on_timer uid)
            w

      -- The first `n` seconds, at the end of which the timer fires: whether the process is over.
      -- The context that the loop is handed is that of `tools.Go`, which is never done. A value
      -- that cannot be marshalled ends the program before it begins.
      unfoldable pub mem_run : ℕ → ℤ → String → String → Exec W String Bool
      mem_run n percent mode uid = create_and_fill n percent mode uid (
          process.marshal (record {
            mode = mode;
            mem_percent = percent;
            timeout = pos 0;
            pid = itoa process.getpid;
            uid = uid;
          }))
