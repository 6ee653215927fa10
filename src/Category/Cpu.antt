-- ===== src/Category/Cpu.antt =====
-- web/category/cpu_main.go: the record of a CPU experiment, and the loop that keeps a processor
-- busy.
pub mod Quota
pub mod Feed
pub mod Destroyed
use winchaos.Base.{ℕ, String, List, [], ◌∷◌, ◌+◌, ltb, if◌then◌else◌, ℤ, pos, ltb_ℤ}
use winchaos.Base.Decimal.{itoa}
use winchaos.Base.Int64.{◌+64◌, ◌-64◌}
use winchaos.Base.Exec.{ok, Exec, or_else}
use winchaos.Data.Model.{ExperimentModel}
use winchaos.Data.Source.{SourceI}
use winchaos.Cmdexec.Host.{Host}
use winchaos.Category.Memory.Run.{succeed}

pub record Cpuparams : Type 0 where
  pub cmt : String
  pub cpu_count : ℤ
  pub cpu_percent : ℤ
  pub timeout : ℤ
  pub pid : String
  pub uid : String

-- The parameters, as the record keeps them.
abbrev pub params_of : ℤ → ℤ → ℤ → String → Cpuparams
params_of pid count percent uid = record {
  cmt = "";
  cpu_count = count;
  cpu_percent = percent;
  timeout = pos 0;
  pid = itoa pid;
  uid = uid;
}

abbrev pub created_model : String → String → String → ExperimentModel
created_model uid flag now = record {
  uid = uid;
  command = "create cpu fullload";
  cmd_type = "cpu";
  sub_command = "";
  flag = flag;
  status = "Created";
  error = "";
  create_time = now;
  update_time = now;
}

-- `time.Second`, in nanoseconds.
abbrev pub period : ℤ
period = pos 1000000000

abbrev pub at_least_0 : ℤ → ℤ
at_least_0 z = if ltb_ℤ z (pos 0) then pos 0 else z

-- `ds`: what a quota leaves of a period.
unfoldable pub sleep_of : ℤ → ℤ
sleep_of q = at_least_0 (period -64 q)

-- What one turn of the loop meets: a quota in the channel, the end of the context, or neither, with
-- the seconds of the clock at the start of the turn and at the end of its pass.
pub data Turn : Type 0 where
  quota : ℤ → Turn
  done : Turn
  pass : ℕ → ℕ → Turn

-- The loop goes on with its busy time and the sleep that it began with, or has returned, or has
-- ended the process.
pub data Burning : Type 0 where
  busy : ℤ → ℤ → Burning
  gave_up exited : Burning

module _ {W : Type 0} (host : Host W) (ds : SourceI W) where
  unfoldable pub turn : String → Turn → ℤ → ℤ → W → Burning × W
  turn uid (quota offset) q s w = (busy (at_least_0 (q +64 offset)) s, w)
  turn uid done q s w = (exited, (succeed host ds uid w).1)
  turn uid (pass before after) q s w = (if ltb (before + 5) after then gave_up else busy q s, w)

  unfoldable pub go_on : (ℤ → ℤ → W → Burning × W) → Burning × W → Burning × W
  go_on rest (busy q s, w) = rest q s w
  go_on rest (gave_up, w) = (gave_up, w)
  go_on rest (exited, w) = (exited, w)

  unfoldable pub turns : String → List Turn → ℤ → ℤ → W → Burning × W
  turns uid [] q s w = (busy q s, w)
  turns uid (t ∷ ts) q s w = go_on (turns uid ts) (turn uid t q s w)

  -- `q` is the quota of the start.
  unfoldable pub burn : String → List Turn → ℤ → W → Burning × W
  burn uid ts q = turns uid ts q (sleep_of q)

  -- `marshal` and `pid` are `json.Marshal`, with its error dropped, and `os.Getpid()`.
  unfoldable pub cpu_run : (Cpuparams → String) → ℤ → ℤ → ℤ → String → Exec W String Unit
  cpu_run marshal pid count percent uid w =
      let flag = marshal (params_of pid count percent uid) in
      or_else (λ _. tt) (ds.insert_experiment_model (created_model uid flag (host.now w))) w
