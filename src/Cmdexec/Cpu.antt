-- ===== src/Cmdexec/Cpu.antt =====
-- web/cmdexec/cpu.go: the start of a CPU experiment.
pub mod Framed
pub mod Start
use winchaos.Base.{
  ℕ, String, Bool, true, false, not, ◌&&◌, ◌||◌, List, [], ◌∷◌, Option, none, some, ◌==◌,
  if◌then◌else◌, ℤ, pos, negsuc, ltb_ℤ, is_zero,
}
use winchaos.Base.Decimal.{itoa}
use winchaos.Base.Exec.{
  Flow, ok, err, panic, no_fuel, Exec, Outcome, pure, throw, on_err, run, ◌>>=◌, ◌>>◌,
}
use winchaos.Data.Source.{SourceI}
use winchaos.Transport.Value.{str}
use winchaos.Transport.Response.{
  Response, text, int, nil_cpuparam, parameter_type_error, return_fail, return_success_with_result,
}
use winchaos.Cmdexec.Host.{Host}
use winchaos.Cmdexec.Uid.{generate_uid}

pub record Cpuparam : Type 0 where
  pub cmt : String
  pub cpu_count : ℤ
  pub cpu_percent : ℤ
  pub timeout : ℤ
  pub pid : String

-- `timeout` of an experiment that names none.
abbrev pub timeout_or_60 : ℤ → ℤ
timeout_or_60 t = if is_zero t then pos 60 else t

-- `percent != 0 && (percent > 100 || percent < 0)`
abbrev pub is_bad_percent : ℤ → Bool
is_bad_percent p = not (is_zero p) && (ltb_ℤ (pos 100) p || ltb_ℤ p (pos 0))

abbrev pub percent_or_100 : ℤ → ℤ
percent_or_100 p = if is_zero p then pos 100 else p

-- A count that is not in the machine's range stands for all of its processors.
abbrev pub count_or_all : ℤ → ℤ → ℤ
count_or_all all n = if not (ltb_ℤ (pos 0) n) || ltb_ℤ all n then all else n

module _ {W : Type 0} (host : Host W) where
  -- What follows the draw of a uid: the goroutine, and the answer.
  start_drawn : ℤ → ℤ → ℤ → Flow String String × W → Flow Response Response × W
  start_drawn count percent timeout (ok uid, w) = (
    ok (return_success_with_result (str uid)),
    host.go_os_exe (itoa count ∷ itoa percent ∷ uid ∷ "cpu" ∷ itoa timeout ∷ []) w,
  )
  start_drawn count percent timeout (err x, w) =
      (err (return_fail parameter_type_error (text x ∷ [])), w)
  start_drawn count percent timeout (panic, w) = (panic, w)
  start_drawn count percent timeout (no_fuel, w) = (no_fuel, w)

module _ {W : Type 0} (host : Host W) (ds : SourceI W) where
  -- The full load, behind the checks of its parameters.
  start_cpu : ℕ → ℤ → ℤ → ℤ → Exec W Response Response
  unfolding start_drawn
  start_cpu fuel count percent timeout w =
      start_drawn host count percent timeout (generate_uid host ds fuel w)

  resolve_cpu : ℕ → Cpuparam → Exec W Response Response
  unfolding start_cpu
  resolve_cpu fuel p =
      if not (p.cmt == "fullload")
      then throw (return_fail parameter_type_error [])
      else if is_bad_percent p.cpu_percent
      then throw (return_fail parameter_type_error (int p.cpu_percent ∷ []))
      else start_cpu fuel (count_or_all host.num_cpu p.cpu_count) (percent_or_100 p.cpu_percent)
          (timeout_or_60 p.timeout)

  unfoldable pub cpu_resolver : ℕ → Option Cpuparam → W → Outcome Response × W
  unfolding resolve_cpu
  cpu_resolver fuel none = run (throw (return_fail parameter_type_error (nil_cpuparam ∷ [])))
  cpu_resolver fuel (some p) = run (resolve_cpu fuel p)
