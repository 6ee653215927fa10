-- ===== src/Cmdexec/Mem.antt =====
-- web/cmdexec/mem.go: the start of a memory experiment.
pub mod Framed
pub mod Load
use winchaos.Base.{ℕ, String, not, [], ◌∷◌, ◌==◌, if◌then◌else◌, ℤ}
use winchaos.Base.Decimal.{itoa}
use winchaos.Base.Exec.{Flow, ok, err, panic, no_fuel, Exec, Outcome, throw, run}
use winchaos.Data.Source.{SourceI}
use winchaos.Transport.Value.{str}
use winchaos.Transport.Response.{
  Response, text, int, parameter_type_error, return_fail, return_success_with_result,
}
use winchaos.Cmdexec.Host.{Host}
use winchaos.Cmdexec.Uid.{generate_uid}
use winchaos.Cmdexec.Cpu.{timeout_or_60, is_bad_percent, percent_or_100}

pub record MemParam : Type 0 where
  pub cmt : String
  pub mode : String
  pub mem_percent : ℤ
  pub timeout : ℤ
  pub pid : String

module _ {W : Type 0} (host : Host W) where
  -- What follows the draw of a uid: the goroutine, and the answer.
  start_drawn : String → ℤ → ℤ → Flow String String × W → Flow Response Response × W
  start_drawn mode percent timeout (ok uid, w) = (
    ok (return_success_with_result (str uid)),
    host.go_os_exe (mode ∷ itoa percent ∷ uid ∷ "mem" ∷ itoa timeout ∷ []) w,
  )
  start_drawn mode percent timeout (err x, w) =
      (err (return_fail parameter_type_error (text x ∷ [])), w)
  start_drawn mode percent timeout (panic, w) = (panic, w)
  start_drawn mode percent timeout (no_fuel, w) = (no_fuel, w)

module _ {W : Type 0} (host : Host W) (ds : SourceI W) where
  start_mem : ℕ → String → ℤ → ℤ → Exec W Response Response
  unfolding start_drawn
  start_mem fuel mode percent timeout w =
      start_drawn host mode percent timeout (generate_uid host ds fuel w)

  -- The handler never passes a nil parameter.
  unfoldable pub mem_resolver : ℕ → MemParam → W → Outcome Response × W
  unfolding start_mem
  mem_resolver fuel p = run (
      if not (p.cmt == "load")
      then throw (return_fail parameter_type_error [])
      else if is_bad_percent p.mem_percent
      then throw (return_fail parameter_type_error (int p.mem_percent ∷ []))
      else start_mem fuel (if p.mode == "" then "ram" else p.mode) (percent_or_100 p.mem_percent)
          (timeout_or_60 p.timeout))
