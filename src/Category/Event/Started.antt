-- ===== src/Category/Event/Started.antt =====
-- web/cmdexec and web/category/event/cmd.go: what the handlers start is what the program runs.
use winchaos.Base.{
  ℕ, String, true, List, [], ◌∷◌, ◌==◌, eq_iff, if◌then◌else◌, arith, Option, some, ◌≡◌, refl, ℤ,
  pos, ◌≤ℤ◌, min_int64, max_int64, ap,
}
use winchaos.Base.Exec.{returned}
use winchaos.Base.Decimal.{itoa, atoi}
use winchaos.Base.Decimal.RoundTrip.{atoi-itoa}
use winchaos.Data.Model.{ExperimentModel}
use winchaos.Data.Source.{SourceI, IsSource}
use winchaos.Transport.Value.{str}
use winchaos.Transport.Response.{Response, return_success_with_result}
use winchaos.Cmdexec.Host.{Host, IsApart}
use winchaos.Cmdexec.Cpu.{Cpuparam, cpu_resolver, timeout_or_60}
use winchaos.Cmdexec.Cpu.Start.{cpu_resolver_starts}
use winchaos.Cmdexec.Mem.{MemParam, mem_resolver}
use winchaos.Cmdexec.Mem.Load.{mem_resolver_starts}
use winchaos.Category.Event.{run_cpu, run_mem, main}

-- An int of 64 bits.
abbrev pub IsInt : ℤ → Type 0
IsInt z = (min_int64 ≤ℤ z) × (z ≤ℤ max_int64)

read_back : (z : ℤ) → IsInt z → (atoi (itoa z)).0 ≡ z
read_back z (low, high) = ap (λ r. r.0) (atoi-itoa z low high)

main-cpu :
    (count percent timeout : ℤ) (uid : String)
    → IsInt count
    → IsInt percent
    → IsInt timeout
    → main (itoa count ∷ itoa percent ∷ uid ∷ "cpu" ∷ itoa timeout ∷ [])
      ≡ some (run_cpu count percent uid timeout)
unfolding main
main-cpu count percent timeout uid h k l =
    rw (read_back count h, read_back percent k, read_back timeout l) refl

main-mem :
    (percent timeout : ℤ) (mode uid : String)
    → IsInt percent
    → IsInt timeout
    → main (mode ∷ itoa percent ∷ uid ∷ "mem" ∷ itoa timeout ∷ [])
      ≡ some (run_mem percent mode uid timeout)
unfolding main
main-mem percent timeout mode uid h k = rw (read_back percent h, read_back timeout k) refl

percent-IsInt : (p : ℤ) → pos 1 ≤ℤ p → p ≤ℤ pos 100 → IsInt p
percent-IsInt p low high = (omega arith, omega arith)

count-IsInt : (n all : ℤ) → pos 1 ≤ℤ n → n ≤ℤ all → IsInt all → IsInt n
count-IsInt n all low high (least, most) = (omega arith, omega arith)

time-IsInt : (t : ℤ) → IsInt t → IsInt (timeout_or_60 t)
time-IsInt t (low, high) = ground arith

-- If `CpuResolver` answers with success, the arguments of the program that it started make `main`
-- run a load of 1 to 100 percent on 1 to all processors, under the uid of the answer and for the
-- time that was asked for or a minute: no number is lost on its way through the texts.
pub cpu_resolver_runs :
    {W : Type 0} (host : Host W) (ds : SourceI W) (find : W → String → Option ExperimentModel)
    → IsApart host find
    → IsSource ds find
    → (fuel : ℕ) (p : Cpuparam) (w w' : W) {r : Response} → pos 1 ≤ℤ host.num_cpu
    → IsInt host.num_cpu
    → IsInt p.timeout
    → cpu_resolver host ds fuel (some p) w ≡ (returned r, w')
    → r.success ≡ true
    → (args : List String) × (before : W) × (count : ℤ) × (percent : ℤ) × (uid : String) × (w'
        ≡ host.go_os_exe args before)
      × (main args ≡ some (run_cpu count percent uid (timeout_or_60 p.timeout)))
      × (r ≡ return_success_with_result (str uid))
      × (pos 1 ≤ℤ percent)
      × (percent ≤ℤ pos 100)
      × (pos 1 ≤ℤ count)
      × (count ≤ℤ host.num_cpu)
cpu_resolver_runs host ds find apart law fuel p w w' some_cpu int_cpus int_time h s =
    let (full, started) = cpu_resolver_starts host ds find apart law fuel p w w' some_cpu h s in
    let percent = percent-IsInt started.percent started.some_load started.full_load in
    let count = count-IsInt started.count host.num_cpu started.some_cpu started.all_cpus int_cpus in
    let time : IsInt started.timeout = rw started.asked_time (time-IsInt p.timeout int_time) in
    (
      itoa started.count ∷ itoa started.percent ∷ started.uid ∷ "cpu" ∷ itoa started.timeout ∷ [],
      started.before,
      started.count,
      started.percent,
      started.uid,
      started.started,
      rw (← started.asked_time)
          (main-cpu started.count started.percent started.timeout started.uid count percent time),
      started.answered,
      started.some_load,
      started.full_load,
      started.some_cpu,
      started.all_cpus,
    )

-- If `MemResolver` answers with success, the arguments of the program that it started make `main`
-- run a load of 1 to 100 percent of the memory, under the uid of the answer, in the mode and for
-- the time that were asked for, or in the mode `ram` and for a minute.
pub mem_resolver_runs :
    {W : Type 0} (host : Host W) (ds : SourceI W) (find : W → String → Option ExperimentModel)
    → IsApart host find
    → IsSource ds find
    → (fuel : ℕ) (p : MemParam) (w w' : W) {r : Response} → IsInt p.timeout
    → mem_resolver host ds fuel p w ≡ (returned r, w')
    → r.success ≡ true
    → (args : List String) × (before : W) × (percent : ℤ) × (mode : String) × (uid : String) × (w'
        ≡ host.go_os_exe args before)
      × (main args ≡ some (run_mem percent mode uid (timeout_or_60 p.timeout)))
      × (r ≡ return_success_with_result (str uid))
      × (pos 1 ≤ℤ percent)
      × (percent ≤ℤ pos 100)
      × (mode ≡ (if p.mode == "" then "ram" else p.mode))
mem_resolver_runs host ds find apart law fuel p w w' int_time h s =
    let (load, started) = mem_resolver_starts host ds find apart law fuel p w w' h s in
    let percent = percent-IsInt started.percent started.some_load started.full_load in
    let time : IsInt started.timeout = rw started.asked_time (time-IsInt p.timeout int_time) in
    (
      started.mode ∷ itoa started.percent ∷ started.uid ∷ "mem" ∷ itoa started.timeout ∷ [],
      started.before,
      started.percent,
      started.mode,
      started.uid,
      started.started,
      rw (← started.asked_time)
          (main-mem started.percent started.timeout started.mode started.uid percent time),
      started.answered,
      started.some_load,
      started.full_load,
      ground (arith, eq_iff p.mode "", started.asked_mode, started.default_mode),
    )
