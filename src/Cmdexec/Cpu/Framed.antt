-- ===== src/Cmdexec/Cpu/Framed.antt =====
-- The start of a CPU experiment leaves the table alone.
use winchaos.Base.{ℕ, String, Option, none, some, refl, ◌∙◌, ◌==◌, ℤ, Bool-cases, inl, inr}
use winchaos.Base.Exec.{Flow, ok, err, panic, no_fuel}
use winchaos.Data.Model.{ExperimentModel}
use winchaos.Data.Source.{SourceI, IsSource}
use winchaos.Cmdexec.Host.{Host, IsApart}
use winchaos.Cmdexec.Uid.{generate_uid}
use winchaos.Cmdexec.Frame.{Same, Outcomes, outcome-Effects, Same-Effects, generate_uid-Keeps}
use winchaos.Cmdexec.Cpu.{
  Cpuparam, start_drawn, start_cpu, resolve_cpu, cpu_resolver, is_bad_percent, count_or_all,
  percent_or_100, timeout_or_60,
}

module _ {W : Type 0} (host : Host W) (ds : SourceI W) (find : W → String → Option ExperimentModel)
    (apart : IsApart host find) (law : IsSource ds find) where
  start_drawn_keeps :
      (count percent timeout : ℤ) (w : W) (r : Flow String String × W)
      → Same find w r.1
      → Same find w (start_drawn host count percent timeout r).1
  unfolding start_drawn
  start_drawn_keeps count percent timeout w (ok uid, v) same k = apart.go_keeps _ v k ∙ same k
  start_drawn_keeps count percent timeout w (err x, v) same k = same k
  start_drawn_keeps count percent timeout w (panic, v) same k = same k
  start_drawn_keeps count percent timeout w (no_fuel, v) same k = same k

  resolve_cpu_keeps :
      (fuel : ℕ) (p : Cpuparam) (w : W) → Same find w (resolve_cpu host ds fuel p w).1
  unfolding resolve_cpu start_cpu
  resolve_cpu_keeps fuel p w k = elim (Bool-cases (p.cmt == "fullload")) [
    | inr other ↦ rw other refl
    | inl full ↦ elim (Bool-cases (is_bad_percent p.cpu_percent)) [
      | inl bad ↦ rw (full, bad) refl
      | inr good ↦
          rw (full, good)
            (start_drawn_keeps (count_or_all host.num_cpu p.cpu_count)
              (percent_or_100 p.cpu_percent) (timeout_or_60 p.timeout) w
              (generate_uid host ds fuel w) (generate_uid-Keeps host ds find apart law fuel w) k)
    ]
  ]

  pub cpu_resolver-Outcomes :
      (fuel : ℕ) (p : Option Cpuparam) (w : W) → Outcomes find w (cpu_resolver host ds fuel p w)
  unfolding cpu_resolver
  cpu_resolver-Outcomes fuel none w = inl (λ k. refl)
  cpu_resolver-Outcomes fuel (some p) w =
      outcome-Effects find w _ (Same-Effects find w _ (resolve_cpu_keeps fuel p w))
