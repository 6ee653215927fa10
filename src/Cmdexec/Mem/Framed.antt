-- ===== src/Cmdexec/Mem/Framed.antt =====
-- The start of a memory experiment leaves the table alone.
use winchaos.Base.{ℕ, String, Option, refl, ◌∙◌, ◌==◌, ℤ, Bool-cases, inl, inr}
use winchaos.Base.Exec.{Flow, ok, err, panic, no_fuel}
use winchaos.Data.Model.{ExperimentModel}
use winchaos.Data.Source.{SourceI, IsSource}
use winchaos.Cmdexec.Host.{Host, IsApart}
use winchaos.Cmdexec.Uid.{generate_uid}
use winchaos.Cmdexec.Cpu.{is_bad_percent}
use winchaos.Cmdexec.Frame.{Same, Outcomes, outcome-Effects, Same-Effects, generate_uid-Keeps}
use winchaos.Cmdexec.Mem.{MemParam, start_drawn, start_mem, mem_resolver}

module _ {W : Type 0} (host : Host W) (ds : SourceI W) (find : W → String → Option ExperimentModel)
    (apart : IsApart host find) (law : IsSource ds find) where
  start_drawn_keeps :
      (mode : String) (percent timeout : ℤ) (w : W) (r : Flow String String × W)
      → Same find w r.1
      → Same find w (start_drawn host mode percent timeout r).1
  unfolding start_drawn
  start_drawn_keeps mode percent timeout w (ok uid, v) same k = apart.go_keeps _ v k ∙ same k
  start_drawn_keeps mode percent timeout w (err x, v) same k = same k
  start_drawn_keeps mode percent timeout w (panic, v) same k = same k
  start_drawn_keeps mode percent timeout w (no_fuel, v) same k = same k

  start_mem_keeps :
      (fuel : ℕ) (mode : String) (percent timeout : ℤ) (w : W)
      → Same find w (start_mem host ds fuel mode percent timeout w).1
  unfolding start_mem
  start_mem_keeps fuel mode percent timeout w =
      start_drawn_keeps mode percent timeout w (generate_uid host ds fuel w)
        (generate_uid-Keeps host ds find apart law fuel w)

  pub mem_resolver-Outcomes :
      (fuel : ℕ) (p : MemParam) (w : W) → Outcomes find w (mem_resolver host ds fuel p w)
  unfolding mem_resolver
  mem_resolver-Outcomes fuel p w = elim (Bool-cases (p.cmt == "load")) [
    | inr other ↦ rw (mem_resolver, other) (inl (λ k. refl))
    | inl load ↦ elim (Bool-cases (is_bad_percent p.mem_percent)) [
      | inl bad ↦ rw (mem_resolver, load, bad) (inl (λ k. refl))
      | inr good ↦
          rw (mem_resolver, load, good)
            (outcome-Effects find w _ (Same-Effects find w _ (start_mem_keeps fuel _ _ _ w)))
    ]
  ]
