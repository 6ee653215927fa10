-- ===== src/Cmdexec/Cpu/Start.antt =====
-- What a CPU experiment is started with.
use winchaos.Base.{
  ℕ, String, true, false, [], ◌∷◌, Option, none, some, ◌≡◌, refl, sym, ap, ◌∙◌, ◌==◌, eq_iff,
  Bool-cases, inl, inr, ℤ, pos, ◌≤ℤ◌, arith,
}
use winchaos.Base.Decimal.{itoa}
use winchaos.Base.Exec.{Flow, ok, err, panic, no_fuel, returned, returned-injective, outcome}
use winchaos.Data.Model.{ExperimentModel}
use winchaos.Data.Source.{SourceI, IsSource}
use winchaos.Transport.Value.{str}
use winchaos.Transport.Response.{Response, return_fail, return_success_with_result}
use winchaos.Cmdexec.Host.{Host, IsApart}
use winchaos.Cmdexec.Uid.{generate_uid, generate_uid_fresh}
use winchaos.Cmdexec.Cpu.{
  Cpuparam, timeout_or_60, is_bad_percent, percent_or_100, count_or_all, start_drawn, start_cpu,
  resolve_cpu, cpu_resolver,
}

pub percent_bounds :
    (p : ℤ) → is_bad_percent p ≡ false → (pos 1 ≤ℤ percent_or_100 p) × (percent_or_100 p ≤ℤ pos 100)
percent_bounds p h = ground arith

count_bounds :
    (all n : ℤ) → pos 1 ≤ℤ all → (pos 1 ≤ℤ count_or_all all n) × (count_or_all all n ≤ℤ all)
count_bounds all n h = ground arith

module _ {W : Type 0} (host : Host W) (ds : SourceI W)
    (find : W → String → Option ExperimentModel) where
  -- The program was started once, last, on a uid that no record had, with a load and a number of
  -- processors that the machine can give.
  pub record IsStarted (p : Cpuparam) (w w' : W) (r : Response) : Type 0 where
    pub uid : String
    pub count : ℤ
    pub percent : ℤ
    pub timeout : ℤ
    pub before : W
    pub asked_time : timeout ≡ timeout_or_60 p.timeout
    pub started :
        w' ≡ host.go_os_exe (itoa count ∷ itoa percent ∷ uid ∷ "cpu" ∷ itoa timeout ∷ []) before
    pub answered : r ≡ return_success_with_result (str uid)
    pub fresh : find w uid ≡ none
    pub some_load : pos 1 ≤ℤ percent
    pub full_load : percent ≤ℤ pos 100
    pub some_cpu : pos 1 ≤ℤ count
    pub all_cpus : count ≤ℤ host.num_cpu
    pub kept : (k : String) → find w' k ≡ find w k

  -- How the run ends, from how the draw of a uid ends.
  start_cpu_from :
      (count percent timeout : ℤ) (drawn : Flow String String × W) (w' : W) {r : Response}
      → outcome (start_drawn host count percent timeout drawn) ≡ (returned r, w')
      → r.success ≡ true
      → (uid : String) × (drawn.0 ≡ ok uid)
        × (r ≡ return_success_with_result (str uid))
        × (w'
            ≡ host.go_os_exe (itoa count ∷ itoa percent ∷ uid ∷ "cpu" ∷ itoa timeout ∷ []) drawn.1)
  unfolding start_drawn return_fail
  start_cpu_from count percent timeout (ok uid, w) w' h s =
      (uid, refl, sym (returned-injective h), sym (ap (λ o. o.1) h))
  start_cpu_from count percent timeout (err x, w) w' h s = ground arith
  start_cpu_from count percent timeout (panic, w) w' h s = cc
  start_cpu_from count percent timeout (no_fuel, w) w' h s = cc

  module _ (apart : IsApart host find) (law : IsSource ds find) where
    start_cpu-IsStarted :
        (fuel : ℕ) (p : Cpuparam) (w w' : W) {r : Response}
        → pos 1 ≤ℤ host.num_cpu
        → is_bad_percent p.cpu_percent ≡ false
        → outcome (
            start_cpu host ds fuel
              (count_or_all host.num_cpu p.cpu_count)
              (percent_or_100 p.cpu_percent)
              (timeout_or_60 p.timeout)
              w)
          ≡ (returned r, w')
        → r.success ≡ true
        → IsStarted p w w' r
    unfolding start_cpu
    start_cpu-IsStarted fuel p w w' some_cpu good h s =
        let count = count_or_all host.num_cpu p.cpu_count in
        let percent = percent_or_100 p.cpu_percent in
        let timeout = timeout_or_60 p.timeout in
        let (uid, drawn, answered, started) =
          start_cpu_from count percent timeout (generate_uid host ds fuel w) w' h s in
        let (fresh, kept) = generate_uid_fresh host ds find apart law fuel w drawn in
        let (at_least_1, at_most_100) = percent_bounds p.cpu_percent good in
        let (one_cpu, at_most_all) = count_bounds host.num_cpu p.cpu_count some_cpu in
        record {
          uid = uid;
          count = count;
          percent = percent;
          timeout = timeout;
          before = (generate_uid host ds fuel w).1;
          asked_time = refl;
          started = started;
          answered = answered;
          fresh = fresh;
          some_load = at_least_1;
          full_load = at_most_100;
          some_cpu = one_cpu;
          all_cpus = at_most_all;
          kept = λ k. rw started (apart.go_keeps _ _ k ∙ kept k);
        }

    resolve_cpu-IsStarted :
        (fuel : ℕ) (p : Cpuparam) (w w' : W) {r : Response}
        → pos 1 ≤ℤ host.num_cpu
        → outcome (resolve_cpu host ds fuel p w) ≡ (returned r, w')
        → r.success ≡ true
        → (p.cmt ≡ "fullload") × IsStarted p w w' r
    unfolding resolve_cpu return_fail
    resolve_cpu-IsStarted fuel p w w' some_cpu h s = elim (Bool-cases (p.cmt == "fullload")) [
      | inl full ↦ elim (Bool-cases (is_bad_percent p.cpu_percent)) [
        | inl bad ↦ ground arith
        | inr good ↦ (
          (eq_iff _ _).0 full,
          start_cpu-IsStarted fuel p w w' some_cpu good (rw (full, good, resolve_cpu) at h) s,
        )
      ]
      | inr other ↦ ground arith
    ]

-- If `CpuResolver` answers with success, the type was a full load and the program was started once,
-- on a uid that no record had, with 1 to 100 percent on 1 to all processors, for the time
-- that was asked for or a minute; the records are as they were.
pub cpu_resolver_starts :
    {W : Type 0} (host : Host W) (ds : SourceI W) (find : W → String → Option ExperimentModel)
    → IsApart host find
    → IsSource ds find
    → (fuel : ℕ) (p : Cpuparam) (w w' : W) {r : Response} → pos 1 ≤ℤ host.num_cpu
    → cpu_resolver host ds fuel (some p) w ≡ (returned r, w')
    → r.success ≡ true
    → (p.cmt ≡ "fullload") × IsStarted host ds find p w w' r
unfolding cpu_resolver
cpu_resolver_starts host ds find apart law fuel p w w' some_cpu h s =
    resolve_cpu-IsStarted host ds find apart law fuel p w w' some_cpu h s
