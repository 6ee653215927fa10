-- ===== src/Cmdexec/Mem/Load.antt =====
-- What a memory experiment is started with.
use winchaos.Base.{
  if◌then◌else◌, ℕ, String, true, false, [], ◌∷◌, Option, none, ◌≡◌, refl, sym, ap, ◌≢◌, ◌∙◌, ◌==◌,
  eq_iff, Bool-cases, inl, inr, ℤ, pos, ◌≤ℤ◌, arith,
}
use winchaos.Base.Decimal.{itoa}
use winchaos.Base.Exec.{Flow, ok, err, panic, no_fuel, returned, returned-injective, outcome}
use winchaos.Data.Model.{ExperimentModel}
use winchaos.Data.Source.{SourceI, IsSource}
use winchaos.Transport.Value.{str}
use winchaos.Transport.Response.{Response, return_fail, return_success_with_result}
use winchaos.Cmdexec.Host.{Host, IsApart}
use winchaos.Cmdexec.Uid.{generate_uid, generate_uid_fresh}
use winchaos.Cmdexec.Cpu.{timeout_or_60, is_bad_percent, percent_or_100}
use winchaos.Cmdexec.Cpu.Start.{percent_bounds}
use winchaos.Cmdexec.Mem.{MemParam, start_drawn, start_mem, mem_resolver}

module _ {W : Type 0} (host : Host W) (find : W → String → Option ExperimentModel) where
  -- The program was started once, last, to load the memory in the mode that was asked for, or
  -- `ram`, on a uid that no record had.
  pub record IsLoading (p : MemParam) (w w' : W) (r : Response) : Type 0 where
    pub uid : String
    pub mode : String
    pub percent : ℤ
    pub timeout : ℤ
    pub before : W
    pub asked_time : timeout ≡ timeout_or_60 p.timeout
    pub started : w' ≡ host.go_os_exe (mode ∷ itoa percent ∷ uid ∷ "mem" ∷ itoa timeout ∷ []) before
    pub answered : r ≡ return_success_with_result (str uid)
    pub fresh : find w uid ≡ none
    pub asked_mode : p.mode ≢ "" → mode ≡ p.mode
    pub default_mode : p.mode ≡ "" → mode ≡ "ram"
    pub some_load : pos 1 ≤ℤ percent
    pub full_load : percent ≤ℤ pos 100
    pub kept : (k : String) → find w' k ≡ find w k

  start_mem_from :
      (mode : String) (percent timeout : ℤ) (drawn : Flow String String × W) (w' : W) {r : Response}
      → outcome (start_drawn host mode percent timeout drawn) ≡ (returned r, w')
      → r.success ≡ true
      → (uid : String) × (drawn.0 ≡ ok uid)
        × (r ≡ return_success_with_result (str uid))
        × (w' ≡ host.go_os_exe (mode ∷ itoa percent ∷ uid ∷ "mem" ∷ itoa timeout ∷ []) drawn.1)
  unfolding start_drawn return_fail
  start_mem_from mode percent timeout (ok uid, w) w' h s =
      (uid, refl, sym (returned-injective h), sym (ap (λ o. o.1) h))
  start_mem_from mode percent timeout (err x, w) w' h s = ground arith
  start_mem_from mode percent timeout (panic, w) w' h s = cc
  start_mem_from mode percent timeout (no_fuel, w) w' h s = cc

module _ {W : Type 0} (host : Host W) (ds : SourceI W) (find : W → String → Option ExperimentModel)
    (apart : IsApart host find) (law : IsSource ds find) where
  start_mem-IsLoading :
      (fuel : ℕ) (p : MemParam) (mode : String) (w w' : W) {r : Response}
      → is_bad_percent p.mem_percent ≡ false
      → mode ≡ (if p.mode == "" then "ram" else p.mode)
      → outcome
          (start_mem host ds fuel mode (percent_or_100 p.mem_percent) (timeout_or_60 p.timeout) w)
        ≡ (returned r, w')
      → r.success ≡ true
      → IsLoading host find p w w' r
  unfolding start_mem
  start_mem-IsLoading fuel p mode w w' good chosen h s =
      let (uid, drawn, answered, started) =
        start_mem_from host find mode (percent_or_100 p.mem_percent) (timeout_or_60 p.timeout)
          (generate_uid host ds fuel w) w' h s in
      let (fresh, kept) = generate_uid_fresh host ds find apart law fuel w drawn in
      let (at_least_1, at_most_100) = percent_bounds p.mem_percent good in
      record {
        uid = uid;
        mode = mode;
        percent = percent_or_100 p.mem_percent;
        timeout = timeout_or_60 p.timeout;
        before = (generate_uid host ds fuel w).1;
        asked_time = refl;
        started = started;
        answered = answered;
        fresh = fresh;
        asked_mode = λ asked. ground (arith, eq_iff p.mode "");
        default_mode = λ asked. ground (arith, eq_iff p.mode "");
        some_load = at_least_1;
        full_load = at_most_100;
        kept = λ k. rw started (apart.go_keeps _ _ k ∙ kept k);
      }

-- If `MemResolver` answers with success, the type was a load and the program was started once, on a
-- uid that no record had, with 1 to 100 percent, in the mode that was asked for or in `ram`, for
-- the time that was asked for or a minute; the records are as they were.
pub mem_resolver_starts :
    {W : Type 0} (host : Host W) (ds : SourceI W) (find : W → String → Option ExperimentModel)
    → IsApart host find
    → IsSource ds find
    → (fuel : ℕ) (p : MemParam) (w w' : W) {r : Response}
    → mem_resolver host ds fuel p w ≡ (returned r, w')
    → r.success ≡ true
    → (p.cmt ≡ "load") × IsLoading host find p w w' r
unfolding mem_resolver return_fail
mem_resolver_starts host ds find apart law fuel p w w' h s = elim (Bool-cases (p.cmt == "load")) [
  | inl load ↦ elim (Bool-cases (is_bad_percent p.mem_percent)) [
    | inl bad ↦ ground arith
    | inr good ↦ (
      (eq_iff _ _).0 load,
      start_mem-IsLoading host ds find apart law fuel p (if p.mode == "" then "ram" else p.mode) w
          w' good refl (rw (load, good, mem_resolver) at h) s,
    )
  ]
  | inr other ↦ ground arith
]
