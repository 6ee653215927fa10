-- ===== src/Category/Cpu/Quota.antt =====
-- web/category/cpu_main.go: the busy time and the sleep of the loop.
use winchaos.Base.{
  String, List, [], ◌∷◌, ◌+◌, ltb, ◌≡◌, sym, ◌∙◌, ℤ, pos, sub_ℕ, pos_part, neg_part, ◌≤ℤ◌, ◌⊎◌,
  max_int64, Bool-cases, inl, inr, arith,
}
use winchaos.Base.Int64.{◌+64◌, ◌-64◌, int64-range}
use winchaos.Data.Source.{SourceI}
use winchaos.Cmdexec.Host.{Host}
use winchaos.Category.Cpu.{
  Turn, quota, done, pass, busy, at_least_0, sleep_of, turn, go_on, turns, burn, period,
}

busy_injective : {q q' s s' : ℤ} → busy q s ≡ busy q' s' → (q ≡ q') × (s ≡ s')
busy_injective h = (cc, cc)

-- A busy time that a quota has set, or the one of the start.
abbrev InRange : ℤ → ℤ → Type 0
InRange q q' = (q' ≡ q) ⊎ ((pos 0 ≤ℤ q') × (q' ≤ℤ max_int64))

at_least_0-range : (z : ℤ) → z ≤ℤ max_int64 → (pos 0 ≤ℤ at_least_0 z) × (at_least_0 z ≤ℤ max_int64)
at_least_0-range z h = ground arith

sum-range : (a b : ℤ) → a +64 b ≤ℤ max_int64
unfolding ◌+64◌
sum-range a b = (int64-range (sub_ℕ (pos_part a + pos_part b) (neg_part a + neg_part b))).1

at_least_0-positive : (z : ℤ) → pos 0 ≤ℤ at_least_0 z
at_least_0-positive z = ground arith

InRange-trans : (q q' q'' : ℤ) → InRange q q' → InRange q' q'' → InRange q q''
InRange-trans q q' q'' (inl e) (inl e') = inl (e' ∙ e)
InRange-trans q q' q'' (inr h) (inl e') = inr (rw e' h)
InRange-trans q q' q'' h (inr h') = inr h'

module _ {W : Type 0} (host : Host W) (ds : SourceI W) where
  turns-InRange :
      (uid : String) (ts : List Turn) (q s : ℤ) (w : W) {q' s' : ℤ}
      → (turns host ds uid ts q s w).0 ≡ busy q' s'
      → InRange q q' × (s' ≡ s)
  unfolding turns turn go_on
  turns-InRange uid [] q s w h = let (e, e') = busy_injective h in (inl (sym e), sym e')
  turns-InRange uid (quota offset ∷ ts) q s w h =
      let next = at_least_0 (q +64 offset) in
      let (rest, kept) = turns-InRange uid ts next s w h in
      (InRange-trans q next _ (inr (at_least_0-range _ (sum-range q offset))) rest, kept)
  turns-InRange uid (done ∷ ts) q s w h = cc
  turns-InRange uid (pass before after ∷ ts) q s w h = elim (Bool-cases (ltb (before + 5) after)) [
    | inl late ↦ absurd (cc (rw late at h))
    | inr on_time ↦ turns-InRange uid ts q s w (rw on_time at h)
  ]

-- As long as the loop goes on, its busy time is the quota of its start, or between 0 and the
-- largest int of 64 bits, whatever quotas came; its sleep is what the quota of the start left of a
-- second, and not negative, and no later quota changes it.
pub burn_stays_in_range :
    {W : Type 0} (host : Host W) (ds : SourceI W) (uid : String) (ts : List Turn) (q : ℤ) (w : W)
    {q' s' : ℤ}
    → (burn host ds uid ts q w).0 ≡ busy q' s'
    → ((q' ≡ q) ⊎ ((pos 0 ≤ℤ q') × (q' ≤ℤ max_int64))) × (s' ≡ sleep_of q) × (pos 0 ≤ℤ s')
unfolding burn sleep_of
burn_stays_in_range host ds uid ts q w h =
    let (range, kept) = turns-InRange host ds uid ts q (sleep_of q) w h in
    (range, kept, rw kept (at_least_0-positive (period -64 q)))
