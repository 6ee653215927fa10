-- ===== src/Category/Memory/Calm.antt =====
-- web/category/mem_main.go: the loop goes on whatever is read, and leaves the records alone.
use winchaos.Base.{
  ℕ, zero, suc, String, true, false, Option, ◌≡◌, refl, ◌<◌, ◌≤◌, ◌^◌, ◌*◌, ◌/◌, ◌⊎◌, inl, inr, ℤ,
  pos, negsuc, ltb, ◌∙◌, Bool-cases, arith, is_zero,
}
use winchaos.Base.Int64.{*64-pos, ◌/64◌}
use winchaos.Base.Exec.{Flow, ok, err, >>=-of-ok}
use winchaos.Data.Model.{ExperimentModel}
use winchaos.Cmdexec.Host.{Host}
use winchaos.Category.Memory.{
  Machine, Cache, fill_mem, calculate_mem_size, add_blocks, append_fill, fill, tick_sampled, tick,
  ticks,
}

-- Nothing that the loop does to the memory changes a record, the process finds itself, and a kill
-- comes back.
pub record IsCalm {W : Type 0} (host : Host W) (machine : Machine W)
    (find : W → String → Option ExperimentModel) (pid : ℤ) : Type 0 where
  pub reads_keep : (w : W) (k : String) → find (machine.virtual_memory w).1 k ≡ find w k
  pub holds_keep : (n : ℕ) (w : W) (k : String) → find (machine.hold_blocks n w) k ≡ find w k
  pub finds : (w : W) → (handle : ℤ) × ((host.find_process pid w).0 ≡ ok handle)
  pub kills :
      (handle : ℤ) (w : W)
      → ((host.kill handle w).0 ≡ ok tt) ⊎ ((e : String) × ((host.kill handle w).0 ≡ err e))

fill_mem-small : (rate : ℕ) (e : ℤ) → (f : ℕ) × (fill_mem (pos rate) e ≡ pos f) × (f ≤ rate)
unfolding fill_mem ◌/64◌
fill_mem-small rate (pos n) = elim (Bool-cases (ltb 0 n)) [
  | inl some_left ↦ elim (Bool-cases (ltb rate n)) [
    | inl large ↦ (rate, ground arith, ground arith)
    | inr small ↦ (n / 10, ground arith, ground arith)
  ]
  | inr none_left ↦ (0, ground arith, ground arith)
]
fill_mem-small rate (negsuc n) = (0, ground arith, ground arith)

module _ {W : Type 0} (host : Host W) (machine : Machine W)
    (find : W → String → Option ExperimentModel) (pid : ℤ)
    (calm : IsCalm host machine find pid) where
  abbrev pub Same : W → W → Type 0
  Same w w' = (k : String) → find w' k ≡ find w k

  abbrev pub GoesOn : W → Flow String Cache × W → Type 0
  GoesOn w r = (c : Cache) × (r.0 ≡ ok c) × Same w r.1

  fill-GoesOn :
      (f : ℕ) (e : ℤ) (c : Cache) (w : W) → 8 * f < 2 ^ 63 → GoesOn w (fill machine (pos f) e c w)
  unfolding fill append_fill
  fill-GoesOn zero e c w small = (c, refl, λ k. refl)
  fill-GoesOn (suc f) e c w small =
      let nonzero : is_zero (pos (suc f)) ≡ false = ground arith in
      rw (nonzero, *64-pos 8 (suc f) small)
        (add_blocks machine.grow (8 * suc f) e c, refl, calm.holds_keep (8 * suc f) w)

  tick-GoesOn :
      (mode : String) (percent reserve : ℤ) (rate : ℕ) (c : Cache) (w : W)
      → rate < 2 ^ 60
      → GoesOn w (tick machine mode percent reserve (pos rate) c w)
  unfolding tick tick_sampled
  tick-GoesOn mode percent reserve rate c w small =
      let (sample, w') = machine.virtual_memory w in
      let expect_mem = (calculate_mem_size mode percent reserve true sample).1 in
      let (f, fills, at_most) = fill_mem-small rate expect_mem in
      let (cache, went_on, same) = fill-GoesOn f expect_mem c w' (omega arith) in
      rw fills (cache, went_on, λ k. same k ∙ calm.reads_keep w k)

  pub ticks-GoesOn :
      (n : ℕ) (mode : String) (percent reserve : ℤ) (rate : ℕ) (c : Cache) (w : W)
      → rate < 2 ^ 60
      → GoesOn w (ticks machine n mode percent reserve (pos rate) c w)
  unfolding ticks
  ticks-GoesOn zero mode percent reserve rate c w small = (c, refl, λ k. refl)
  ticks-GoesOn (suc n) mode percent reserve rate c w small =
      let (first, went_on, same) = tick-GoesOn mode percent reserve rate c w small in
      let w' = (tick machine mode percent reserve (pos rate) c w).1 in
      let (last, went_on', same') = ticks-GoesOn n mode percent reserve rate first w' small in
      rw
        (>>=-of-ok (tick machine mode percent reserve (pos rate) c)
          (λ filled. ticks machine n mode percent reserve (pos rate) filled) w went_on)
        (last, went_on', λ k. same' k ∙ same k)
