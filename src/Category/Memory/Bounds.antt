-- ===== src/Category/Memory/Bounds.antt =====
-- web/category/mem_main.go: how much a second of the loop adds, by what it reads of the memory, and
-- to which buffer.
use winchaos.Base.{
  ℕ, zero, suc, String, false, ◌+◌, ◌-◌, ◌*◌, ◌/◌, ◌^◌, ◌<◌, ◌≤◌, ◌∷◌, ℤ, pos, is_zero, sub_ℕ, ◌≡◌,
  refl, ◌⊎◌, inl, inr, Bool-cases, arith,
}
use winchaos.Base.Int64.{*64-pos}
use winchaos.Base.Exec.{value, ok}
use winchaos.Category.Memory.{
  VirtualMemory, Cache, Machine, calculate_mem_size, add_blocks, is_full, append_fill, fill,
  tick_sampled, tick,
}
use winchaos.Category.Memory.Target.{
  goal, expect_size-sub, filled, fill_mem-sub, filled_le, filled_rate, filled_pos,
}

-- `n` blocks go into the current buffer, which has the room, or may grow, as a quarter more than
-- its room is less than the blocks of the missing MiB; or else it is left, and a new buffer takes
-- them.
abbrev pub Placed : ℕ → ℕ → Cache → Cache → Type 0
Placed n missing c c' =
    ((c'.full ≡ c.full)
      × (c'.current.len ≡ c.current.len + n)
      × ((n ≤ c.current.cap - c.current.len) ⊎ (c.current.cap + c.current.cap / 4 < 8 * missing)))
    ⊎ ((c'.full ≡ c.current ∷ c.full)
        × (c'.current.len ≡ n)
        × (c.current.cap - c.current.len < n)
        × (8 * missing ≤ c.current.cap + c.current.cap / 4))

add_blocks-Placed :
    (grow : ℕ → ℕ → ℕ) (n missing : ℕ) (c : Cache)
    → 8 * missing < 2 ^ 63
    → Placed n missing c (add_blocks grow n (pos missing) c)
unfolding add_blocks
add_blocks-Placed grow n missing c small = elim (Bool-cases (is_full n (pos missing) c.current)) [
  | inl full ↦ rw full (
      inr (
        refl,
        omega arith,
        ground (arith, *64-pos 8 missing small),
        ground (arith, *64-pos 8 missing small),
      ))
  | inr room ↦ rw room (inl (refl, refl, ground (arith, *64-pos 8 missing small)))
]

module _ {W : Type 0} (m : Machine W) where
  -- What is done with the MiB of a second: nothing with none, and blocks that the machine holds.
  abbrev pub Takes : ℕ → W → W → Type 0
  Takes zero w w' = w' ≡ w
  Takes (suc added) w w' = w' ≡ m.hold_blocks (8 * suc added) w

  fill-Placed :
      (f missing : ℕ) (e : ℤ) (c : Cache) (w : W)
      → f ≤ missing
      → 8 * missing < 2 ^ 63
      → (1 ≤ f → e ≡ pos missing)
      → (c' : Cache) × ((fill m (pos f) e c w).0 ≡ ok c')
        × Placed (8 * f) missing c c'
        × Takes f w (fill m (pos f) e c w).1
  unfolding fill append_fill
  fill-Placed zero missing e c w le small is =
      (c, refl, inl (refl, omega arith, inl (omega arith)), refl)
  fill-Placed (suc f) missing e c w le small is =
      let nonzero : is_zero (pos (suc f)) ≡ false = ground arith in
      let product = *64-pos 8 (suc f) (omega arith) in
      rw (is (omega arith), nonzero, product)
        (
          add_blocks m.grow (8 * suc f) (pos missing) c,
          refl,
          add_blocks-Placed m.grow (8 * suc f) missing c small,
          refl,
        )

  sub-positive : (a g : ℕ) → 1 ≤ a - g → sub_ℕ a g ≡ pos (a - g)
  sub-positive a g h = ground arith

-- A second of the loop whose reading of the memory succeeds, with less than 2^63 / 100 bytes in
-- all, fewer than 2^63 of them free, a percentage of 1 to 100 and a rate of 1 to 2^60 - 1 MiB. Of
-- the MiB that are free beyond the part that the percentage leaves, it adds no more than there are
-- and no more than the rate, and at least one if there are ten or more. It does not panic. Without
-- a MiB to add, nothing is done to the machine; otherwise it holds eight blocks more for each. They
-- go into the current buffer, if that has the room, or if a quarter more than its room is less than
-- the blocks of those MiB; otherwise it is left, and a new buffer takes them.
pub tick_fills :
    {W : Type 0} (m : Machine W) (mode : String) (p : ℕ) (reserve : ℤ) (rate : ℕ) (c : Cache)
    (w : W) (v : VirtualMemory)
    → (m.virtual_memory w).0 ≡ value v
    → v.total * 100 < 2 ^ 63
    → v.free < 2 ^ 63
    → 1 ≤ p
    → p ≤ 100
    → 1 ≤ rate
    → rate < 2 ^ 60
    → let missing = v.free / 1024 / 1024 - goal v.total p in
      let r = tick m mode (pos p) reserve (pos rate) c w in
      (added : ℕ) × (c' : Cache) × (r.0 ≡ ok c')
      × (added ≤ missing)
      × (added ≤ rate)
      × (10 ≤ missing → 1 ≤ added)
      × Placed (8 * added) missing c c'
      × Takes m added (m.virtual_memory w).1 r.1
unfolding tick tick_sampled calculate_mem_size
tick_fills m mode p reserve rate c w v reads small free low high some_rate small_rate =
    let mibs = v.free / 1024 / 1024 in
    let missing = mibs - goal v.total p in
    let added = filled rate missing in
    let le = filled_le rate missing in
    let expected = expect_size-sub mode p reserve v small free low high in
    let (c', went_on, placed, takes) =
      fill-Placed m added missing (sub_ℕ mibs (goal v.total p)) c (m.virtual_memory w).1 le
        (omega arith) (λ some. sub-positive m mibs (goal v.total p) (omega arith)) in
    rw (reads, expected, fill_mem-sub rate mibs (goal v.total p) some_rate)
      (
        added,
        c',
        went_on,
        le,
        filled_rate rate missing,
        λ much. filled_pos rate missing some_rate much,
        placed,
        takes,
      )
