-- ===== src/Category/Memory/Target.antt =====
-- web/category/mem_main.go: the arithmetic of the sizes when nothing wraps around.
use native.Mathlib.Nat.{mul-le-mul_left}
use winchaos.Base.{
  ℕ, String, true, false, ◌+◌, ◌-◌, ◌*◌, ◌/◌, ◌^◌, ◌<◌, ◌≤◌, ltb, leb, if◌then◌else◌, ℤ, pos, sub_ℕ,
  ◌≡◌, refl, arith,
}
use winchaos.Base.Int64.{int64-pos, *64-pos, -64-pos, /64-pos, ◌-64◌, ◌/64◌}
use winchaos.Category.Memory.{
  VirtualMemory, available_bytes, reserved_size, expect_size, fill_mem, block,
}

-- The MiB that the experiment leaves free.
abbrev pub goal : ℕ → ℕ → ℕ
goal total percent = total * (100 - percent) / 100 / 1024 / 1024

available-pos :
    (mode : String) (m : VirtualMemory) → m.free < 2 ^ 63 → available_bytes mode true m ≡ pos m.free
unfolding available_bytes
available-pos mode m h = ground (arith, int64-pos m.free h)

part_small : (total p : ℕ) → total * 100 < 2 ^ 63 → total * (100 - p) < 2 ^ 63
part_small total p small =
    let rest_le : 100 - p ≤ 100 = omega arith in omega (arith, mul-le-mul_left total rest_le)

reserved-pos :
    (total p : ℕ) (reserve : ℤ)
    → total * 100 < 2 ^ 63
    → 1 ≤ p
    → p ≤ 100
    → reserved_size (pos total) (pos p) reserve ≡ pos (goal total p)
unfolding reserved_size
reserved-pos total p reserve small low high =
    let rest : pos 100 -64 pos p ≡ pos (100 - p) = ground (arith, -64-pos 100 p) in
    let nonzero : leb p 0 ≡ false = ground arith in
    rw
      (nonzero, rest, *64-pos total (100 - p) (part_small total p small), /64-pos, /64-pos, /64-pos)
      refl

pub expect_size-sub :
    (mode : String) (p : ℕ) (reserve : ℤ) (m : VirtualMemory)
    → m.total * 100 < 2 ^ 63
    → m.free < 2 ^ 63
    → 1 ≤ p
    → p ≤ 100
    → expect_size mode (pos p) reserve true m ≡ sub_ℕ (m.free / 1024 / 1024) (goal m.total p)
unfolding expect_size
expect_size-sub mode p reserve m small free low high =
    rw
      (
        available-pos mode m free,
        int64-pos m.total (omega arith),
        reserved-pos m.total p reserve small low high,
        /64-pos,
        /64-pos,
      )
      (-64-pos (m.free / 1024 / 1024) (goal m.total p) (omega arith)
        (omega (arith, part_small m.total p small)))

-- `fillMem` for a missing size of `e`.
abbrev pub filled : ℕ → ℕ → ℕ
filled rate e = if ltb rate e then rate else e / 10

pub fill_mem-sub :
    (rate a g : ℕ) → 1 ≤ rate → fill_mem (pos rate) (sub_ℕ a g) ≡ pos (filled rate (a - g))
unfolding fill_mem ◌/64◌
fill_mem-sub rate a g h = ground arith

pub filled_le : (rate e : ℕ) → filled rate e ≤ e
filled_le rate e = ground arith

pub filled_rate : (rate e : ℕ) → filled rate e ≤ rate
filled_rate rate e = ground arith

pub filled_pos : (rate e : ℕ) → 1 ≤ rate → 10 ≤ e → 1 ≤ filled rate e
filled_pos rate e h k = ground arith

-- Eight blocks are a MiB of what is free.
pub free_mib :
    (before after n : ℕ)
    → after + 8 * n * block ≡ before
    → after / 1024 / 1024 ≡ before / 1024 / 1024 - n
free_mib before after n h = omega arith

pub enough_free : (free g n : ℕ) → n ≤ free / 1024 / 1024 - g → 8 * n * block ≤ free
enough_free free g n h = omega arith
