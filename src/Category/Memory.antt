-- ===== src/Category/Memory.antt =====
-- web/category/mem_main.go: the size that a memory experiment aims for, and the loop that fills the
-- memory up to it.
pub mod Bounds
pub mod Target
pub mod Run
pub mod Calm
pub mod Settled
use winchaos.Base.{
  ℕ, zero, suc, String, Bool, true, not, ◌&&◌, ◌+◌, ◌-◌, ◌*◌, ◌/◌, List, [], ◌∷◌, ltb, leb, ◌==◌,
  if◌then◌else◌, ℤ, pos, negsuc, ltb_ℤ, is_zero,
}
use winchaos.Base.Int64.{int64, ◌+64◌, ◌-64◌, ◌*64◌, ◌/64◌}
use winchaos.Base.Exec.{Result, value, failure, Flow, ok, panic, Exec, pure, ◌>>=◌}

-- What `mem.VirtualMemory` reads, in bytes: 64-bit words.
pub record VirtualMemory : Type 0 where
  pub total : ℕ
  pub free : ℕ
  pub buffers : ℕ
  pub cached : ℕ

-- `buf` of the loop: how many blocks are in it, and for how many there is room.
pub record Buffer : Type 0 where
  pub len : ℕ
  pub cap : ℕ

-- The map `cache`: the buffers of the keys `count`, ..., 1, that of `count` first. Its other keys
-- are never looked at.
pub record Cache : Type 0 where
  pub current : Buffer
  pub full : List Buffer

-- The memory of the system, and the runtime's: the blocks of `make` in a buffer, and the room that
-- `append` makes in a buffer with too little of it.
pub record Machine (W : Type 0) : Type 0 where
  pub virtual_memory : W → Result VirtualMemory × W
  pub hold_blocks : ℕ → W → W
  pub grow : ℕ → ℕ → ℕ

-- The bytes of a mebibyte, and the blocks of one.
abbrev pub mib : ℕ
mib = 1024 * 1024

abbrev pub block : ℕ
block = 131072

unfoldable pub available_bytes : String → Bool → VirtualMemory → ℤ
available_bytes mode include_buffer_cache m =
    if mode == "ram" && not include_buffer_cache
    then int64 (pos m.free) +64 int64 (pos (m.buffers + m.cached))
    else int64 (pos m.free)

unfoldable pub reserved_size : ℤ → ℤ → ℤ → ℤ
reserved_size total percent reserve =
    if is_zero percent then reserve else total *64 (pos 100 -64 percent) /64 100 /64 1024 /64 1024

-- `available/1024/1024 - reserved`
unfoldable pub expect_size : String → ℤ → ℤ → Bool → VirtualMemory → ℤ
expect_size mode percent reserve include_buffer_cache m =
    available_bytes mode include_buffer_cache m /64 1024 /64 1024
    -64 reserved_size (int64 (pos m.total)) percent reserve

-- The error is logged, and its size is 0.
unfoldable pub calculate_mem_size : String → ℤ → ℤ → Bool → Result VirtualMemory → ℤ × ℤ
calculate_mem_size mode percent reserve include_buffer_cache (value m) =
    (int64 (pos m.total) /64 1024 /64 1024, expect_size mode percent reserve include_buffer_cache m)
calculate_mem_size mode percent reserve include_buffer_cache (failure x) = (pos 0, pos 0)

-- `append(buf, make([]Block, n)...)`
abbrev append_blocks : (ℕ → ℕ → ℕ) → ℕ → Buffer → Buffer
append_blocks grow n b = record {
  len = b.len + n;
  cap = if leb (b.len + n) b.cap then b.cap else grow b.cap (b.len + n);
}

-- A buffer without the room, that would become too large when it grows, is left and a new one
-- begun.
abbrev pub is_full : ℕ → ℤ → Buffer → Bool
is_full n expect_mem b =
    ltb (b.cap - b.len) n && not (ltb_ℤ (pos (b.cap + b.cap / 4)) (pos 8 *64 expect_mem))

unfoldable add_blocks : (ℕ → ℕ → ℕ) → ℕ → ℤ → Cache → Cache
add_blocks grow n expect_mem c =
    if is_full n expect_mem c.current
    then record {
      current = append_blocks grow n (record { len = 0; cap = 0 });
      full = c.current ∷ c.full;
    }
    else record { current = append_blocks grow n c.current; full = c.full }

-- `fillMem`: what one tick adds, in MiB; 0 for a tick that adds nothing.
unfoldable pub fill_mem : ℤ → ℤ → ℤ
fill_mem mem_rate expect_mem =
    if not (ltb_ℤ (pos 0) expect_mem)
    then pos 0
    else if ltb_ℤ mem_rate expect_mem
    then mem_rate
    else expect_mem /64 10

unfoldable pub rate_or_100 : ℤ → ℤ
rate_or_100 mem_rate = if ltb_ℤ (pos 0) mem_rate then mem_rate else pos 100

module _ {W : Type 0} (machine : Machine W) where
  -- `make` of a negative size panics.
  unfoldable append_fill : ℤ → ℤ → Cache → Exec W String Cache
  unfolding add_blocks
  append_fill (pos n) expect_mem c w =
      (ok (add_blocks machine.grow n expect_mem c), machine.hold_blocks n w)
  append_fill (negsuc n) expect_mem c w = (panic, w)

  unfoldable fill : ℤ → ℤ → Cache → Exec W String Cache
  unfolding append_fill
  fill amount expect_mem c =
      if is_zero amount then pure c else append_fill (pos 8 *64 amount) expect_mem c

  unfoldable tick_sampled :
      String → ℤ → ℤ → ℤ → Cache → Result VirtualMemory × W → Flow String Cache × W
  unfolding fill
  tick_sampled mode percent reserve mem_rate c (sample, w) =
      let expect_mem = (calculate_mem_size mode percent reserve true sample).1 in
      fill (fill_mem mem_rate expect_mem) expect_mem c w

  -- One second of the loop.
  unfoldable pub tick : String → ℤ → ℤ → ℤ → Cache → Exec W String Cache
  unfolding tick_sampled fill append_fill add_blocks
  tick mode percent reserve mem_rate c w =
      tick_sampled mode percent reserve mem_rate c (machine.virtual_memory w)

  -- The ticks before the context is done.
  unfoldable pub ticks : ℕ → String → ℤ → ℤ → ℤ → Cache → Exec W String Cache
  ticks zero mode percent reserve mem_rate c = pure c
  ticks (suc n) mode percent reserve mem_rate c = do
    filled ← tick mode percent reserve mem_rate c
    ticks n mode percent reserve mem_rate filled

abbrev pub empty_cache : Cache
empty_cache = record { current = record { len = 0; cap = 0 }; full = [] }
