-- ===== src/Tests/Burning.antt =====
-- Runs and tests of web/category.
use winchaos.Base.Int64.{◌-64◌, ◌+64◌}
use winchaos.Base.Decimal.{itoa_ℕ}
use winchaos.Cmdexec.Uid.{generate_uid}
use winchaos.Data.Engine.{values}
use winchaos.Data.Experiment.{source}
use winchaos.Base.{
  ℕ, String, Bool, List, [], ◌∷◌, ◌-◌, ◌*◌, ◌%◌, ◌^◌, ◌/◌, ◌≤◌, some, ◌≡◌, refl, ℤ, pos, ◌≤ℤ◌, ◌==◌,
  if◌then◌else◌, negsuc, max_int64, ◌⊎◌, arith, inl,
}
use winchaos.Base.Exec.{value, ok}
use winchaos.Data.Model.{rows_of, find_uid, with_status}
use winchaos.Transport.Value.{str}
use winchaos.Transport.Response.{return_success_with_result}
use winchaos.Cmdexec.Cpu.{cpu_resolver, timeout_or_60}
use winchaos.Cmdexec.Mem.{mem_resolver}
use winchaos.Category.Cpu.{turn, go_on, turns, Turn, quota, pass, burn, sleep_of}
use winchaos.Category.Cpu.Quota.{burn_stays_in_range}
use winchaos.Category.Memory.{Machine, VirtualMemory, Cache, tick, block}
use winchaos.Category.Memory.Target.{goal}
use winchaos.Category.Memory.Bounds.{Placed, Takes, tick_fills}
use winchaos.Category.Memory.Calm.{IsCalm}
use winchaos.Category.Memory.Run.{Process, created_model, mem_run}
use winchaos.Category.Memory.Settled.{mem_run_settles}
use winchaos.Category.Event.{run_cpu, run_mem, main}
use winchaos.Category.Event.Started.{cpu_resolver_runs, mem_resolver_runs}
use winchaos.Category.Cpu.Destroyed.{Ends, destroy_experiment-cpu_run}
use winchaos.Cmdexec.Destroy.{destroy_experiment}
use winchaos.Category.Cpu.{cpu_run}
use winchaos.Cmdexec.Host.{Host}
use winchaos.Data.Experiment.{source}
use winchaos.Data.Model.{rows_of, find_uid}
use winchaos.Tests.World.{World, host, memory, find, world, host-IsApart, memory-IsSource}
use winchaos.Tests.Commands.{full_load, after_start, half_ram, after_load}

-- Blocks are taken from the free memory; a buffer grows to what is needed.
abbrev free : World → ℕ
free w = w.free_memory % 2 ^ 40

abbrev machine : Machine World
machine = record {
  virtual_memory = λ w.
      (value (record { total = 4000 * 1024 * 1024; free = free w; buffers = 0; cached = 0 }), w);
  hold_blocks = λ n w. record w { free_memory = free w - n * block };
  grow = λ cap needed. needed;
}

machine-IsCalm : IsCalm host machine find (pos 7)
machine-IsCalm = record {
  reads_keep = λ w k. refl;
  holds_keep = λ n w k. refl;
  finds = λ w. (pos 7, refl);
  kills = λ handle w. inl refl;
}

abbrev sample : VirtualMemory
sample = record { total = 4000 * 1024 * 1024; free = free world; buffers = 0; cached = 0 }

-- A current buffer with some room.
abbrev begun : Cache
begun = record { current = record { len = 100; cap = 128 }; full = [] }

tick_fills_example :
    let missing = free world / 1024 / 1024 - goal (4000 * 1024 * 1024) 50 in
    let r = tick machine "ram" (pos 50) (pos 0) (pos 100) begun world in
    (added : ℕ) × (c : Cache) × (r.0 ≡ ok c)
    × (added ≤ missing)
    × (added ≤ 100)
    × (10 ≤ missing → 1 ≤ added)
    × Placed (8 * added) missing begun c
    × Takes machine added world r.1
tick_fills_example =
    tick_fills machine "ram" 50 (pos 0) 100 begun world sample refl (omega arith) (omega arith)
      (omega arith) (omega arith) (omega arith) (omega arith)

abbrev process : Process
process = record { getpid = pos 7; marshal = λ p. value p.uid }

mem_run_settles_example :
    let created = created_model "9" "9" "2024-01-01T00:00:00Z" in
    let r = mem_run host memory process machine 60 (pos 50) "ram" "9" world in
    (over : Bool) × (r.0 ≡ ok over)
    × (t : String) × ((k : String)
        → find r.1 k
          ≡ (if "9" == k then some (with_status "Success" "" t created) else find world k))
unfolding source find_uid values
mem_run_settles_example =
    mem_run_settles host memory process machine find host-IsApart memory-IsSource machine-IsCalm
      (λ u s x w. refl) 60 (pos 50) "ram" "9" "9" world refl refl

cpu_resolver_runs_example :
    (args : List String) × (before : World) × (count : ℤ) × (percent : ℤ) × (uid : String)
    × (after_start ≡ host.go_os_exe args before)
    × (main args ≡ some (run_cpu count percent uid (timeout_or_60 full_load.timeout)))
    × (return_success_with_result (str "3") ≡ return_success_with_result (str uid))
    × (pos 1 ≤ℤ percent)
    × (percent ≤ℤ pos 100)
    × (pos 1 ≤ℤ count)
    × (count ≤ℤ host.num_cpu)
unfolding cpu_resolver generate_uid source rows_of itoa_ℕ return_success_with_result
cpu_resolver_runs_example =
    cpu_resolver_runs host memory find host-IsApart memory-IsSource 5 full_load world after_start
      (omega arith) (omega arith, omega arith) (omega arith, omega arith) refl refl

mem_resolver_runs_example :
    (args : List String) × (before : World) × (percent : ℤ) × (mode : String) × (uid : String)
    × (after_load ≡ host.go_os_exe args before)
    × (main args ≡ some (run_mem percent mode uid (timeout_or_60 half_ram.timeout)))
    × (return_success_with_result (str "3") ≡ return_success_with_result (str uid))
    × (pos 1 ≤ℤ percent)
    × (percent ≤ℤ pos 100)
    × (mode ≡ (if half_ram.mode == "" then "ram" else half_ram.mode))
unfolding mem_resolver generate_uid source rows_of itoa_ℕ return_success_with_result
mem_resolver_runs_example =
    mem_resolver_runs host memory find host-IsApart memory-IsSource 5 half_ram world after_load
      (omega arith, omega arith) refl refl

abbrev offsets : List Turn
offsets = quota (negsuc 799999999) ∷ pass 3 3 ∷ quota (pos 300000000) ∷ pass 58 2 ∷ []

burn_stays_in_range_example :
    ((pos 300000000 ≡ pos 600000000) ⊎ ((pos 0 ≤ℤ pos 300000000) × (pos 300000000 ≤ℤ max_int64)))
    × (pos 400000000 ≡ sleep_of (pos 600000000))
    × (pos 0 ≤ℤ pos 400000000)
unfolding burn turns go_on turn ◌+64◌ sleep_of ◌-64◌
burn_stays_in_range_example = burn_stays_in_range host memory "3" offsets (pos 600000000) world refl

-- A machine whose JSON of the parameters is their process id.
abbrev coded_host : Host World
coded_host = record host { unmarshal_cpu_pid = λ flag. value (some flag) }

abbrev burning : World
burning = (cpu_run coded_host memory (λ p. p.pid) (pos 4711) (pos 2) (pos 60) "7" world).1

destroy_experiment-cpu_run_example :
    Ends coded_host memory "7"
      (coded_host.find_process (pos 4711) burning)
      (destroy_experiment coded_host memory "7" burning)
unfolding source find_uid values cpu_run rows_of
destroy_experiment-cpu_run_example =
    destroy_experiment-cpu_run coded_host memory find memory-IsSource (λ p. p.pid) (λ p. refl)
      (pos 4711) (pos 2) (pos 60) "7" world (omega arith) (omega arith) refl burning "Created" ""
      "2024-01-01T00:00:00Z" {found = find burning "7"} refl refl refl
