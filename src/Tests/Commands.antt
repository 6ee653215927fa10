-- ===== src/Tests/Commands.antt =====
-- Commands on the table in memory.
use winchaos.Data.Engine.{values}
use winchaos.Cmdexec.Script.Files.{list_dir, un_tar, download_file, is_exist_dir}
use winchaos.Base.Decimal.{itoa_ℕ, atoi}
use winchaos.Base.{String, [], ◌∷◌, none, some, ◌≡◌, refl, inl, inr, ◌⊎◌, pos, join}
use winchaos.Base.Exec.{ok}
use winchaos.Data.Model.{ExperimentModel, find_uid, rows_of}
use winchaos.Data.Experiment.{source}
use winchaos.Transport.Response.{return_success}
use winchaos.Cmdexec.Status.{destroyed}
use winchaos.Cmdexec.Uid.{generate_uid, generate_uid_total}
use winchaos.Cmdexec.Cpu.{Cpuparam, cpu_resolver}
use winchaos.Cmdexec.Mem.{MemParam, mem_resolver}
use winchaos.Cmdexec.Destroy.{undo, destroy_experiment}
use winchaos.Cmdexec.Destroy.Marking.{Marks, Leaves}
use winchaos.Cmdexec.Destroy.Effects.{destroy_experiment_destroys}
use winchaos.Cmdexec.Script.{command_line, exec_script}
use winchaos.Cmdexec.Script.Recorded.{Recorded}
use winchaos.Cmdexec.Script.Whole.{exec_script_records}
use winchaos.Tests.World.{
  World, memory, memory-IsSource, host, host-IsApart, find, world, busy, over,
}

abbrev after_destroy : World
after_destroy = (destroy_experiment host memory "1" world).1

destroy_experiment_destroys_example :
    (m : ExperimentModel) × (find world "1" ≡ some m)
    × ((m.status ≡ destroyed)
        ⊎ (Marks memory find "1" world
              (undo host memory "1" m (memory.query_experiment_model_by_uid "1" world).1).1
              after_destroy
            × Leaves memory find "1" world after_destroy))
unfolding destroy_experiment source rows_of atoi return_success
destroy_experiment_destroys_example =
    destroy_experiment_destroys host memory find host-IsApart memory-IsSource "1" world
      after_destroy {a = return_success} refl refl

abbrev pub full_load : Cpuparam
full_load = record {
  cmt = "fullload";
  cpu_count = pos 9;
  cpu_percent = pos 50;
  timeout = pos 0;
  pid = "";
}

abbrev pub after_start : World
after_start = (cpu_resolver host memory 5 (some full_load) world).1

abbrev pub half_ram : MemParam
half_ram = record { cmt = "load"; mode = ""; mem_percent = pos 50; timeout = pos 30; pid = "" }

abbrev pub after_load : World
after_load = (mem_resolver host memory 5 half_ram world).1

-- The uids 1 and 2 are taken.
generate_uid_total_example :
    (uid : String) × ((generate_uid host memory 3 world).0 ≡ ok uid)
    × (find world uid ≡ none)
    × ((k : String) → find (generate_uid host memory 3 world).1 k ≡ find world k)
    × (generate_uid host memory 8 world ≡ generate_uid host memory 3 world)
unfolding source itoa_ℕ rows_of
generate_uid_total_example =
    generate_uid_total host memory find host-IsApart memory-IsSource 3 5 world (
      "1",
      refl,
      (
        some busy,
        refl,
        inr ("2", refl, (some over, refl, inr ("3", refl, (none, refl, inl refl)))),
      ),
    )

exec_script_records_example :
    Recorded host memory find "a,b" world
      (exec_script host memory 5 "http://h/blade/hello.tar" ("a" ∷ "b" ∷ []) "30" "" world)
unfolding join
exec_script_records_example =
    exec_script_records host memory find host-IsApart memory-IsSource 5 "http://h/blade/hello.tar"
      "30" "" ("a" ∷ "b" ∷ []) world

-- The script returns the first uid that is new.
exec_script_runs :
    (exec_script host memory 5 "http://h/blade/hello.tar" ("a" ∷ "b" ∷ []) "30" "" world).0 ≡ ok "3"
unfolding exec_script generate_uid source rows_of itoa_ℕ is_exist_dir download_file un_tar list_dir
    find_uid values command_line
exec_script_runs = refl
