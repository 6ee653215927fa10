-- ===== src/Tools/Directories.antt =====
-- pkg/tools/env.go: the directories of the agent, found once and kept.
pub mod Kept
use winchaos.Base.{String, Option, none, some, ◌==◌, if◌then◌else◌}
use winchaos.Base.Exec.{Result, value, failure, Flow, ok, err, panic, no_fuel, Exec, ◌>>=◌}
use winchaos.Bash.{is_exist}
use winchaos.Cmdexec.Host.{Stat}

-- The variables of the package; an empty one is not known yet.
pub record Paths : Type 0 where
  pub chaos_path : String
  pub metric_path : String
  pub agent_path : String
  pub log_file_path : String

-- The two directories that are made in that of the program.
pub data Slot : Type 0 where
  metric agent : Slot

unfoldable pub name_of : Slot → String
name_of metric = "metric"
name_of agent = "agent"

unfoldable pub get_slot : Slot → Paths → String
get_slot metric p = p.metric_path
get_slot agent p = p.agent_path

unfoldable pub put_slot : Slot → String → Paths → Paths
put_slot metric dir p = record p { metric_path = dir }
put_slot agent dir p = record p { agent_path = dir }

unfoldable pub set_chaos_path : String → Paths → Paths
set_chaos_path path p = record p { chaos_path = path }

-- The path of the program, `path.Join`, and the file system, of which two calls return an error or
-- none.
pub record Disk (W : Type 0) : Type 0 where
  pub program_dir : Result String
  pub join : String → String → String
  pub stat : String → W → Stat
  pub mkdir_all : String → W → Option String × W
  pub remove_all : String → W → Option String × W

-- An early end is that of the process, by `Fatalln`.
module _ {W : Type 0} (disk : Disk W) where
  abbrev State : Type 0
  State = Paths × W

  abbrev kept_dir : Paths → W → Result String → Flow Unit String × State
  kept_dir p w (value dir) = (ok dir, (record p { chaos_path = dir }, w))
  kept_dir p w (failure x) = (err tt, (p, w))

  unfoldable pub get_current_directory : Exec State Unit String
  get_current_directory (p, w) =
      if p.chaos_path == "" then kept_dir p w disk.program_dir else (ok p.chaos_path, (p, w))

  abbrev made : String → Paths → Option String × W → Flow Unit String × State
  made dir p (none, w) = (ok dir, (p, w))
  made dir p (some x, w) = (err tt, (p, w))

  -- A directory that is there, or is made now.
  unfoldable pub ensured : String → Exec State Unit String
  ensured dir (p, w) =
      if is_exist (disk.stat dir w) then (ok dir, (p, w)) else made dir p (disk.mkdir_all dir w)

  unfoldable pub found : Slot → Exec State Unit String
  found slot = do dir ← get_current_directory; ensured (disk.join dir (name_of slot))

  abbrev keep_found : Slot → Flow Unit String × State → Flow Unit String × State
  keep_found slot (ok dir, (p, w)) = (ok dir, (put_slot slot dir p, w))
  keep_found slot (err u, s) = (err u, s)
  keep_found slot (panic, s) = (panic, s)
  keep_found slot (no_fuel, s) = (no_fuel, s)

  -- `GetMetricDirectory` and `GetAgentDirectory`
  unfoldable pub get_directory : Slot → Exec State Unit String
  get_directory slot (p, w) =
      if get_slot slot p == ""
      then keep_found slot (found slot (p, w))
      else (ok (get_slot slot p), (p, w))

  abbrev cleared : Paths → Option String × W → Flow Unit (Option String) × State
  cleared p (none, w) = (ok none, (put_slot metric "" p, w))
  cleared p (some x, w) = (ok (some x), (p, w))

  unfoldable pub clear_metric_directory : Exec State Unit (Option String)
  clear_metric_directory = do dir ← get_directory metric; λ s. cleared s.0 (disk.remove_all dir s.1)

  unfoldable pub get_agent_log_file_path : Exec State Unit String
  get_agent_log_file_path (p, w) =
      if p.log_file_path == ""
      then (do
        dir ← get_current_directory
        λ s. (
          ok (disk.join dir "agent.log"),
          (record (s.0) { log_file_path = disk.join dir "agent.log" }, s.1),
        ))
          (p, w)
      else (ok p.log_file_path, (p, w))
