-- ===== src/Log.antt =====
-- pkg/log/log.go: what the log is set up with.
use winchaos.Base.{ℕ, String, Option, none, some, ◌==◌, if◌then◌else◌}
use winchaos.Base.Exec.{ok, Exec, pure, ◌>>=◌}
use winchaos.Options.{LogConfig}
use winchaos.Tools.Directories.{Paths, Disk, get_agent_log_file_path}

-- The level of the log, by its name, and where the log goes; a log that is not set goes where it
-- did.
pub data Output : Type 0 where
  rotated : (filename : String) → (max_size : ℕ) → (max_backups : ℕ) → (max_age : ℕ) → Output
  stdout : Output
  unset : Output

pub record Setup (L : Type 0) : Type 0 where
  pub level : L
  pub output : Output

-- `logrus.ParseLevel`, and `logrus.InfoLevel`.
abbrev level_or : {L : Type 0} → L → Option L → L
level_or info none = info
level_or info (some level) = level

module _ {L W : Type 0} (parse_level : String → Option L) (info : L) (disk : Disk W) where
  -- An early end is that of the process, where the path of the program is not found.
  unfoldable pub init_log : LogConfig → Exec (Paths × W) Unit (Setup L)
  unfolding get_agent_log_file_path
  init_log cfg s =
      let level = level_or info (parse_level cfg.level) in
      if cfg.log_output == "file"
      then (do
        file_name ← get_agent_log_file_path disk
        pure record {
          level = level;
          output = rotated file_name cfg.max_file_size cfg.max_file_count 2;
        })
          s
      else if cfg.log_output == "stdout"
      then (ok record { level = level; output = stdout }, s)
      else (ok record { level = level; output = unset }, s)
