-- ===== src/Cmdexec/Host.antt =====
-- The operating system, the network and the libraries that the commands call: a parameter.
use winchaos.Base.{ℕ, String, List, Option, ◌≡◌, ℤ}
use winchaos.Base.Exec.{Result, Exec}
use winchaos.Data.Model.{ExperimentModel}

-- What `os.Stat` says of a path.
pub data Stat : Type 0 where
  present missing : Stat
  unknown : String → Stat

-- What `reader.Next()` yields before the end of an archive.
pub data TarItem : Type 0 where
  entry : String → ℕ → TarItem
  broken : String → TarItem

pub record Host (W : Type 0) : Type 0 where
  -- `util.GenerateUid` of chaosblade-spec-go
  pub generate_uid : Exec W String String
  -- `runtime.NumCPU()`
  pub num_cpu : ℤ
  -- A goroutine that runs `os.exe` of the working directory with these arguments.
  pub go_os_exe : List String → W → W
  -- `json.Unmarshal` into a `Cpuparam` and into a `MemParam`, with the `pid` of what it decodes;
  -- `none` for the text `null`
  pub unmarshal_cpu_pid : String → Result (Option String)
  pub unmarshal_mem_pid : String → Result (Option String)
  -- the text of an error of `strconv.Atoi`
  pub atoi_error : String → String
  pub find_process : ℤ → Exec W String ℤ
  pub kill : ℤ → Exec W String Unit
  pub remove_all : String → Exec W String Unit
  pub getwd : Exec W String String
  -- `time.Now().Unix()`, and `time.Now().Format(time.RFC3339Nano)`
  pub unix_time : W → ℕ
  pub now : W → String
  pub stat : String → W → Stat
  -- `filepath.Dir`
  pub dir_name : String → String
  pub mkdir_all : String → Exec W String Unit
  -- `http.Get`, with the body that is read from it
  pub http_get : String → Exec W String String
  -- `os.Create` and `os.OpenFile` for writing with a mode, and `io.Copy` into the file
  pub create : String → Exec W String Unit
  pub open_file : String → ℕ → Exec W String Unit
  pub copy_to : String → String → Exec W String Unit
  -- the items of a tar file, and the copy of one of them into a file
  pub open_tar : String → Exec W String (List TarItem)
  pub copy_item : String → String → Exec W String Unit
  -- the names in a directory, in the order of `ioutil.ReadDir`
  pub read_dir : String → Exec W String (List String)
  -- `exec.Command(name, args...).CombinedOutput()`
  pub combined_output : String → List String → Exec W String String
  -- whole seconds between two worlds
  pub seconds_since : W → W → ℕ
  -- `cmd.Process.Kill()`, with its error dropped
  pub kill_command : W → W
  -- `uint64(d.Seconds())` of `time.ParseDuration`, 0 for a text that is no duration
  pub duration_seconds : String → ℕ

-- What the commands rely on: none of these calls changes the experiment table.
pub record IsApart {W : Type 0} (h : Host W) (find : W → String → Option ExperimentModel)
    : Type 0 where
  pub generate_keeps : (w : W) (k : String) → find (h.generate_uid w).1 k ≡ find w k
  pub go_keeps : (args : List String) (w : W) (k : String) → find (h.go_os_exe args w) k ≡ find w k
  pub find_keeps : (n : ℤ) (w : W) (k : String) → find (h.find_process n w).1 k ≡ find w k
  pub kill_keeps : (n : ℤ) (w : W) (k : String) → find (h.kill n w).1 k ≡ find w k
  pub output_keeps :
      (name : String) (args : List String) (w : W) (k : String)
      → find (h.combined_output name args w).1 k ≡ find w k
  pub kill_command_keeps : (w : W) (k : String) → find (h.kill_command w) k ≡ find w k
  pub remove_keeps : (p : String) (w : W) (k : String) → find (h.remove_all p w).1 k ≡ find w k
  pub getwd_keeps : (w : W) (k : String) → find (h.getwd w).1 k ≡ find w k
  pub mkdir_keeps : (p : String) (w : W) (k : String) → find (h.mkdir_all p w).1 k ≡ find w k
  pub get_keeps : (url : String) (w : W) (k : String) → find (h.http_get url w).1 k ≡ find w k
  pub create_keeps : (p : String) (w : W) (k : String) → find (h.create p w).1 k ≡ find w k
  pub open_file_keeps :
      (p : String) (mode : ℕ) (w : W) (k : String) → find (h.open_file p mode w).1 k ≡ find w k
  pub copy_to_keeps :
      (p body : String) (w : W) (k : String) → find (h.copy_to p body w).1 k ≡ find w k
  pub open_tar_keeps : (p : String) (w : W) (k : String) → find (h.open_tar p w).1 k ≡ find w k
  pub copy_item_keeps :
      (p name : String) (w : W) (k : String) → find (h.copy_item p name w).1 k ≡ find w k
  pub read_dir_keeps : (p : String) (w : W) (k : String) → find (h.read_dir p w).1 k ≡ find w k
