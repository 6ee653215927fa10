-- ===== src/Options/Blade.antt =====
-- pkg/options/bladeoptions.go: where the program blade is, and the version that it says it has.
pub mod Version
use winchaos.Base.{
  String, Bool, true, false, not, List, [], ◌∷◌, ◌⧺◌, if◌then◌else◌, split, has_prefix, trim_space,
}
use winchaos.Base.Exec.{Result, value, failure}
use winchaos.Bash.{Shell, Ran, is_exist, exec_script}
use winchaos.Cmdexec.Host.{Stat}

-- `BladeBinPath`, as `path.Join` makes it.
unfoldable pub blade_bin_path : Bool → String
blade_bin_path windows = if windows then "C:\\/chaosblade/blade" else "/opt/chaosblade/blade"

-- `CtlPathFunc`, of the directory of the program; `join` is `path.Join`.
unfoldable pub ctl_path : (String → String → String) → (String → Stat) → Result String → String
ctl_path join stat (failure x) = ""
ctl_path join stat (value dir) =
    if is_exist (stat (join dir "chaosctl.sh")) then join dir "chaosctl.sh" else ""

-- `strings.Split` with a separator returns at least one part.
abbrev pub first_part : List String → String
first_part [] = ""
first_part (p ∷ ps) = p

abbrev pub behind_colon : String → List String → Result String
behind_colon line (name ∷ version ∷ []) = value (trim_space version)
behind_colon line parts = failure ("parse version info error. " ⧺ line)

-- What is made of the text that blade prints.
unfoldable pub version_of : String → Result String
version_of result =
    let line = first_part (split b'\n' (trim_space result)) in
    if not (has_prefix "version" line)
    then failure ("cannot get version info from first line. " ⧺ result)
    else behind_colon line (split b':' line)

-- `errorf` is `fmt.Errorf` of a format without arguments.
module _ {W : Type 0} (shell : Shell W) (errorf : String → String) where
  unfoldable pub get_chaosblade_version : Bool → W → Result String × W
  get_chaosblade_version windows w =
      if not (is_exist (shell.stat (blade_bin_path windows) w))
      then (failure "blade bin file not exist", w)
      else (let (r, w') = exec_script shell (blade_bin_path windows) "version" w in
          (if r.success then version_of r.output else failure (errorf r.err_msg), w'))
