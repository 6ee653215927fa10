-- ===== src/Bash.antt =====
-- pkg/bash/bash.go: the commands of a shell. The build is the one for Windows.
use winchaos.Base.{
  String, Bool, true, false, List, [], ◌∷◌, Option, none, some, ◌⧺◌, if◌then◌else◌, from_first,
}
use winchaos.Base.Exec.{Result, value, failure}
use winchaos.Cmdexec.Host.{Stat, present, missing, unknown}

-- `os.Stat`, and a command with what it printed, its error and the world behind it.
pub record Shell (W : Type 0) : Type 0 where
  pub stat : String → W → Stat
  pub combined_output : String → List String → W → (String × Option String) × W

-- pkg/tools/file.go: `IsExist`. No error of `os.Stat` says that a file exists.
abbrev pub is_exist : Stat → Bool
is_exist present = true
is_exist missing = false
is_exist (unknown x) = false

-- The output, the message of an error, and whether it is a success.
pub record Ran : Type 0 where
  pub output : String
  pub err_msg : String
  pub success : Bool

abbrev ran : String × Option String → Ran
ran (output, none) = record { output = output; err_msg = ""; success = true }
ran (output, some x) = record { output = output; err_msg = x; success = false }

module _ {W : Type 0} (shell : Shell W) where
  unfoldable pub exec_script : String → String → W → Ran × W
  exec_script script args w =
      if is_exist (shell.stat script w)
      then (let (result, w') =
            shell.combined_output "cmd.exe" ("/c" ∷ (script ⧺ " " ⧺ args) ∷ []) w in
          (ran result, w'))
      else (record { output = ""; err_msg = script ⧺ " not found"; success = false }, w)

-- `exit_code` reads the JSON text: whether its field exitCode is the number 0.
module _ (exit_code : String → Result Bool) where
  abbrev result_code : String → Result Bool → String × Bool
  result_code result (value code) = (result, code)
  result_code result (failure x) = (result, false)

  abbrev result_from : String → Option String → String × Bool
  result_from result none = (result, false)
  result_from result (some json) = result_code json (exit_code json)

  unfoldable pub handle_os_agent_result : String → String × Bool
  handle_os_agent_result result = result_from result (from_first "{" result)

  unfoldable pub exec_os_agent_script :
      {W : Type 0} → Shell W → String → String → W → (String × Bool) × W
  exec_os_agent_script shell script args w =
      let (r, w') = exec_script shell script args w in
      (
        if r.success then handle_os_agent_result r.output else (r.output ⧺ " " ⧺ r.err_msg, false),
        w',
      )
