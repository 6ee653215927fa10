-- ===== src/Web/Dispatch.antt =====
-- web/handler/chaosblade.go: `Handle`, which sends a command to its kind of experiment.
pub mod Routes
pub mod Kinds
pub mod Framed
pub mod Lasting
use winchaos.Base.{
  ℕ, String, Bool, true, false, not, ◌&&◌, List, [], ◌∷◌, Option, none, some, ◌==◌, ◌⧺◌,
  if◌then◌else◌, ℤ, split, contains,
}
use winchaos.Base.Decimal.{atoi, parse_uint64}
use winchaos.Base.Dict.{Dict, get}
use winchaos.Base.Exec.{Outcome, returned, panicked}
use winchaos.Data.Source.{SourceI}
use winchaos.Transport.Request.{Request}
use winchaos.Transport.Response.{
  Response, text, texts, parameter_empty, parameter_type_error, chaosblade_type_error, return_fail,
}
use winchaos.Cmdexec.Host.{Host}
use winchaos.Cmdexec.Cpu.{Cpuparam, cpu_resolver}
use winchaos.Cmdexec.Mem.{MemParam, mem_resolver}
use winchaos.Cmdexec.Script.{script}
use winchaos.Cmdexec.Destroy.{destroy_experiment}
use winchaos.Cmdexec.Status.{StatusCommand, search_experiments}

-- The kinds of web/category/enumerate.go that are handled; a kind that is no text of theirs is
-- `other`.
pub data Kind : Type 0 where
  cpu mem script_kind destroy status : Kind
  other : String → Kind

unfoldable pub kind_of : String → Kind
kind_of name =
    if name == "cpu"
    then cpu
    else if name == "mem"
    then mem
    else if name == "script"
    then script_kind
    else if name == "destroy"
    then destroy
    else if name == "status"
    then status
    else other name

abbrev pub first : List String → String
first [] = ""
first (v ∷ vs) = v

-- `cmdVals[1]`
abbrev pub second? : List String → Option String
second? (_ ∷ v ∷ _) = some v
second? _ = none

abbrev pub or_empty : Option String → String
or_empty none = ""
or_empty (some v) = v

-- `cmdVals` and `firstCmd`: a command that contains `destroy` somewhere is one.
unfoldable pub command_parts : Dict String → List String × String
unfolding get contains split
command_parts params =
    let cmd2 = get "cmd2" params in
    if contains "destroy" (get "cmd" params)
    then ([], "destroy")
    else if cmd2 == ""
    then ([], "")
    else (split b'-' cmd2, first (split b'-' cmd2))

-- A timeout that is neither a number nor a duration, with the text of the last error.
abbrev pub timeout_error : (String → Option String) → String → Option String
timeout_error duration_error t = elim (parse_uint64 t) [
  | some n ↦ none
  | none ↦ if t == "" then none else duration_error t
]

module _ {W : Type 0} (host : Host W) (ds : SourceI W)
    -- the text of an error of `time.ParseDuration`
    (duration_error : String → Option String) where
  abbrev pub reply : Response → W → Outcome Response × W
  reply r w = (returned r, w)

  unfoldable pub handle_cpu : ℕ → Dict String → List String → W → Outcome Response × W
  unfolding get
  handle_cpu fuel params vals = elim (second? vals) [
    | none ↦
        reply (
          return_fail parameter_type_error (texts vals ∷ text "blade CPU type is not  exist " ∷ []))
    | some v1 ↦ cpu_resolver host ds fuel (
        some record {
          cmt = v1;
          cpu_count = (atoi (get "cpu-count" params)).0;
          cpu_percent = (atoi (get "cpu-percent" params)).0;
          timeout = (atoi (get "timeOut" params)).0;
          pid = "";
        })
  ]

  -- There is no check that the kind of load is given.
  unfoldable pub handle_mem : ℕ → Dict String → List String → W → Outcome Response × W
  unfolding get
  handle_mem fuel params vals = elim (second? vals) [
    | none ↦ λ w. (panicked, w)
    | some v1 ↦ mem_resolver host ds fuel record {
      cmt = v1;
      mode = get "mode" params;
      mem_percent = (atoi (get "mem-percent" params)).0;
      timeout = (atoi (get "timeout" params)).0;
      pid = "";
    }
  ]

  abbrev run_timed :
      ℕ → String → String → List String → String → String → Option String → W → Outcome Response × W
  run_timed fuel sub url args timeout recover (some x) =
      reply (return_fail parameter_empty (text x ∷ []))
  run_timed fuel sub url args timeout recover none =
      script host ds fuel sub url args timeout recover

  unfoldable pub handle_script : ℕ → Dict String → List String → W → Outcome Response × W
  unfolding get split
  handle_script fuel params vals =
      let file_args = get "file-args" params in
      let args = if file_args == "" then [] else split b':' file_args in
      let url = get "downloadUrl" params in
      let timeout = get "timeout" params in
      if url == ""
      then reply (return_fail parameter_empty (text "downloadUrl" ∷ []))
      else run_timed fuel (or_empty (second? vals)) url args timeout (get "recover" params)
          (timeout_error duration_error timeout)

  -- The uid is the second word of the command, which need not have one.
  unfoldable pub handle_destroy : Dict String → W → Outcome Response × W
  unfolding get split
  handle_destroy params = elim (second? (split b' ' (get "cmd" params))) [
    | none ↦ λ w. (panicked, w)
    | some uid ↦ destroy_experiment host ds uid
  ]

  unfoldable pub handle_status : Dict String → W → Outcome Response × W
  unfolding get
  handle_status params =
      let limit = get "limit" params in
      search_experiments ds record {
        command_type = "status";
        uid = get "uid" params;
        limit = if limit == "" then "10" else limit;
        status = get "status" params;
        asc = get "asc" params;
      }

  unfoldable pub handle_kind : ℕ → Dict String → List String → Kind → W → Outcome Response × W
  unfolding handle_cpu handle_mem handle_script handle_destroy handle_status
  handle_kind fuel params vals cpu = handle_cpu fuel params vals
  handle_kind fuel params vals mem = handle_mem fuel params vals
  handle_kind fuel params vals script_kind = handle_script fuel params vals
  handle_kind fuel params vals destroy = handle_destroy params
  handle_kind fuel params vals status = handle_status params
  handle_kind fuel params vals (other name) =
      reply (return_fail chaosblade_type_error (text ("please check blade type: " ⧺ name) ∷ []))

  unfoldable pub handle : ℕ → Request → W → Outcome Response × W
  unfolding get command_parts kind_of handle_kind
  handle fuel request =
      let (vals, name) = command_parts request.params in
      if get "cmd" request.params == ""
      then reply (return_fail parameter_empty (text "cmd" ∷ []))
      else if name == ""
      then reply (return_fail parameter_empty (text "cmd2 is empty or parmas is error" ∷ []))
      else handle_kind fuel request.params vals (kind_of name)
