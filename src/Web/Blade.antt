-- ===== src/Web/Blade.antt =====
-- web/handler/chaosblade.go: the calls of the blade program, and the experiments that run.
pub mod Polling
use winchaos.Base.{
  ℕ, zero, suc, String, Char, code, Bool, true, false, not, ◌&&◌, ◌||◌, List, [], ◌∷◌, Option, none,
  some, ◌==◌, ◌⧺◌, ◌+◌, leb, if◌then◌else◌, any, contains, from_first, has_prefix, strip_prefix,
  fields, nat_eq,
}
use winchaos.Base.Dict.{Dict, insert, delete}
use winchaos.Base.Exec.{
  Flow, ok, err, panic, no_fuel, Result, value, failure, Exec, Outcome, pure, throw, crash,
  out_of_fuel, gets, on_err, run, ◌>>=◌, ◌>>◌,
}
use winchaos.Transport.Value.{Value, null, str, num, bool, arr, obj, model, models, Fields, field?}
use winchaos.Transport.Response.{
  Response, text, parameter_less, chaosblade_file_not_found, result_unmarshal_failed, server_error,
  return_fail,
}

-- The blade program, JSON and the timer: a parameter.
pub record Blade (W : Type 0) : Type 0 where
  -- `tools.IsExist(options.BladeBinPath())`
  pub is_exist : W → Bool
  -- `bash.ExecScript` of the program: its output and the text of an error, and whether it succeeded
  pub exec_script : String → W → (String × String × Bool) × W
  -- `json.Unmarshal` into a new response
  pub unmarshal : String → Result Response
  -- `fmt.Sprintf("%v", v)`
  pub show : Value → String
  -- the wait for the next tick, and whether the minute is over
  pub tick : W → W
  pub is_done : W → Bool

-- pkg/options/chaostoolsoptions.go: the words of the commands.
abbrev pub one_of : String → String → String → Bool
one_of long short command = command == long || command == short

abbrev pub is_prepare : String → Bool
is_prepare = one_of "prepare" "p"

abbrev pub is_create : String → Bool
is_create = one_of "create" "c"

abbrev pub is_revoke_operation : String → Bool
is_revoke_operation = one_of "revoke" "r"

abbrev pub is_destroy : String → Bool
is_destroy = one_of "destroy" "d"

abbrev pub is_create_or_prepare_cmd : String → Bool
is_create_or_prepare_cmd command = is_prepare command || is_create command

abbrev pub is_destroy_or_revoke_cmd : String → Bool
is_destroy_or_revoke_cmd command = is_revoke_operation command || is_destroy command

abbrev pub is_java_agent_install : String → String → Bool
is_java_agent_install command agent_type = is_prepare command && agent_type == "jvm"

abbrev is_async_flag : String → Bool
is_async_flag v = elim (strip_prefix "--" v) [ none ↦ false | some name ↦ one_of "async" "a" name ]

-- `none` where the command has no word and `cmds[0]` panics.
unfoldable pub is_async_create : List String → Option Bool
unfolding strip_prefix
is_async_create [] = none
is_async_create (c ∷ words) = some (is_create c && any is_async_flag (c ∷ words))

-- `strings.EqualFold` with a text of ASCII letters other than `k` and `s`, which no other character
-- folds to.
abbrev lower : ℕ → ℕ
lower n = if leb b'A' n && leb n b'Z' then n + 32 else n

unfoldable pub equal_fold : String → String → Bool
equal_fold String.[] String.[] = true
equal_fold String.[] (String.◌∷◌ d t) = false
equal_fold (String.◌∷◌ c s) String.[] = false
equal_fold (String.◌∷◌ c s) (String.◌∷◌ d t) =
    nat_eq (lower (code c)) (lower (code d)) && equal_fold s t

pub record Preparation : Type 0 where
  pub uid : String
  pub program_type : String
  pub status : String
  pub error : String

-- A field that is there is a text, or its assertion panics.
abbrev pub text_field : String → Fields → Option String
text_field key fields = elim (field? key fields) [
  | none ↦ some ""
  | some (str s) ↦ some s
  | some _ ↦ none
]

module _ {W : Type 0} (blade : Blade W) where
  abbrev server_failure : String → String → Response
  server_failure what result = return_fail server_error (text (what ⧺ result) ∷ [])

  abbrev reparsed : String → Option String → Response
  reparsed result none = server_failure "execute success, but parse result err, result: " result
  reparsed result (some rest) = elim (blade.unmarshal rest) [
    | value r ↦ r
    | failure _ ↦
        server_failure "execute success, but unmarshal result err with parsing, result: " rest
  ]

  -- A first line of the shell in front of the JSON text is skipped.
  unfoldable pub parse_result : String → Response
  unfolding contains from_first
  parse_result result = elim (blade.unmarshal result) [
    | value r ↦ r
    | failure _ ↦
        if not (contains "getcwd: cannot access parent directories" result)
        then server_failure "execute success, but unmarshal result err, result: " result
        else reparsed result (from_first "{" result)
  ]

  abbrev filled : String → Option String → Option String → Option String → Exec W String Preparation
  filled uid (some p) (some s) (some x) =
      pure (record { uid = uid; program_type = p; status = s; error = x })
  filled uid _ _ _ = crash

  preparation_of : String → Value → Exec W String Preparation
  unfolding field?
  preparation_of uid null = throw "cannot get record"
  preparation_of uid (obj fs) =
      filled uid (text_field "ProgramType" fs) (text_field "Status" fs) (text_field "Error" fs)
  preparation_of uid v = throw ("unknown type of response, " ⧺ blade.show v)

  answered : String → (String × String × Bool) × W → Flow String Preparation × W
  unfolding parse_result preparation_of
  answered uid ((result, error_msg, false), w) = (err ("invoke blade error, " ⧺ error_msg), w)
  answered uid ((result, error_msg, true), w) = preparation_of uid (parse_result result).result w

  unfoldable pub query_preparation_status : String → Exec W String Preparation
  unfolding answered
  query_preparation_status uid w = answered uid (blade.exec_script ("status " ⧺ uid) w)

  -- What one look at the status says: to go on with what is known, or to stop with it.
  abbrev watched :
      String
      → String
      → (String → String → Exec W Unit (String × String))
      → Flow String Preparation × W
      → Flow Unit (String × String) × W
  watched status error_msg again (ok r, w) =
      if equal_fold r.status "Created"
      then again r.status error_msg w
      else (ok (r.status, if equal_fold r.status "Error" then r.error else error_msg), w)
  watched status error_msg again (err x, w) = again status error_msg w
  watched status error_msg again (panic, w) = (panic, w)
  watched status error_msg again (no_fuel, w) = (no_fuel, w)

  -- The loop over the ticks; the fuel counts them.
  unfoldable pub timing_check_status : ℕ → String → String → String → Exec W Unit (String × String)
  unfolding equal_fold
  timing_check_status zero uid status error_msg w = (no_fuel, w)
  timing_check_status (suc fuel) uid status error_msg w =
      let ticked = blade.tick w in
      if blade.is_done ticked
      then (ok (status, error_msg), ticked)
      else watched status error_msg (timing_check_status fuel uid)
          (query_preparation_status uid ticked)
