-- ===== src/Web/Cache.antt =====
-- web/handler/chaosblade.go: the experiments that run, and the calls of the blade program that
-- start and stop them.
pub mod Running
use winchaos.Base.{
  ℕ, zero, suc, String, Char, code, Bool, true, false, not, ◌&&◌, ◌||◌, List, [], ◌∷◌, Option, none,
  some, ◌==◌, ◌⧺◌, ◌+◌, leb, if◌then◌else◌, any, contains, from_first, has_prefix, strip_prefix,
  fields, nat_eq,
}
use winchaos.Base.Dict.{Dict, insert, delete}
use winchaos.Base.Exec.{
  Flow, ok, err, panic, no_fuel, Result, value, failure, Exec, Outcome, pure, throw, crash,
  out_of_fuel, gets, on_err, run, ◌>>=◌, ◌>>◌,
}
use winchaos.Transport.Value.{Value, null, str, num, bool, arr, obj, model, models, Fields, field?}
use winchaos.Transport.Response.{
  Response, text, parameter_less, chaosblade_file_not_found, result_unmarshal_failed, server_error,
  return_fail,
}
use winchaos.Web.Blade.{
  Blade, is_create_or_prepare_cmd, is_destroy_or_revoke_cmd, is_revoke_operation,
  is_java_agent_install, is_async_create, equal_fold, Preparation, parse_result,
  query_preparation_status,
}

-- What a goroutine that is started will watch.
pub data Job : Type 0 where
  java_agent_status java_agent_uninstall_status async_status : String → Job

-- `ChaosbladeHandler`: the commands that run, by uid, and the goroutines, the last one first.
pub record Handler : Type 0 where
  pub running : Dict String
  pub jobs : List Job

abbrev is_empty {ℓ} : {A : Type ℓ} → List A → Bool
is_empty [] = true
is_empty (x ∷ xs) = false

module _ {W : Type 0} (blade : Blade W) where
  -- `handleCacheAndSafePoint`. The handler is shared state that goes along with the world; the
  -- goroutines that it starts are kept as jobs.
  abbrev starts : Job → Handler × W → Flow String Unit × (Handler × W)
  starts job (ch, w) = (ok tt, (record ch { jobs = job ∷ ch.jobs }, w))

  abbrev starts_if : Bool → Job → Exec (Handler × W) String Unit
  starts_if b job = if b then starts job else pure tt

  abbrev start_async : String → Option Bool → Exec (Handler × W) String Unit
  start_async uid none = crash
  start_async uid (some async) = starts_if async (async_status uid)

  remember : String → String → String → String → Exec (Handler × W) String Unit
  unfolding is_async_create
  remember cmdline command arg uid (ch, w) =
      (do
        starts_if (is_java_agent_install command arg) (java_agent_status uid)
        start_async uid (is_async_create (fields cmdline)))
        (record ch { running = insert uid cmdline ch.running }, w)

  -- The kind of agent that was taken off; a look-up that fails is logged.
  revoked : String → Handler → Flow String Preparation × W → Flow String Unit × (Handler × W)
  revoked uid ch (ok r, w) =
      starts_if (r.program_type == "jvm") (java_agent_uninstall_status uid) (ch, w)
  revoked uid ch (err x, w) = (ok tt, (ch, w))
  revoked uid ch (panic, w) = (panic, (ch, w))
  revoked uid ch (no_fuel, w) = (no_fuel, (ch, w))

  forget : String → String → Exec (Handler × W) String Unit
  unfolding revoked
  forget command uid (ch, w) =
      let ch' = record ch { running = delete uid ch.running } in
      if is_revoke_operation command
      then revoked uid ch' (query_preparation_status blade uid w)
      else (ok tt, (ch', w))

  unfoldable pub handle_cache_and_safe_point :
      String → String → String → Response → Exec (Handler × W) String Unit
  unfolding remember forget
  handle_cache_and_safe_point cmdline command arg response =
      if is_create_or_prepare_cmd command
      then elim response.result [ str uid ↦ remember cmdline command arg uid | _ ↦ crash ]
      else if is_destroy_or_revoke_cmd command
      then forget command arg
      else pure tt

  -- `deleteCallback`
  unfoldable pub delete_callback : String → String → Handler → Handler
  unfolding equal_fold
  delete_callback uid status ch =
      if equal_fold status "Error" then record ch { running = delete uid ch.running } else ch

  abbrev failed_run : String → String → Response
  failed_run result error_msg = elim (blade.unmarshal result) [
    | value r ↦ r
    | failure x ↦ return_fail result_unmarshal_failed (text result ∷ text error_msg ∷ [])
  ]

  -- `fields[1]` of a command of one word panics.
  succeeded_run : String → List String → Response → Exec (Handler × W) Response Response
  unfolding handle_cache_and_safe_point
  succeeded_run cmd words response = if not response.success then throw response else elim words [
    | command ∷ rest ↦ elim rest [
      | arg ∷ _ ↦ (do
        on_err (λ u. response) (handle_cache_and_safe_point cmd command arg response)
        pure response)
      | [] ↦ crash
    ]
    | [] ↦ crash
  ]

  exec_ended :
      String
      → List String
      → Handler
      → (String × String × Bool) × W
      → Flow Response Response × (Handler × W)
  unfolding succeeded_run
  exec_ended cmd words ch ((result, error_msg, true), w) =
      succeeded_run cmd words (parse_result blade result) (ch, w)
  exec_ended cmd words ch ((result, error_msg, false), w) =
      (ok (failed_run result error_msg), (ch, w))

  unfoldable pub exec : String → Handler × W → Outcome Response × (Handler × W)
  unfolding exec_ended fields
  exec cmd (ch, w) =
      run
        (λ s.
          if is_empty (fields cmd)
          then (err (return_fail parameter_less (text "command" ∷ [])), s)
          else if not (blade.is_exist s.1)
          then (err (return_fail chaosblade_file_not_found []), s)
          else exec_ended cmd (fields cmd) s.0 (blade.exec_script cmd s.1))
        (ch, w)
