-- ===== src/Web/Upkeep.antt =====
-- web/handler/ping.go, uninstallAgent.go and updateApplication.go: the requests that concern the
-- agent itself.
pub mod Recorded
use winchaos.Base.{String, true, ◌==◌, ◌||◌, not, [], ◌∷◌, if◌then◌else◌}
use winchaos.Base.Dict.{Dict, get}
use winchaos.Base.Exec.{Flow, ok, err, panic, no_fuel, Outcome, returned, panicked, exhausted}
use winchaos.Options.{Options}
use winchaos.Tools.KeyFile.{Files, record_application_to_file}
use winchaos.Transport.Request.{Request}
use winchaos.Transport.Response.{
  Response, text, return_fail, return_success, server_error, ctl_file_not_found, ctl_exec_failed,
}
use winchaos.Transport.Client.{Agent}
use winchaos.Bash.{Shell, Ran, is_exist, exec_script}

unfoldable pub ping : {W : Type 0} → Request → W → Outcome Response × W
ping request w = (returned return_success, w)

-- `ctl_path` is `options.CtlPathFunc()`.
unfoldable pub uninstall : {W : Type 0} → Shell W → String → Request → W → Outcome Response × W
uninstall shell ctl_path request w =
    let (r, w') = exec_script shell ctl_path "uninstall" w in
    if ctl_path == "" || not (is_exist (shell.stat ctl_path w))
    then (returned (return_fail ctl_file_not_found (text ctl_path ∷ [])), w)
    else if not r.success || not (r.err_msg == "")
    then (returned (return_fail ctl_exec_failed (text r.err_msg ∷ [])), w')
    else (returned return_success, w')

-- The value of a parameter, or what is there.
abbrev pub named_or : String → String → String
named_or old new = if new == "" then old else new

-- The options behind the two parameters.
unfoldable pub renamed : Dict String → Options → Options
renamed params opts = record opts {
  application_instance = named_or opts.application_instance (get "appInstance" params);
  application_group = named_or opts.application_group (get "appGroup" params);
}

module _ {X : Type 0} (files : Files X) where
  unfoldable answer_record : Agent X → Flow String Unit × X → Outcome Response × Agent X
  answer_record s (ok done, x) = (returned return_success, record s { outside = x })
  answer_record s (err e, x) = (
    returned (return_fail server_error (text "record application info to local file failed" ∷ [])),
    record s { outside = x },
  )
  answer_record s (panic, x) = (panicked, record s { outside = x })
  answer_record s (no_fuel, x) = (exhausted, record s { outside = x })

  unfoldable pub update_application : Request → Agent X → Outcome Response × Agent X
  unfolding answer_record
  update_application request s =
      let opts = renamed request.params s.opts in
      answer_record (record s { opts = opts })
        (record_application_to_file files opts.application_instance opts.application_group true
          s.outside)
