-- ===== src/Conn/Report.antt =====
-- conn/asyncreport, conn/close: reports that are sent once, whose answers are logged.
pub mod Sent
use winchaos.Base.{String, ℤ, none, some, true, ◌==◌, if◌then◌else◌}
use winchaos.Base.Dict.{lookup}
use winchaos.Base.Decimal.{itoa}
use winchaos.Base.Exec.{Flow, ok, err, panic, no_fuel, Exec}
use winchaos.Transport.Request.{Request, Uri, new_request, add_param, init_transport_uri}
use winchaos.Transport.Response.{Response}
use winchaos.Transport.Client.{Agent, Network, invoke_uri}
use winchaos.Conn.Connect.{uri_of}

unfoldable pub status_request : String → String → String → String → Request → Request
unfolding add_param
status_request uid status error_msg tool_type r =
    let named = add_param "status" status (add_param "uid" uid r) in
    let explained = if error_msg == "" then named else add_param "error" error_msg named in
    if tool_type == "" then explained else add_param "ToolType" tool_type explained

module _ {X : Type 0} (net : Network X) where
  abbrev pub logged : Flow String Response × Agent X → Flow String Unit × Agent X
  logged (ok response, s) = (ok tt, s)
  logged (err x, s) = (ok tt, s)
  logged (panic, s) = (panic, s)
  logged (no_fuel, s) = (no_fuel, s)

  -- `ReportStatus`
  unfoldable pub report_status :
      String → String → String → String → Uri → Exec (Agent X) String Unit
  unfolding status_request new_request
  report_status uid status error_msg tool_type uri s = logged (
      invoke_uri net uri (status_request uid status error_msg tool_type (new_request s.opts)) true
        s)

  -- `Shutdown` of conn/close/closer.go, without its wait.
  unfoldable pub shutdown : Exec (Agent X) String Unit
  unfolding new_request
  shutdown s = logged (invoke_uri net (uri_of "close" s.opts) (new_request s.opts) true s)

  -- `Callback` of conn/callback/callback.go, with the status as it is printed.
  unfoldable pub callback_request :
      String → String → String → String → String → String → Request → Request
  callback_request status old_version new_version curr_version message program_type r =
      add_param "type" program_type (
        add_param "message" message (
          add_param "status" status (
            add_param "currVersion" curr_version
              (add_param "newVersion" new_version (add_param "oldVersion" old_version r)))))

  unfoldable pub callback :
      ℤ → String → String → String → String → String → Exec (Agent X) String Unit
  unfolding callback_request
  callback status old_version new_version curr_version message program_type s =
      elim (lookup "upgradeCallback" (init_transport_uri s.opts)) [
        | none ↦ (ok tt, s)
        | some uri ↦ logged (
            invoke_uri net uri
              (callback_request (itoa status) old_version new_version curr_version message
                program_type (new_request s.opts))
              true s)
      ]
