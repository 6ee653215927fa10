-- ===== src/Conn/Heartbeat.antt =====
-- conn/heartbeat/heartbeat.go: the heartbeats and the record of their results.
pub mod History
use winchaos.Base.{ℕ, zero, suc, String, Bool, true, false, List, [], ◌∷◌, if◌then◌else◌}
use winchaos.Base.Exec.{Flow, ok, err, panic, no_fuel, Exec, continue}
use winchaos.Options.{Options, app_instance_key_name, app_group_key_name}
use winchaos.Tools.LimitedList.{LimitedList, put}
use winchaos.Transport.Request.{Request, Uri, new_request, add_param}
use winchaos.Transport.Response.{Response}
use winchaos.Transport.Client.{Agent, Network, invoke_uri}
use winchaos.Conn.Connect.{uri_of}

unfoldable pub heartbeat_request : Options → Request
unfolding new_request add_param
heartbeat_request opts =
    let empty = new_request opts in
    let placed = if opts.external_ip_enable then add_param "ip" opts.ip empty else empty in
    add_param app_group_key_name opts.application_group
      (add_param app_instance_key_name opts.application_instance placed)

module _ {X : Type 0} (net : Network X) where
  -- What `record` puts into `HBSnapshotList`: whether the server answered with success.
  record_answer :
      LimitedList Bool
      → Flow String Response × Agent X
      → Flow String Unit × (LimitedList Bool × Agent X)
  unfolding put
  record_answer l (ok response, s) = (ok tt, (put response.success l, s))
  record_answer l (err x, s) = (ok tt, (put false l, s))
  record_answer l (panic, s) = (panic, (l, s))
  record_answer l (no_fuel, s) = (no_fuel, (l, s))

  unfoldable pub send_heartbeat : Uri → Request → Exec (LimitedList Bool × Agent X) String Unit
  unfolding record_answer
  send_heartbeat uri request (l, s) = record_answer l (invoke_uri net uri request true s)

  -- One round of the loop over the ticker.
  unfoldable pub beat : Exec (LimitedList Bool × Agent X) String Unit
  unfolding send_heartbeat heartbeat_request
  beat (l, s) = send_heartbeat (uri_of "heartbeat" s.opts) (heartbeat_request s.opts) (l, s)

  -- The loop, for a number of ticks.
  unfoldable pub beats : ℕ → Exec (LimitedList Bool × Agent X) String Unit
  unfolding beat
  beats zero st = (ok tt, st)
  beats (suc n) st = continue (beat st) (λ u. beats n)
