-- ===== src/Conn/Report/Sent.antt =====
-- conn/asyncreport: a report comes back, whatever the server answers.
use winchaos.Base.{String, true, ◌≡◌, refl}
use winchaos.Base.Exec.{Flow, ok, err, panic, no_fuel}
use winchaos.Transport.Request.{Uri, new_request}
use winchaos.Transport.Response.{Response}
use winchaos.Transport.Client.{Agent, Network, invoke_uri}
use winchaos.Transport.Client.Returns.{Returns, invoke_uri-Returns}
use winchaos.Conn.Report.{logged, status_request, report_status}

module _ {X : Type 0} (net : Network X) where
  logged-ok : (r : Flow String Response × Agent X) → Returns r → (logged net r).0 ≡ ok tt
  logged-ok (ok response, s) h = refl
  logged-ok (err x, s) h = refl
  logged-ok (panic, s) h = absurd h
  logged-ok (no_fuel, s) h = absurd h

  pub report_status-ok :
      (uid status error_msg tool_type : String) (uri : Uri) (s : Agent X)
      → (report_status net uid status error_msg tool_type uri s).0 ≡ ok tt
  unfolding report_status
  report_status-ok uid status error_msg tool_type uri s =
      let request = status_request uid status error_msg tool_type (new_request s.opts) in
      logged-ok (invoke_uri net uri request true s) (invoke_uri-Returns net uri request true s)
