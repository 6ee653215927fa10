-- ===== src/Web/Reports/Once.antt =====
-- web/handler/chaosblade.go: a watched command is reported once, with the status that it settled
-- on.
use winchaos.Base.{
  ℕ, suc, String, Bool, true, false, ◌&&◌, none, ◌≡◌, refl, sym, ◌==◌, eq_iff, Bool-cases, ◌⊎◌, inl,
  inr, if◌then◌else◌, arith,
}
use winchaos.Base.Dict.{lookup, insert, get, lookup-delete}
use winchaos.Base.Exec.{Flow, ok, err, panic, no_fuel}
use winchaos.Options.{Options, program_name}
use winchaos.Transport.Response.{Response}
use winchaos.Transport.Request.{
  Request, Uri, new_request, new_uri, add_param, add_header, init_transport_uri,
}
use winchaos.Transport.Client.{Agent, Network, invoke_uri}
use winchaos.Conn.Connect.{uri_of}
use winchaos.Conn.Report.{logged, status_request, report_status}
use winchaos.Conn.Report.Sent.{report_status-ok}
use winchaos.Web.Blade.{Blade, equal_fold, timing_check_status}
use winchaos.Web.Blade.Polling.{IsTimer, Settled, timing_check_status_settles}
use winchaos.Web.Cache.{
  Handler, Job, java_agent_status, java_agent_uninstall_status, async_status, delete_callback,
}
use winchaos.Web.Reports.{
  uid_of, api_of, deletes, report_status_func, called_back, reported, put_beside, checked,
  check_and_report,
}

module _ {W X : Type 0} (blade : Blade W) (net : Network X) where
  reported-report_status :
      (job : Job) (status error_msg : String) (s : Agent X)
      → reported blade net job status error_msg s
        ≡ report_status net (uid_of job) status error_msg "" (uri_of (api_of job) s.opts) s
  unfolding reported report_status_func api_of init_transport_uri lookup
  reported-report_status (java_agent_status uid) status error_msg s = refl
  reported-report_status (java_agent_uninstall_status uid) status error_msg s = refl
  reported-report_status (async_status uid) status error_msg s = refl

  -- The uid that a goroutine watches, the handler of the server that it reports to, and whether it
  -- is the one of a java agent that was put on.
  abbrev pub job_of : Job → String × String × Bool
  job_of (java_agent_status uid) = (uid, "chaos/javaAgentInstall", true)
  job_of (java_agent_uninstall_status uid) = (uid, "chaos/javaAgentUninstall", false)
  job_of (async_status uid) = (uid, "chaos/chaosbladeAsync", false)

  -- The state behind one signed call of the handler of the server, with the headers of a new
  -- request, the uid, the status, and the error text if there is one.
  abbrev pub Sent : String → String → String → String → Agent X → Agent X → Type 0
  Sent uid handler status error_msg s s' =
      let uri : Uri = record {
        server_name = "Chaos";
        handler_name = handler;
        vpc_id = s.opts.vpc_id;
        ip = s.opts.ip;
        pid = s.opts.pid;
        tag = program_name;
        request_id = "";
        compress_version = "1";
      } in
      (request : Request) × (s' ≡ (invoke_uri net uri request true s).1)
      × (request.headers ≡ (new_request s.opts).headers)
      × (get "uid" request.params ≡ uid)
      × (get "status" request.params ≡ status)
      × (get "error" request.params ≡ error_msg)

  -- How the run ends, from how its watch does.
  abbrev pub Reports :
      Job
      → Handler
      → Agent X
      → Flow Unit (String × String) × W
      → Flow String Unit × ((Handler × W) × Agent X)
      → Type 0
  Reports job ch s watch r =
      ((watch.0 ≡ panic) × (r.0 ≡ panic) × (r.1.1 ≡ s))
      ⊎ ((status : String) × (error_msg : String) × (watch.0 ≡ ok (status, error_msg))
          × (r.0 ≡ ok tt)
          × Sent (job_of job).0 (job_of job).1 status error_msg s r.1.1
          × ((key : String)
              → lookup key r.1.0.0.running ≡ (
                  if (job_of job).2 && equal_fold status "Error" && (job_of job).0 == key
                  then none
                  else lookup key ch.running)))

  logged_state : (r : Flow String Response × Agent X) → (logged net r).1 ≡ r.1
  logged_state (ok response, s) = refl
  logged_state (err x, s) = refl
  logged_state (panic, s) = refl
  logged_state (no_fuel, s) = refl

  status_request_says :
      (uid status error_msg : String) (opts : Options)
      → let request = status_request uid status error_msg "" (new_request opts) in
        (request.headers ≡ (new_request opts).headers)
        × (get "uid" request.params ≡ uid)
        × (get "status" request.params ≡ status)
        × (get "error" request.params ≡ error_msg)
  unfolding status_request add_param new_request add_header insert get lookup
  status_request_says uid status error_msg opts = elim (Bool-cases (opts.cid == "")) [
    | inl unknown ↦ elim (Bool-cases (error_msg == "")) [
      | inl nothing ↦
          rw (nothing, unknown) (refl, refl, refl, sym ((eq_iff error_msg "").0 nothing))
      | inr something ↦ rw (something, unknown) (refl, refl, refl, refl)
    ]
    | inr known ↦ elim (Bool-cases (error_msg == "")) [
      | inl nothing ↦ rw (nothing, known) (refl, refl, refl, sym ((eq_iff error_msg "").0 nothing))
      | inr something ↦ rw (something, known) (refl, refl, refl, refl)
    ]
  ]

  report_status-Sent :
      (uid handler status error_msg : String) (s : Agent X)
      → Sent uid handler status error_msg s
          (report_status net uid status error_msg "" (new_uri s.opts "Chaos" handler) s).1
  unfolding report_status new_uri
  report_status-Sent uid handler status error_msg s =
      let request = status_request uid status error_msg "" (new_request s.opts) in
      let (headers, named, marked, explained) = status_request_says uid status error_msg (s.opts) in
      (
        request,
        logged_state (invoke_uri net (new_uri s.opts "Chaos" handler) request true s),
        headers,
        named,
        marked,
        explained,
      )

  reported-Sent :
      (job : Job) (status error_msg : String) (s : Agent X)
      → Sent
          (job_of job).0
          (job_of job).1
          status
          error_msg
          s
          (reported blade net job status error_msg s).1
  unfolding reported report_status_func api_of uid_of init_transport_uri lookup
  reported-Sent (java_agent_status uid) status error_msg s =
      report_status-Sent uid "chaos/javaAgentInstall" status error_msg s
  reported-Sent (java_agent_uninstall_status uid) status error_msg s =
      report_status-Sent uid "chaos/javaAgentUninstall" status error_msg s
  reported-Sent (async_status uid) status error_msg s =
      report_status-Sent uid "chaos/chaosbladeAsync" status error_msg s

  called_back-job_of :
      (job : Job) (status key : String) (ch : Handler)
      → lookup key (called_back blade net job status ch).running ≡ (
          if (job_of job).2 && equal_fold status "Error" && (job_of job).0 == key
          then none
          else lookup key ch.running)
  unfolding called_back delete_callback deletes uid_of
  called_back-job_of (java_agent_status uid) status key ch =
      ground (arith, lookup-delete uid key ch.running)
  called_back-job_of (java_agent_uninstall_status uid) status key ch = refl
  called_back-job_of (async_status uid) status key ch = refl

  checked-Reports :
      (job : Job) (ch : Handler) (s : Agent X) (watch : Flow Unit (String × String) × W)
      → Settled blade (uid_of job) watch
      → Reports job ch s watch (checked blade net job ch s watch)
  unfolding checked put_beside
  checked-Reports job ch s (ok (status, error_msg), w) h = inr (
    status,
    error_msg,
    refl,
    rw (reported-report_status job status error_msg s)
        (report_status-ok net (uid_of job) status error_msg "" (uri_of (api_of job) s.opts) s),
    reported-Sent job status error_msg s,
    λ key. called_back-job_of job status key ch,
  )
  checked-Reports job ch s (err u, w) h = absurd h
  checked-Reports job ch s (panic, w) h = inl (refl, refl, refl)
  checked-Reports job ch s (no_fuel, w) h = absurd h

-- A command that is watched for its minute is reported once, with the status and the error that the
-- watch ends with, by a signed call of the handler of its kind, chaos/javaAgentInstall,
-- chaos/javaAgentUninstall or chaos/chaosbladeAsync; when it is a java agent that was put on, with
-- the status `Error`, its uid leaves the commands that run, and no other does. A watch that panics
-- ends in a panic, without a report.
pub check_and_report-Reports :
    {W X : Type 0} (blade : Blade W) (net : Network X) (left : W → ℕ)
    → IsTimer blade left
    → (job : Job) (ch : Handler) (w : W) (s : Agent X)
    → Reports blade net job ch s
        (timing_check_status blade (suc (left w)) (uid_of job) "Unknown" "" w)
        (check_and_report blade net (suc (left w)) job ((ch, w), s))
unfolding check_and_report
check_and_report-Reports blade net left timer job ch w s =
    checked-Reports blade net job ch s
      (timing_check_status blade (suc (left w)) (uid_of job) "Unknown" "" w)
      (timing_check_status_settles blade left timer (uid_of job) "Unknown" "" w)
