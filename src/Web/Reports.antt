-- ===== src/Web/Reports.antt =====
-- web/handler/chaosblade.go: the goroutines that watch a command and report its end. A run of one
-- is not interrupted here by another that changes the commands that run.
pub mod Once
use winchaos.Base.{ℕ, String, Bool, true, false, Option, none, some, if◌then◌else◌}
use winchaos.Base.Dict.{lookup}
use winchaos.Base.Exec.{Flow, ok, err, panic, no_fuel, Exec}
use winchaos.Transport.Request.{Uri, init_transport_uri}
use winchaos.Transport.Client.{Agent, Network}
use winchaos.Conn.Connect.{uri_of}
use winchaos.Conn.Report.{report_status}
use winchaos.Web.Blade.{Blade, timing_check_status}
use winchaos.Web.Cache.{
  Handler, Job, java_agent_status, java_agent_uninstall_status, async_status, delete_callback,
}

unfoldable pub uid_of : Job → String
uid_of (java_agent_status uid) = uid
uid_of (java_agent_uninstall_status uid) = uid
uid_of (async_status uid) = uid

unfoldable pub api_of : Job → String
api_of (java_agent_status uid) = "javaInstall"
api_of (java_agent_uninstall_status uid) = "javaUninstall"
api_of (async_status uid) = "chaosbladeAsync"

-- The callback: `deleteCallback` for a java agent that was put on, and nothing otherwise.
unfoldable pub deletes : Job → Bool
deletes (java_agent_status uid) = true
deletes (java_agent_uninstall_status uid) = false
deletes (async_status uid) = false

-- Whether the uri is looked for before it is reported to.
unfoldable pub is_java : Job → Bool
is_java (java_agent_status uid) = true
is_java (java_agent_uninstall_status uid) = true
is_java (async_status uid) = false

module _ {W X : Type 0} (blade : Blade W) (net : Network X) where
  -- `reportStatusFunc`
  unfoldable pub report_status_func : String → String → String → Uri → Exec (Agent X) String Unit
  report_status_func uid status error_msg uri = report_status net uid status error_msg "" uri

  unfoldable pub called_back : Job → String → Handler → Handler
  called_back job status ch =
      if deletes job then delete_callback blade (uid_of job) status ch else ch

  -- A java agent is reported only to a uri that there is; a missing uri is empty otherwise.
  unfoldable pub reported : Job → String → String → Exec (Agent X) String Unit
  reported job status error_msg s = elim (lookup (api_of job) (init_transport_uri s.opts)) [
    | some uri ↦ report_status_func (uid_of job) status error_msg uri s
    | none ↦
        if is_java job
        then (ok tt, s)
        else report_status_func (uid_of job) status error_msg (uri_of (api_of job) s.opts) s
  ]

  unfoldable pub put_beside :
      Handler × W → Flow String Unit × Agent X → Flow String Unit × ((Handler × W) × Agent X)
  put_beside c (flow, s) = (flow, (c, s))

  unfoldable pub checked :
      Job
      → Handler
      → Agent X
      → Flow Unit (String × String) × W
      → Flow String Unit × ((Handler × W) × Agent X)
  checked job ch s (ok (status, error_msg), w) =
      put_beside (called_back job status ch, w) (reported job status error_msg s)
  checked job ch s (err u, w) = (ok tt, ((ch, w), s))
  checked job ch s (panic, w) = (panic, ((ch, w), s))
  checked job ch s (no_fuel, w) = (no_fuel, ((ch, w), s))

  -- `checkAndReportJavaAgentStatus`, `checkAndReportJavaAgentUninstallStatus` and
  -- `checkAndReportAsyncStatus`; the fuel is that of the watch.
  unfoldable pub check_and_report :
      ℕ → Job → (Handler × W) × Agent X → Flow String Unit × ((Handler × W) × Agent X)
  check_and_report fuel job ((ch, w), s) =
      checked job ch s (timing_check_status blade fuel (uid_of job) "Unknown" "" w)
