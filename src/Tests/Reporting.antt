-- ===== src/Tests/Reporting.antt =====
-- Runs and tests of the start of the agent and of its reports.
use winchaos.Base.{String, true, false, List, [], ◌∷◌, none, some, ◌≡◌, refl, inl}
use winchaos.Base.Dict.{Dict}
use winchaos.Base.Exec.{value, failure}
use winchaos.Options.Start.{
  ip_of, usable, first_address, address_of, first_of, Ip, Interface, ip_net, ip_addr, other_addr,
  get_private_ip,
}
use winchaos.Options.Start.Address.{candidates, head?, get_private_ip-candidates}
use winchaos.Web.Blade.{timing_check_status}
use winchaos.Web.Cache.{java_agent_status}
use winchaos.Web.Reports.{uid_of, check_and_report}
use winchaos.Web.Reports.Once.{Reports, check_and_report-Reports}
use winchaos.Conn.Start.{
  State, running, ended, sending, nil, start, Reaches, here, next, returns, fails,
}
use winchaos.Conn.Start.Silent.{Waits, start-silent}
use winchaos.Tests.Handlers.{blade, blade-IsTimer, idle}
use winchaos.Tests.Requests.{network, new_agent}

abbrev v4 : String → Ip
v4 text = record { is_loopback = false; to4 = some text }

abbrev pub interfaces : List Interface
interfaces =
    record { is_up = true; is_loopback = true; addrs = value (ip_net (v4 "127.0.0.1") ∷ []) }
    ∷ record { is_up = true; is_loopback = false; addrs = failure "no adapter" }
    ∷ record {
      is_up = true;
      is_loopback = false;
      addrs = value (
          other_addr
          ∷ ip_net (record { is_loopback = false; to4 = none })
          ∷ ip_addr (v4 "10.0.0.7")
          ∷ []);
    }
    ∷ []

get_private_ip-candidates_example :
    get_private_ip (value interfaces) ≡ head? (candidates interfaces)
get_private_ip-candidates_example = get_private_ip-candidates interfaces

address_runs : get_private_ip (value interfaces) ≡ some "10.0.0.7"
unfolding get_private_ip first_of address_of first_address usable ip_of
address_runs = refl

check_and_report-Reports_example :
    Reports blade network
      (java_agent_status "3")
      idle
      new_agent
      (timing_check_status blade 61 "3" "Unknown" "" 60)
      (check_and_report blade network 61 (java_agent_status "3") ((idle, 60), new_agent))
unfolding uid_of
check_and_report-Reports_example =
    check_and_report-Reports blade network (λ w. w) blade-IsTimer (java_agent_status "3") idle 60
      new_agent

abbrev failing : State String
failing = record {
  channel = nil;
  goroutines = ("connect", "Connect", sending "refused") ∷ ("heartbeat", "Heartbeat", running) ∷ [];
  exited = false;
}

abbrev beating : State String
beating = record {
  channel = nil;
  goroutines = ("connect", "Connect", sending "refused") ∷ ("heartbeat", "Heartbeat", ended) ∷ [];
  exited = false;
}

abbrev handlers : Dict String
handlers = ("connect", "Connect") ∷ ("heartbeat", "Heartbeat") ∷ []

begun : Reaches (start handlers) failing
unfolding start
begun = next here (
    fails _ _ "connect" "refused"
      ("Connect", [], (("heartbeat", "Heartbeat", running) ∷ []), refl, refl))

later : Reaches failing beating
later = next here (
    returns _ _ "heartbeat"
      ("Heartbeat", (("connect", "Connect", sending "refused") ∷ []), [], refl, refl))

start-silent_example : Waits "connect" "refused" beating.goroutines × (beating.exited ≡ false)
start-silent_example = start-silent handlers "connect" "refused" begun (inl (refl, refl)) later
