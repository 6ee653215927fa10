-- ===== src/Tests/Agents.antt =====
-- The agent from its start to its end, on a machine with one address, and the goroutines of a CPU
-- load.
use winchaos.Base.{
  trim_space, split, String, true, List, [], ◌∷◌, Option, none, some, ◌≡◌, ◌↔◌, refl, ◌⊎◌, ◌⧺◌, pos,
  arith, has_prefix,
}
use winchaos.Base.Exec.{ok, value}
use winchaos.Bash.{Shell, is_exist, exec_script}
use winchaos.Cmdexec.Host.{Stat, present, missing}
use winchaos.Options.{default_options}
use winchaos.Options.Start.{Machine, get_private_ip, init_application_info}
use winchaos.Options.Blade.{version_of, blade_bin_path, get_chaosblade_version}
use winchaos.Options.Blade.Version.{HasVersion, get_chaosblade_version-HasVersion}
use winchaos.Http.{HttpClient}
use winchaos.Tools.Ending.{sigquit}
use winchaos.Category.Cpu.Feed.{State, begin, Reaches, start, next, measures, sends, receives}
use winchaos.Category.Cpu.Feed.Delivered.{IsFed, feed_delivers}
use winchaos.Agent.{up, exited, PidDisk}
use winchaos.Agent.Start.{Running, main, Serves, main-Serves}
use winchaos.Agent.Life.{Event, caught, served}
use winchaos.Tests.Reporting.{interfaces}
use winchaos.Tests.Tools.{files}

abbrev machine : Machine
machine = record { pid = pos 4711; hostname = value "box"; interfaces = value interfaces }

abbrev stat : String → String → Stat
stat path content = missing

-- The world is what the file of the application holds; that of the process id is elsewhere.
abbrev disk : PidDisk String
disk = record {
  open_file = λ path content. (ok "4711", content);
  put_text = λ path text content. (ok tt, text);
}

abbrev over : String → HttpClient → String
over name client = name ⧺ " of " ⧺ client.host

abbrev pid_file : String
pid_file = "C:\\chaos.pid"

main-Serves_example :
    ((get_private_ip machine.interfaces ≡ none)
      × (main files stat disk
            (over "connect")
            (over "heartbeat")
            (over "chaosblade")
            (over "uninstall")
            "ping"
            "updateApplication"
            pid_file
            machine
            default_options
            ""
          ≡ (exited (pos 1), "")))
    ⊎ ((ip : String) × (get_private_ip machine.interfaces ≡ some ip)
        × ((r : Running String String) × (main files stat disk
                (over "connect")
                (over "heartbeat")
                (over "chaosblade")
                (over "uninstall")
                "ping"
                "updateApplication"
                pid_file
                machine
                default_options
                ""
              ≡ (
                up r,
                (init_application_info files stat default_options.application_instance
                    default_options.application_group "").1,
              ))
            × Serves files stat disk
                (over "connect")
                (over "heartbeat")
                (over "chaosblade")
                (over "uninstall")
                "ping"
                "updateApplication"
                default_options
                ip
                r))
main-Serves_example =
    main-Serves files stat disk (over "connect") (over "heartbeat") (over "chaosblade")
      (over "uninstall") "ping" "updateApplication" pid_file machine default_options ""

abbrev hooks : List (Option (String → String))
hooks = none ∷ some (λ log. log ⧺ "closed ") ∷ []

abbrev lived : List Event
lived = served none ∷ caught sigquit ∷ []

-- Two goroutines: the quota 7 is measured and sent twice, and one of them receives it.
abbrev measured : State
measured = record begin { quota = pos 7; pending = 2; rounds = pos 7 ∷ [] }

abbrev sent : State
sent = record measured { channel = pos 7 ∷ []; pending = 1 }

abbrev received : State
received = record sent { channel = []; received = pos 7 ∷ [] }

feed : Reaches 2 received
unfolding begin
feed =
    next (next (next start (measures begin (pos 7) refl)) (sends measured 1 refl (omega arith)))
      (receives sent (pos 7) [] refl)

feed_delivers_example : IsFed 2 received
feed_delivers_example = feed_delivers 2 feed

abbrev shell : Shell String
shell = record {
  stat = λ path w. present;
  combined_output = λ name args w. (("version: 1.7.2\nenv: #1\n", none), w);
}

get_chaosblade_version-HasVersion_example :
    ((get_chaosblade_version shell (λ s. s) true "").0 ≡ value "1.7.2") ↔ (
      (is_exist (shell.stat (blade_bin_path true) "") ≡ true)
      × ((exec_script shell (blade_bin_path true) "version" "").0.success ≡ true)
      × HasVersion (exec_script shell (blade_bin_path true) "version" "").0.output "1.7.2")
get_chaosblade_version-HasVersion_example =
    get_chaosblade_version-HasVersion shell (λ s. s) true "" "1.7.2"

version_runs : (get_chaosblade_version shell (λ s. s) true "").0 ≡ value "1.7.2"
unfolding get_chaosblade_version exec_script version_of has_prefix split trim_space
version_runs = refl
