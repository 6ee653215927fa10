-- ===== src/Options/Start.antt =====
-- pkg/options/options.go: what the agent finds out about its machine when it starts.
pub mod Address
use winchaos.Base.{
  String, Bool, true, false, not, ◌&&◌, ◌||◌, List, [], ◌∷◌, Option, none, some, ◌==◌,
  if◌then◌else◌, ℤ,
}
use winchaos.Base.Decimal.{itoa}
use winchaos.Base.Exec.{
  Result, value, failure, Flow, ok, err, panic, no_fuel, Exec, or_else, pure, ◌>>=◌, ◌>>◌,
}
use winchaos.Bash.{is_exist}
use winchaos.Cmdexec.Host.{Stat}
use winchaos.Options.{Options}
use winchaos.Tools.KeyFile.{Files, record_application_to_file, read_app_info_from_file}

-- An address of package net: whether it is a loopback, and the text of its four bytes, if it has
-- them.
pub record Ip : Type 0 where
  pub is_loopback : Bool
  pub to4 : Option String

-- The dynamic types of `net.Addr` that are told apart.
pub data Addr : Type 0 where
  ip_net ip_addr : Ip → Addr
  other_addr : Addr

pub record Interface : Type 0 where
  pub is_up : Bool
  pub is_loopback : Bool
  pub addrs : Result (List Addr)

-- The loop over the addresses of an interface: the text that is returned, or none behind the last.
unfoldable pub ip_of : Addr → Option Ip
ip_of (ip_net ip) = some ip
ip_of (ip_addr ip) = some ip
ip_of other_addr = none

unfoldable pub usable : Option Ip → Option String
usable none = none
usable (some ip) = if ip.is_loopback then none else ip.to4

abbrev or_go_on : Option String → Option String → Option String
or_go_on (some ip) more = some ip
or_go_on none more = more

unfoldable pub first_address : List Addr → Option String
first_address [] = none
first_address (a ∷ addrs) = or_go_on (usable (ip_of a)) (first_address addrs)

unfoldable pub address_of : Result (List Addr) → Option String
address_of (value addrs) = first_address addrs
address_of (failure x) = none

unfoldable pub first_of : List Interface → Option String
first_of [] = none
first_of (i ∷ ifs) =
    or_go_on (if not i.is_up || i.is_loopback then none else address_of i.addrs) (first_of ifs)

-- `GetPrivateIp`, of what `net.Interfaces` returns; `none` is the end of the process.
unfoldable pub get_private_ip : Result (List Interface) → Option String
get_private_ip (value ifs) = first_of ifs
get_private_ip (failure x) = none

-- `GetHostName`, of what `os.Hostname` returns.
unfoldable pub get_host_name : Result String → String
get_host_name (value name) = name
get_host_name (failure x) = ""

-- The machine: `os.Getpid`, `os.Hostname`, `net.Interfaces`.
pub record Machine : Type 0 where
  pub pid : ℤ
  pub hostname : Result String
  pub interfaces : Result (List Interface)

-- The options on a machine with an address.
abbrev pub on_machine : Machine → String → Options → Options
on_machine m ip o = record o {
  transport_config = record o.transport_config { environment = o.environment };
  pid = itoa m.pid;
  is_vpc = false;
  vpc_id = o.license;
  uid = "";
  ip = ip;
  host_name = get_host_name m.hostname;
  instance_id = get_host_name m.hostname;
  version = "1.0.2";
}

module _ {X : Type 0} (files : Files X) (stat : String → X → Stat) where
  -- What is read is kept in the parameters, which nothing looks at behind the return.
  unfoldable pub init_application_info : String → String → Exec X String Unit
  init_application_info app_instance app_group x =
      if is_exist (stat files.app_file x)
        && app_instance == "chaos-default-app"
        && app_group == "chaos-default-app-group"
      then (ok tt, (read_app_info_from_file files x).1)
      else or_else (λ e. tt) (record_application_to_file files app_instance app_group true) x

  -- `SetOthersByFlags`; `none` is the end of the process for want of an address.
  unfoldable pub set_others_by_flags : Machine → Options → X → Option (Options × X)
  set_others_by_flags m o x = elim (get_private_ip m.interfaces) [
    | none ↦ none
    | some ip ↦
        some (
          on_machine m ip o,
          (init_application_info o.application_instance o.application_group x).1,
        )
  ]
