-- ===== src/Options/Flags.antt =====
-- pkg/options/options.go: the flags of the agent, and the options that they make.
use winchaos.Base.{
  ℕ, String, Bool, true, false, List, [], ◌∷◌, ◌++◌, Option, none, some, ◌≡◌, refl, ◌==◌,
  if◌then◌else◌, ℤ, pos,
}
use winchaos.Base.Exec.{Result, value, failure}
use winchaos.Options.{Options, default_options, app_instance_key_name, app_group_key_name}

abbrev pub log_file_output : String
log_file_output = "file"

abbrev install_operator_linux : String
install_operator_linux = "linux"

abbrev install_operator_windows : String
install_operator_windows = "windows"

abbrev agent_host_mode : String
agent_host_mode = "host"

abbrev pub default_application_instance : String
default_application_instance = "chaos-default-app"

abbrev pub default_application_group : String
default_application_group = "chaos-default-app-group"

abbrev start_console_mode : String
start_console_mode = "console"

-- A flag with its name, the option that it is bound to, and its default. A duration is a number of
-- nanoseconds.
pub data FlagVar : Type 0 where
  text_var : String → (String → Options → Options) → String → FlagVar
  number_var : String → (ℕ → Options → Options) → ℕ → FlagVar
  switch_var : String → (Bool → Options → Options) → Bool → FlagVar

abbrev pub name_of : FlagVar → String
name_of (text_var name set default) = name
name_of (number_var name set default) = name
name_of (switch_var name set default) = name

-- What a flag is given; each kind of flag takes its own.
pub data Given : Type 0 where
  text : String → Given
  number : ℕ → Given
  switch : Bool → Given

unfoldable pub assign : FlagVar → Given → Options → Options
assign (text_var name set default) (text v) o = set v o
assign (number_var name set default) (number v) o = set v o
assign (switch_var name set default) (switch v) o = set v o
assign flag given o = o

unfoldable pub default_of : FlagVar → Given
default_of (text_var name set default) = text default
default_of (number_var name set default) = number default
default_of (switch_var name set default) = switch default

-- The option of a flag is its default as soon as the flag is added.
unfoldable pub declare : List FlagVar → Options → Options
unfolding assign default_of
declare [] o = o
declare (flag ∷ flags) o = declare flags (assign flag (default_of flag) o)

unfoldable pub operator_flag : Bool → Bool → List FlagVar
operator_flag windows unix =
    let bound = text_var "install.operator" (λ v o. record o { install_operator = v }) in
    if windows
    then bound install_operator_windows ∷ []
    else if unix
    then bound install_operator_linux ∷ []
    else []

abbrev first_flags : List FlagVar
first_flags =
    text_var "log.level" (λ v o. record o { log_config = record o.log_config { level = v } }) "info"
    ∷ number_var "log.size"
        (λ v o. record o { log_config = record o.log_config { max_file_size = v } }) 10
    ∷ number_var "log.count"
        (λ v o. record o { log_config = record o.log_config { max_file_count = v } }) 1
    ∷ text_var "log.output"
        (λ v o. record o { log_config = record o.log_config { log_output = v } }) log_file_output
    ∷ text_var "environment" (λ v o. record o { environment = v }) "prod"
    ∷ text_var "namespace" (λ v o. record o { namespace = v }) "default"
    ∷ text_var "license" (λ v o. record o { license = v }) "0813d72a71ba41ed986e507e2e0ead1b"
    ∷ text_var "agent.mode" (λ v o. record o { agent_mode = v }) agent_host_mode
    ∷ []

abbrev last_flags : List FlagVar
last_flags =
    number_var "heartbeat.period" (λ v o. record o { heartbeat_config = record { period = v } })
      5_000_000_000
    ∷ text_var "transport.endpoint"
        (λ v o. record o { transport_config = record o.transport_config { endpoint = v } })
        "192.168.123.93"
    ∷ number_var "transport.timeout"
        (λ v o. record o { transport_config = record o.transport_config { timeout = v } })
        3_000_000_000
    ∷ switch_var "transport.secure"
        (λ v o. record o { transport_config = record o.transport_config { secure = v } }) true
    ∷ text_var app_instance_key_name (λ v o. record o { application_instance = v })
        default_application_instance
    ∷ text_var app_group_key_name (λ v o. record o { application_group = v })
        default_application_group
    ∷ text_var "startup.mode" (λ v o. record o { startup_mode = v }) start_console_mode
    ∷ switch_var "restrict" (λ v o. record o { restricted_vpc = v }) false
    ∷ text_var "kubernetes.cluster.id" (λ v o. record o { cluster_id = v }) ""
    ∷ text_var "kubernetes.cluster.name" (λ v o. record o { cluster_name = v }) ""
    ∷ switch_var "kubernetes.pod.report" (λ v o. record o { pod_metric_flag = v }) false
    ∷ switch_var "kubernetes.externalIp.enable" (λ v o. record o { external_ip_enable = v }) false
    ∷ text_var "agent.bin.url" (λ v o. record o { chaos_agent_bin_url = v }) ""
    ∷ text_var "agent.sh.url" (λ v o. record o { chaos_agent_sh_url = v }) ""
    ∷ text_var "blade.tar.url" (λ v o. record o { chaosblade_tar_url = v }) ""
    ∷ text_var "litmus.chart.url" (λ v o. record o { litmus_chart_url = v }) ""
    ∷ text_var "cert.url" (λ v o. record o { cert_url = v }) ""
    ∷ text_var "port" (λ v o. record o { port = v }) "19527"
    ∷ switch_var "help" (λ v o. record o { help = v }) false
    ∷ []

unfoldable pub add_flags : Bool → Bool → List FlagVar
unfolding operator_flag
add_flags windows unix = first_flags ++ operator_flag windows unix ++ last_flags

-- The flag of a name.
unfoldable pub find_flag : String → List FlagVar → Option FlagVar
find_flag name [] = none
find_flag name (flag ∷ flags) = if name_of flag == name then some flag else find_flag name flags

abbrev assign_found : Option FlagVar → Given → Options → Options
assign_found none given o = o
assign_found (some flag) given o = assign flag given o

-- The flags of the command line, in their order.
unfoldable pub assign_all : List FlagVar → List (String × Given) → Options → Options
unfolding find_flag assign
assign_all flags [] o = o
assign_all flags ((name, given) ∷ rest) o =
    assign_all flags rest (assign_found (find_flag name flags) given o)

-- `&Options{}`
abbrev pub zero_options : Options
zero_options = record {
  log_config = record { level = ""; max_file_size = 0; max_file_count = 0; log_output = "" };
  help = false;
  environment = "";
  is_vpc = false;
  vpc_id = "";
  pid = "";
  cid = "";
  uid = "";
  ip = "";
  host_name = "";
  instance_id = "";
  namespace = "";
  license = "";
  agent_mode = "";
  install_operator = "";
  port = "";
  heartbeat_config = record { period = 0 };
  transport_config = record { environment = ""; endpoint = ""; timeout = 0; secure = false };
  application_instance = "";
  application_group = "";
  startup_mode = "";
  restricted_vpc = false;
  version = "";
  chaosblade_version = "";
  litmus_chaos_version = "";
  cluster_id = "";
  cluster_name = "";
  pod_metric_flag = false;
  external_ip_enable = false;
  chaos_agent_bin_url = "";
  chaos_agent_sh_url = "";
  chaosblade_tar_url = "";
  litmus_chart_url = "";
  cert_url = "";
}

-- The options, or the exit code of the process.
pub data Parsed : Type 0 where
  options : Options → Parsed
  exits : ℤ → Parsed

abbrev unless_help : Options → Parsed
unless_help o = if o.help then exits (pos 0) else options o

-- `NewOptions`, of what the parser of the command line finds on it.
unfoldable pub new_options : Bool → Bool → Result (List (String × Given)) → Parsed
unfolding assign_all declare add_flags
new_options windows unix (failure x) = exits (pos 1)
new_options windows unix (value given) =
    let flags = add_flags windows unix in
    unless_help (assign_all flags given (declare flags zero_options))

-- Without flags, on Windows.
defaults : new_options true false (value []) ≡ options default_options
unfolding new_options default_options
defaults = refl
