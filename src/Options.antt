-- ===== src/Options.antt =====
-- pkg/options/options.go: the options of the agent, their defaults, and what sets them.
pub mod Start
pub mod Blade
pub mod Flags
use winchaos.Base.{ℕ, String, Bool, true, false, ◌==◌, ◌||◌, if◌then◌else◌}

pub record HeartbeatConfig : Type 0 where
  pub period : ℕ

pub record TransportConfig : Type 0 where
  pub environment : String
  pub endpoint : String
  pub timeout : ℕ
  pub secure : Bool

pub record LogConfig : Type 0 where
  pub level : String
  pub max_file_size : ℕ
  pub max_file_count : ℕ
  pub log_output : String

pub record Options : Type 0 where
  pub log_config : LogConfig
  pub help : Bool
  pub environment : String
  pub is_vpc : Bool
  pub vpc_id : String
  pub pid : String
  pub cid : String
  pub uid : String
  pub ip : String
  pub host_name : String
  pub instance_id : String
  pub namespace : String
  pub license : String
  pub agent_mode : String
  pub install_operator : String
  pub port : String
  pub heartbeat_config : HeartbeatConfig
  pub transport_config : TransportConfig
  pub application_instance : String
  pub application_group : String
  pub startup_mode : String
  pub restricted_vpc : Bool
  pub version : String
  pub chaosblade_version : String
  pub litmus_chaos_version : String
  pub cluster_id : String
  pub cluster_name : String
  pub pod_metric_flag : Bool
  pub external_ip_enable : Bool
  pub chaos_agent_bin_url : String
  pub chaos_agent_sh_url : String
  pub chaosblade_tar_url : String
  pub litmus_chart_url : String
  pub cert_url : String

abbrev pub program_name : String
program_name = "CHAOS_AGENT"

abbrev pub app_instance_key_name : String
app_instance_key_name = "appInstance"

abbrev pub app_group_key_name : String
app_group_key_name = "appGroup"

-- What `AddFlags` sets where no flag is given, on Windows.
unfoldable pub default_options : Options
default_options = record {
  log_config = record {
    level = "info";
    max_file_size = 10;
    max_file_count = 1;
    log_output = "file";
  };
  help = false;
  environment = "prod";
  is_vpc = false;
  vpc_id = "";
  pid = "";
  cid = "";
  uid = "";
  ip = "";
  host_name = "";
  instance_id = "";
  namespace = "default";
  license = "0813d72a71ba41ed986e507e2e0ead1b";
  agent_mode = "host";
  install_operator = "windows";
  port = "19527";
  heartbeat_config = record { period = 5_000_000_000 };
  transport_config = record {
    environment = "";
    endpoint = "192.168.123.93";
    timeout = 3_000_000_000;
    secure = true;
  };
  application_instance = "chaos-default-app";
  application_group = "chaos-default-app-group";
  startup_mode = "console";
  restricted_vpc = false;
  version = "";
  chaosblade_version = "";
  litmus_chaos_version = "";
  cluster_id = "";
  cluster_name = "";
  pod_metric_flag = false;
  external_ip_enable = false;
  chaos_agent_bin_url = "";
  chaos_agent_sh_url = "";
  chaosblade_tar_url = "";
  litmus_chart_url = "";
  cert_url = "";
}

unfoldable pub set_uid : String → Options → Options
set_uid u o = record o { uid = u }

unfoldable pub set_cid : String → Options → Options
set_cid c o = record o { cid = c }

unfoldable pub set_cluster_id_if_not_present : String → Options → Options
set_cluster_id_if_not_present c o = if o.cluster_id == "" then record o { cluster_id = c } else o

unfoldable pub set_chaosblade_version : String → Options → Options
set_chaosblade_version v o = record o { chaosblade_version = v }

unfoldable pub is_k8s_mode : Options → Bool
is_k8s_mode o =
    o.agent_mode == "k8s"
    || o.agent_mode == "cs_k8s"
    || o.agent_mode == "k8s_helm"
    || o.agent_mode == "cs_k8s_helm"

unfoldable pub is_host_mode : Options → Bool
is_host_mode o = o.agent_mode == "host"
