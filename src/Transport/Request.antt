-- ===== src/Transport/Request.antt =====
-- transport/request.go: requests and the uris that they go to.
pub mod Body
use winchaos.Base.{String, List, [], ◌∷◌, ◌==◌, if◌then◌else◌}
use winchaos.Base.Dict.{Dict, insert}
use winchaos.Options.{Options, program_name}

pub record Request : Type 0 where
  pub headers : Dict String
  pub params : Dict String

-- The fluent methods change the request in place; these return it changed.
unfoldable pub add_header : String → String → Request → Request
add_header key value r = if key == "" then r else record r { headers = insert key value r.headers }

unfoldable pub add_param : String → String → Request → Request
add_param key value r = if key == "" then r else record r { params = insert key value r.params }

unfoldable pub new_request : Options → Request
unfolding add_header add_param
new_request opts =
    let empty : Request = record { headers = []; params = [] } in
    let named = add_header "uid" opts.uid (add_header "pid" opts.pid (add_header "FR" "C" empty)) in
    let known = if opts.cid == "" then named else add_header "cid" opts.cid named in
    let versioned =
      add_header "cbv" opts.chaosblade_version
        (add_header "v" opts.version (add_header "type" program_name known)) in
    add_param "port" opts.port versioned

-- `body[k] = v` for every binding, in the order in which the map is gone through.
unfoldable pub insert_all : Dict String → Dict String → Dict String
insert_all [] body = body
insert_all ((k, v) ∷ m) body = insert_all m (insert k v body)

unfoldable pub get_body : Request → Dict String
unfolding insert_all
get_body r = insert_all r.headers (insert_all r.params [])

pub record Uri : Type 0 where
  pub server_name : String
  pub handler_name : String
  pub vpc_id : String
  pub ip : String
  pub pid : String
  pub tag : String
  pub request_id : String
  pub compress_version : String

unfoldable pub new_uri : Options → String → String → Uri
new_uri opts server_name handler_name = record {
  server_name = server_name;
  handler_name = handler_name;
  vpc_id = opts.vpc_id;
  ip = opts.ip;
  pid = opts.pid;
  tag = program_name;
  request_id = "";
  compress_version = "1";
}

-- The uri of an api that the map of uris lacks.
abbrev pub no_uri : Uri
no_uri = record {
  server_name = "";
  handler_name = "";
  vpc_id = "";
  ip = "";
  pid = "";
  tag = "";
  request_id = "";
  compress_version = "";
}

abbrev pub chaos : String
chaos = "Chaos"

abbrev pub mk_chaosblade_async : String
mk_chaosblade_async = "chaos/chaosbladeAsync"

abbrev pub http_handler_register : String
http_handler_register = "chaos/AgentRegister"

abbrev pub http_handler_heartbeat : String
http_handler_heartbeat = "chaos/AgentHeartBeat"

abbrev pub http_handler_close : String
http_handler_close = "chaos/AgentClosed"

abbrev pub http_handler_java_agent_install : String
http_handler_java_agent_install = "chaos/javaAgentInstall"

abbrev pub http_handler_java_agent_uninstall : String
http_handler_java_agent_uninstall = "chaos/javaAgentUninstall"

abbrev pub http_handler_k8s_pod : String
http_handler_k8s_pod = "chaos/k8sPod"

abbrev pub api_chaosblade_async : String
api_chaosblade_async = "chaosbladeAsync"

abbrev pub api_k8s_pod : String
api_k8s_pod = "k8sPod"

abbrev pub api_registry : String
api_registry = "registry"

abbrev pub api_heartbeat : String
api_heartbeat = "heartbeat"

abbrev pub api_close : String
api_close = "close"

abbrev pub api_java_install : String
api_java_install = "javaInstall"

abbrev pub api_java_uninstall : String
api_java_uninstall = "javaUninstall"

unfoldable pub init_transport_uri : Options → Dict Uri
unfolding new_uri
init_transport_uri opts =
    (api_registry, new_uri opts chaos http_handler_register)
    ∷ (api_heartbeat, new_uri opts chaos http_handler_heartbeat)
    ∷ (api_close, new_uri opts chaos http_handler_close)
    ∷ (api_chaosblade_async, new_uri opts chaos mk_chaosblade_async)
    ∷ (api_java_install, new_uri opts chaos http_handler_java_agent_install)
    ∷ (api_java_uninstall, new_uri opts chaos http_handler_java_agent_uninstall)
    ∷ (api_k8s_pod, new_uri opts chaos http_handler_k8s_pod)
    ∷ []
