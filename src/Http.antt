-- ===== src/Http.antt =====
-- pkg/http/http.go: the channel of the transport, over HTTP.
pub mod Endpoint
pub mod Posted
use winchaos.Base.{
  ℕ, String, Option, none, some, ◌==◌, ◌⧺◌, ◌%◌, ◌/◌, ◌-◌, ◌^◌, nat_eq, if◌then◌else◌, ℤ, pos,
  negsuc, cut,
}
use winchaos.Base.Decimal.{itoa_ℕ, atoi}
use winchaos.Base.Dict.{Dict}
use winchaos.Base.Exec.{Result, value, failure}
use winchaos.Options.{Options, TransportConfig, program_name}
use winchaos.Transport.Request.{Request, Uri, get_body}

-- transport/transport.go: the part of `ServerConfig` that is set.
pub record ServerConfig : Type 0 where
  pub client_vpc_id : String
  pub client_ip : String
  pub client_process_flag : String
  pub server_ip : String
  pub server_port : ℕ
  pub timeout : ℕ

pub record HttpClient : Type 0 where
  pub config : ServerConfig
  pub timeout : ℕ
  -- the host of its url
  pub host : String

-- The answer to a post: its status, the body as far as it was read, and the error of reading it.
pub record Answer : Type 0 where
  pub status : ℕ
  pub body : String
  pub read_error : Option String

-- Packages that the channel calls: `url.URL{Scheme: "http", Host: host}.String()`; JSON, of which
-- both calls drop their errors; and the post of a body to a url.
pub record Web (X : Type 0) : Type 0 where
  pub url_string : String → String
  pub unmarshal_request : String → Request
  pub marshal_body : Dict String → String
  pub post : String → String → X → Result Answer × X

-- `uint32` of an int.
abbrev pub uint32 : ℤ → ℕ
uint32 (pos n) = n % 2 ^ 32
uint32 (negsuc n) = 2 ^ 32 - 1 - n % 2 ^ 32

-- The value beside an error of Atoi counts.
abbrev port_of : Option String → ℕ
port_of none = uint32 (pos 80)
port_of (some port) = uint32 (atoi port).0

abbrev endpoint_or_default : String → String
endpoint_or_default endpoint = if endpoint == "" then "10.148.55.113" else endpoint

unfoldable pub get_direct_instance : ServerConfig → HttpClient
get_direct_instance config = record {
  config = config;
  timeout = config.timeout / 1000000 % 2 ^ 32;
  host = config.server_ip ⧺ ":" ⧺ itoa_ℕ config.server_port;
}

unfoldable pub new_http_client : Options → TransportConfig → HttpClient
new_http_client opts config =
    let (server_ip, port) = cut b':' (endpoint_or_default config.endpoint) in
    get_direct_instance record {
      client_vpc_id = opts.vpc_id;
      client_ip = opts.ip;
      client_process_flag = program_name;
      server_ip = server_ip;
      server_port = port_of port;
      timeout = config.timeout;
    }

abbrev call_failed : String → Answer → String
call_failed name a = elim a.read_error [
  | some x ↦ "direct http call " ⧺ name ⧺ " and read message from response failed"
  | none ↦ "direct http call " ⧺ name ⧺ " failed, code: " ⧺ itoa_ℕ a.status ⧺ ", body: " ⧺ a.body
]

unfoldable pub answered : String → Result Answer → Result String
answered name (failure x) = failure x
answered name (value a) = if nat_eq a.status 200 then value a.body else failure (call_failed name a)

module _ {X : Type 0} (web : Web X) where
  unfoldable pub do_invoker : HttpClient → Uri → String → X → Result String × X
  do_invoker hc uri json_param x =
      let body = web.marshal_body (get_body (web.unmarshal_request json_param)) in
      let (answer, x') = web.post (web.url_string hc.host ⧺ "/" ⧺ uri.handler_name) body x in
      (answered uri.handler_name answer, x')
