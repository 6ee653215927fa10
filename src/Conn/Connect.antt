-- ===== src/Conn/Connect.antt =====
-- conn/connect/connect.go: the registration of the agent.
pub mod Registered
use winchaos.Base.{
  ℕ, String, Bool, true, false, not, List, [], ◌∷◌, Option, none, some, ◌==◌, ◌⧺◌, if◌then◌else◌, ℤ,
}
use winchaos.Base.Decimal.{itoa}
use winchaos.Base.Dict.{lookup}
use winchaos.Base.Exec.{Flow, ok, err, panic, no_fuel, Exec, pure, throw, crash, gets, ◌>>=◌, ◌>>◌}
use winchaos.Options.{
  Options, program_name, app_instance_key_name, app_group_key_name, set_cid, set_uid,
}
use winchaos.Tools.Sign.{Keys}
use winchaos.Tools.KeyFile.{Files, record_secret_key_to_file}
use winchaos.Transport.Value.{Value, null, str, num, bool, arr, obj, model, models, Fields, field?}
use winchaos.Transport.Request.{Request, Uri, new_request, add_param, init_transport_uri, no_uri}
use winchaos.Transport.Response.{Response}
use winchaos.Transport.Client.{Agent, Network, invoke_uri}

abbrev params_of : Options → String → ℤ → List (String × String)
params_of opts uptime num_cpu =
    ("ip", opts.ip)
    ∷ ("pid", opts.pid)
    ∷ ("type", program_name)
    ∷ ("uid", opts.uid)
    ∷ ("instanceId", opts.instance_id)
    ∷ ("namespace", opts.namespace)
    ∷ ("deviceId", opts.instance_id)
    ∷ ("deviceType", "0")
    ∷ ("ak", opts.license)
    ∷ ("uptime", uptime)
    ∷ ("startupMode", opts.startup_mode)
    ∷ ("v", opts.version)
    ∷ ("agentMode", opts.agent_mode)
    ∷ ("osType", opts.install_operator)
    ∷ ("cpuNum", itoa num_cpu)
    ∷ ("clusterId", opts.cluster_id)
    ∷ ("clusterName", opts.cluster_name)
    ∷ []

abbrev bound_params : Options → List (String × String)
bound_params opts =
    ("memSize", "1048576.000000")
    ∷ (app_instance_key_name, opts.application_instance)
    ∷ (app_group_key_name, opts.application_group)
    ∷ (if opts.restricted_vpc
        then ("restrictedVpc", "true") ∷ ("vpcId", opts.license) ∷ []
        else ("vpcId", opts.vpc_id) ∷ [])

unfoldable pub add_params : List (String × String) → Request → Request
unfolding add_param
add_params [] r = r
add_params ((k, v) ∷ more) r = add_params more (add_param k v r)

unfoldable pub register_request : Options → String → ℤ → Request
unfolding add_params new_request
register_request opts uptime num_cpu =
    let described = add_params (params_of opts uptime num_cpu) (new_request opts) in
    let versioned =
      if opts.chaosblade_version == ""
      then described
      else add_param "cbv" opts.chaosblade_version described in
    add_params (bound_params opts) versioned

-- What an answer has under a key: a missing key and a null are told apart from the rest, and a text
-- from what an assertion of a text panics on.
pub data Given : Type 0 where
  absent : Given
  text : String → Given
  other : Given

abbrev pub given : Option Value → Given
given none = absent
given (some null) = absent
given (some (str s)) = text s
given (some v) = other

module _ {X : Type 0} (files : Files X) where
  abbrev with_keys : Agent X → Flow String Unit × (Keys × X) → Flow String Unit × Agent X
  with_keys s (r, (keys, x)) = (r, record s { keys = keys; outside = x })

  abbrev lacks_key : String
  lacks_key = "accessKey or secretKey is empty"

  record_keys : Given → Given → Agent X → Flow String Unit × Agent X
  unfolding record_secret_key_to_file
  record_keys absent sk s = (err lacks_key, s)
  record_keys (text ak) absent s = (err lacks_key, s)
  record_keys (text ak) (text sk) s =
      with_keys s (record_secret_key_to_file files ak sk (s.keys, s.outside))
  record_keys (text ak) other s = (panic, s)
  record_keys other absent s = (err lacks_key, s)
  record_keys other (text sk) s = (panic, s)
  record_keys other other s = (panic, s)

  record_rest : Given → Fields → Agent X → Flow String Unit × Agent X
  unfolding record_keys set_uid field?
  record_rest absent fs s = record_keys (given (field? "ak" fs)) (given (field? "sk" fs)) s
  record_rest (text uid) fs s =
      record_keys (given (field? "ak" fs)) (given (field? "sk" fs))
        (record s { opts = set_uid uid s.opts })
  record_rest other fs s = (panic, s)

  -- A `cid` that is missing or no text panics.
  record_fields : Given → Fields → Agent X → Flow String Unit × Agent X
  unfolding record_rest set_cid field?
  record_fields absent fs s = (panic, s)
  record_fields (text cid) fs s =
      record_rest (given (field? "uid" fs)) fs (record s { opts = set_cid cid s.opts })
  record_fields other fs s = (panic, s)

  handle_result : Value → Exec (Agent X) String Unit
  unfolding record_fields field?
  handle_result (obj fs) = record_fields (given (field? "cid" fs)) fs
  handle_result v = throw "response is error"

  abbrev refused : Response → Exec (Agent X) String Unit
  refused response = throw ("connect server failed, " ⧺ response.error)

  unfoldable pub handle_direct_http_connect_response : Response → Exec (Agent X) String Unit
  unfolding handle_result
  handle_direct_http_connect_response response =
      if not response.success then refused response else handle_result response.result

-- `TransportUriMap[api]`, which has no uri under an unknown name.
abbrev pub uri_of : String → Options → Uri
uri_of api opts = elim (lookup api (init_transport_uri opts)) [ none ↦ no_uri | some u ↦ u ]

module _ {X : Type 0} (net : Network X) (files : Files X) (uptime : X → String) (num_cpu : ℤ) where
  unfoldable pub start : Exec (Agent X) String Unit
  unfolding register_request handle_direct_http_connect_response init_transport_uri lookup
  start = do
    opts ← gets (λ s. s.opts)
    up ← gets (λ s. uptime s.outside)
    response ← invoke_uri net (uri_of "registry" opts) (register_request opts up num_cpu) false
    handle_direct_http_connect_response files response
