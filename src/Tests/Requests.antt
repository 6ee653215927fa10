-- ===== src/Tests/Requests.antt =====
-- Requests between an agent and a server with the same keys.
use winchaos.Base.Decimal.{itoa_ℕ}
use text.Mathlib.TextLemmas.{cons≢nil}
use winchaos.Base.{ℕ, suc, String, true, [], ◌∷◌, none, ◌≡◌, ◌≢◌, ◌↔◌, refl, inl, arith}
use winchaos.Base.Dict.{insert, Dict, lookup, get}
use winchaos.Base.Dict.Keyed.{first_of}
use winchaos.Base.Exec.{err, Result, value}
use winchaos.Options.{default_options}
use winchaos.Tools.Sign.{sign, Keys}
use winchaos.Transport.Value.{null}
use winchaos.Transport.Request.{Request, Uri, new_uri, add_header, add_param, get_body}
use winchaos.Transport.Request.Body.{lookup-get_body}
use winchaos.Transport.Response.{token_not_found, return_fail}
use winchaos.Transport.Interceptor.{build_interceptor, handle, invoke}
use winchaos.Transport.Interceptor.Acceptance.{
  IsAccepted, handle_accepts_iff, handle_ignores_params,
}
use winchaos.Transport.Interceptor.Completion.{handle-invoke}
use winchaos.Transport.Client.{Agent, Network, invoke_uri}
use winchaos.Transport.Client.Withheld.{invoke_uri_withholds}

-- A digest that is never empty, and a JSON text of some parameters.
abbrev pub digest : String → String
digest s = String.◌∷◌ "h" s

digest_ne_empty : (s : String) → digest s ≢ ""
digest_ne_empty s e = cons≢nil e

abbrev pub marshal : Dict String → Result String
marshal params = value "{}"

abbrev pub keys : Keys
keys = record { access_key = "ak1"; secure_key = "sk1" }

abbrev pub request : Request
request = record { headers = ("uid", "7") ∷ []; params = ("port", "19527") ∷ [] }

abbrev completed : Request
completed = record {
  headers = ("uid", "7") ∷ ("ak", "ak1") ∷ ("sn", "h{}sk1") ∷ [];
  params = ("port", "19527") ∷ ("ts", "1700000000000000") ∷ [];
}

handle_accepts_iff_example :
    (handle digest marshal keys build_interceptor completed ≡ none)
    ↔ IsAccepted digest marshal keys completed
handle_accepts_iff_example = handle_accepts_iff digest marshal keys completed

handle-invoke_example : handle digest marshal keys build_interceptor completed ≡ none
unfolding invoke build_interceptor get lookup add_header insert add_param sign itoa_ℕ
handle-invoke_example =
    handle-invoke digest marshal keys 1_700_000_000_000_000 request completed digest_ne_empty
      (omega arith) refl

abbrev signed : Request
signed = record {
  headers = ("sd", "data") ∷ ("sn", "x") ∷ [];
  params = ("cmd", "status") ∷ ("ts", "1") ∷ [];
}

abbrev changed : Request
changed = record { headers = signed.headers; params = ("cmd", "destroy 1") ∷ ("ts", "1") ∷ [] }

sd_is_some : get "sd" signed.headers ≢ ""
unfolding get lookup
sd_is_some e = let same : ◌≡◌ {A = String} "data" "" = e in cc

handle_ignores_params_example :
    handle digest marshal keys build_interceptor changed
    ≡ handle digest marshal keys build_interceptor signed
unfolding get lookup
handle_ignores_params_example =
    handle_ignores_params digest marshal keys signed changed sd_is_some refl refl

lookup-get_body_example :
    lookup "ts" (get_body completed)
    ≡ first_of (lookup "ts" completed.headers) (lookup "ts" completed.params)
unfolding lookup
lookup-get_body_example =
    lookup-get_body "ts" completed (refl, (refl, (refl, tt))) (refl, (refl, tt))

-- A server that counts its calls.
abbrev pub network : Network ℕ
network = record {
  digest = digest;
  marshal_params = marshal;
  marshal_request = λ r. value "request";
  unmarshal_response =
      λ s. value (record { code = 200; success = true; error = ""; result = null });
  micros = λ x. 5;
  uuid = λ x. ("rid", x);
  do_invoker = λ uri bytes x. (value "{}", suc x);
}

abbrev pub new_agent : Agent ℕ
new_agent = record {
  opts = default_options;
  keys = record { access_key = ""; secure_key = "" };
  outside = 0;
}

abbrev pub uri : Uri
uri = new_uri default_options "Chaos" "chaos/AgentHeartBeat"

invoke_uri_withholds_example :
    invoke_uri network uri request true new_agent
    ≡ (err (return_fail token_not_found []).error, new_agent)
invoke_uri_withholds_example = invoke_uri_withholds network uri request new_agent (inl refl)
