-- ===== src/Tests/Channel.antt =====
-- Runs and tests of the channel over HTTP.
use winchaos.Base.{ℕ, suc, String, true, none, some, ◌≡◌, ◌≢◌, refl, ◌⧺◌, arith}
use winchaos.Base.TextLaws.{has_code}
use winchaos.Base.Decimal.{itoa_ℕ}
use winchaos.Base.Exec.{value}
use winchaos.Options.{TransportConfig, default_options}
use winchaos.Transport.Value.{null}
use winchaos.Transport.Request.{add_header, get_body}
use winchaos.Transport.Response.{Response}
use winchaos.Transport.Client.{Network, invoke_uri}
use winchaos.Http.{answered, HttpClient, Answer, Web, new_http_client, do_invoker}
use winchaos.Http.Endpoint.{spelled, new_http_client-spelled}
use winchaos.Http.Posted.{invoke_uri-posted}
use winchaos.Tests.Requests.{digest, marshal, request, new_agent, uri}

abbrev config : TransportConfig
config = record {
  environment = "";
  endpoint = "192.168.123.93:8080";
  timeout = 3_000_000_000;
  secure = true;
}

abbrev hc : HttpClient
hc = new_http_client default_options config

given : config.endpoint ≢ ""
given e = let same : ◌≡◌ {A = String} "192.168.123.93:8080" "" = e in cc

new_http_client-spelled_example :
    (hc.config.server_ip ≡ "192.168.123.93")
    × (hc.config.server_port ≡ 8080)
    × (hc.host ≡ spelled "192.168.123.93" (some 8080))
unfolding has_code itoa_ℕ
new_http_client-spelled_example =
    new_http_client-spelled default_options config "192.168.123.93" (some 8080) refl (omega arith)
      given refl

-- A server that counts its posts.
abbrev web : Web ℕ
web = record {
  url_string = λ host. "http://" ⧺ host;
  unmarshal_request = λ json. add_header "rid" "r1" request;
  marshal_body = λ body. "{}";
  post = λ url body x. (value (record { status = 200; body = "{}"; read_error = none }), suc x);
}

abbrev good : Response
good = record { code = 200; success = true; error = ""; result = null }

abbrev network : Network ℕ
network = record {
  digest = digest;
  marshal_params = marshal;
  marshal_request = λ r. value "request";
  unmarshal_response = λ s. value good;
  micros = λ x. 5;
  uuid = λ x. ("r1", x);
  do_invoker = do_invoker web hc;
}

invoke_uri-posted_example :
    (a : Answer) × ((web.post
        (web.url_string hc.host ⧺ "/" ⧺ uri.handler_name)
        (web.marshal_body (get_body (add_header "rid" "r1" request)))
        0).0
      ≡ value a)
    × (a.status ≡ 200)
    × (network.unmarshal_response a.body ≡ value good)
unfolding invoke_uri do_invoker answered
invoke_uri-posted_example =
    invoke_uri-posted network web hc (λ uri' json x. refl) uri request new_agent
      (λ json marshalled. refl) refl
