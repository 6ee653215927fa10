-- ===== src/Transport/Client.antt =====
-- transport/transport.go: `TransportClient`. The agent's state goes through its calls; the channel,
-- the clock, the uuid and JSON are parameters.
pub mod Withheld
pub mod Returns
pub mod Answered
use winchaos.Base.{ℕ, String, Bool, true, false, Option, none, some, if◌then◌else◌}
use winchaos.Base.Dict.{Dict}
use winchaos.Base.Exec.{Flow, ok, err, Result, value, failure, Exec, pure, gets, ◌>>=◌, ◌>>◌}
use winchaos.Options.{Options}
use winchaos.Tools.Sign.{Keys}
use winchaos.Transport.Interceptor.{build_interceptor, invoke}
use winchaos.Transport.Request.{Request, Uri, add_header}
use winchaos.Transport.Response.{Response}

-- What the agent keeps in global variables, and the world outside.
pub record Agent (X : Type 0) : Type 0 where
  pub opts : Options
  pub keys : Keys
  pub outside : X

-- Packages and services that the transport calls.
pub record Network (X : Type 0) : Type 0 where
  -- base64 of the hexadecimal SHA-256
  pub digest : String → String
  pub marshal_params : Dict String → Result String
  pub marshal_request : Request → Result String
  pub unmarshal_response : String → Result Response
  -- `time.Now().UnixNano() / 1000`
  pub micros : X → ℕ
  pub uuid : X → String × X
  -- `TransportChannel.DoInvoker`
  pub do_invoker : Uri → String → X → Result String × X

module _ {X : Type 0} (net : Network X) where
  abbrev lift : {A : Type 0} → Result A → Exec (Agent X) String A
  lift (value a) s = (ok a, s)
  lift (failure x) s = (err x, s)

  abbrev outside : {A : Type 0} → (X → A × X) → Exec (Agent X) String A
  outside f s = let (a, x) = f s.outside in (ok a, record s { outside = x })

  -- The calls behind the interceptors.
  unfoldable pub send : Uri → Request → Exec (Agent X) String Response
  send uri request = do
    request_id ← outside net.uuid
    let request' = add_header "rid" request_id request
    let uri' = record uri { request_id = request_id }
    bytes ← lift (net.marshal_request request')
    answer ← outside (net.do_invoker uri' bytes)
    result ← lift answer
    lift (net.unmarshal_response result)

  -- What follows the interceptors: the error of their answer, or the request as they leave it.
  send_completed : Uri → Option Response × Request → Exec (Agent X) String Response
  unfolding send
  send_completed uri (some response, request) s = (err response.error, s)
  send_completed uri (none, request) s = send uri request s

  -- `Invoke`, by what its callers look at: they read the response only where there is no error.
  unfoldable pub invoke_uri : Uri → Request → Bool → Exec (Agent X) String Response
  unfolding send_completed
  invoke_uri uri request false s = send uri request s
  invoke_uri uri request true s =
      send_completed uri
        (invoke net.digest net.marshal_params s.keys (net.micros s.outside) build_interceptor
          request)
        s
