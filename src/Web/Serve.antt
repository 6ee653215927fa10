-- ===== src/Web/Serve.antt =====
-- web/api and web/server: how a request reaches a handler, and how its answer goes back.
pub mod Unchecked
pub mod Names
use winchaos.Base.{
  String, Bool, true, false, List, [], ◌∷◌, Option, none, some, ◌⧺◌, ◌==◌, if◌then◌else◌, is_some,
}
use winchaos.Base.Dict.{Dict, lookup, insert}
use winchaos.Base.Exec.{
  Result, value, failure, Flow, ok, err, panic, no_fuel, Exec, or_else, pure, ◌>>=◌, Outcome,
  returned, panicked, exhausted,
}
use winchaos.Transport.Request.{Request}
use winchaos.Transport.Response.{Response, return_fail, handler_closed}
use winchaos.Transport.Interceptor.{Interceptor, build_interceptor}

-- `json.Unmarshal` into a request, and `json.Marshal` of a response.
pub record Codec : Type 0 where
  pub unmarshal : String → Result Request
  pub marshal : Response → Result String

-- web/api/handler.go: the handler of an api with its chain of interceptors; `closed` is whether its
-- context is done.
pub record ServerRequestHandler (W : Type 0) : Type 0 where
  pub interceptor : List Interceptor
  pub handler : Request → W → Outcome Response × W
  pub closed : Bool

unfoldable pub new_server_request_handler :
    {W : Type 0} → (Request → W → Outcome Response × W) → ServerRequestHandler W
new_server_request_handler h = record {
  interceptor = build_interceptor;
  handler = h;
  closed = false;
}

module _ {W : Type 0} (codec : Codec) where
  unfoldable pub encoded : Result String → W → Flow String String × W
  encoded (value bytes) w = (ok bytes, w)
  encoded (failure x) w = (err x, w)

  unfoldable pub encode : Outcome Response × W → Flow String String × W
  encode (returned response, w) = encoded (codec.marshal response) w
  encode (panicked, w) = (panic, w)
  encode (exhausted, w) = (no_fuel, w)

  unfoldable pub decoded : ServerRequestHandler W → Result Request → Exec W String String
  decoded h (value request) w = encode (h.handler request w)
  decoded h (failure x) w = (err x, w)

  -- `(*ServerRequestHandler).Handle`
  unfoldable pub handle : ServerRequestHandler W → String → Exec W String String
  handle h text w =
      if h.closed
      then encode (returned (return_fail handler_closed []), w)
      else decoded h (codec.unmarshal text) w

-- web/server/http.go: what is written for the keys of the form, in the order in which they are gone
-- through.
module _ {W : Type 0} where
  unfoldable pub answer_form :
      String → (String → Exec W String String) → List String → Exec W String (List String)
  answer_form name serve [] = pure []
  answer_form name serve (k ∷ keys) = do
    result ← or_else (λ x. "handle " ⧺ name ⧺ " request err, " ⧺ x) (serve k)
    more ← answer_form name serve keys
    pure (result ∷ more)

-- web/server/gateway.go: the table `web.Handlers`; a handler may be nil.
module _ {H : Type 0} where
  unfoldable pub register_handler : String → Option H → Dict H → Result (Dict H)
  register_handler name handler handlers =
      if name == "" then failure "handlerName can not be blank" else elim handler [
        | none ↦ failure "handler can not be null"
        | some h ↦
            value (if is_some (lookup name handlers) then handlers else insert name h handlers)
      ]

  -- A registration that fails leaves the table as it is.
  abbrev kept_or : Dict H → Result (Dict H) → Dict H
  kept_or handlers (value handlers') = handlers'
  kept_or handlers (failure x) = handlers

  unfoldable pub register_all : List (String × Option H) → Dict H → Dict H
  register_all [] handlers = handlers
  register_all ((name, handler) ∷ more) handlers =
      register_all more (kept_or handlers (register_handler name handler handlers))

-- web/api/api.go: `(*API).Register`, over the registration of a server. The first that fails ends
-- it.
module _ {H S : Type 0} (register_handler_of : String → H → S → Result S) where
  abbrev and_then : Result S → (S → Result S) → Result S
  and_then (value s) f = f s
  and_then (failure x) f = failure x

  unfoldable pub register : H → H → H → H → S → Result S
  register chaosblade ping uninstall update s =
      and_then
        (and_then
          (and_then (register_handler_of "chaosblade" chaosblade s)
            (register_handler_of "ping" ping))
          (register_handler_of "uninstall" uninstall))
        (register_handler_of "updateApplication" update)
