-- ===== src/Transport/Client/Returns.antt =====
-- Every call of the client comes back, with a response or an error.
use winchaos.Base.{String, Bool, true, false, Option, none, some}
use winchaos.Base.Exec.{Flow, ok, err, panic, no_fuel, Exec, Result, value, failure, continue}
use winchaos.Transport.Interceptor.{build_interceptor, invoke}
use winchaos.Transport.Request.{Request, Uri, add_header}
use winchaos.Transport.Response.{Response}
use winchaos.Transport.Client.{Agent, Network, lift, send, send_completed, invoke_uri}

-- A call that ends with a value or an error.
abbrev pub Returns : {W A : Type 0} → Flow String A × W → Type 0
Returns (ok a, w) = Unit
Returns (err x, w) = Unit
Returns (panic, w) = ⊥
Returns (no_fuel, w) = ⊥

continue-Returns :
    {W A B : Type 0} (r : Flow String A × W) (f : A → Exec W String B)
    → Returns r
    → ((a : A) (w : W) → Returns (f a w))
    → Returns (continue r f)
continue-Returns (ok a, w) f h all = all a w
continue-Returns (err x, w) f h all = tt
continue-Returns (panic, w) f h all = h
continue-Returns (no_fuel, w) f h all = h

module _ {X : Type 0} (net : Network X) where
  lift-Returns : {A : Type 0} (r : Result A) (s : Agent X) → Returns (lift net r s)
  lift-Returns (value a) s = tt
  lift-Returns (failure x) s = tt

  pub send-Returns :
      (uri : Uri) (request : Request) (s : Agent X) → Returns (send net uri request s)
  unfolding send
  send-Returns uri request s =
      let s1 = record s { outside = (net.uuid s.outside).1 } in
      let named = add_header "rid" (net.uuid s.outside).0 request in
      continue-Returns (lift net (net.marshal_request named) s1) _
        (lift-Returns (net.marshal_request named) s1)
        (λ bytes s2.
          continue-Returns
            (lift net
              (net.do_invoker (record uri { request_id = (net.uuid s.outside).0 }) bytes
                s2.outside).0
              (record s2 {
                outside =
                    (net.do_invoker (record uri { request_id = (net.uuid s.outside).0 }) bytes
                      s2.outside).1;
              }))
            _ (lift-Returns _ _) (λ result s4. lift-Returns (net.unmarshal_response result) s4))

  send_completed-Returns :
      (uri : Uri) (r : Option Response × Request) (s : Agent X)
      → Returns (send_completed net uri r s)
  unfolding send_completed
  send_completed-Returns uri (some response, request) s = tt
  send_completed-Returns uri (none, request) s = send-Returns uri request s

  pub invoke_uri-Returns :
      (uri : Uri) (request : Request) (intercepted : Bool) (s : Agent X)
      → Returns (invoke_uri net uri request intercepted s)
  unfolding invoke_uri
  invoke_uri-Returns uri request false s = send-Returns uri request s
  invoke_uri-Returns uri request true s =
      send_completed-Returns uri
        (invoke net.digest net.marshal_params s.keys (net.micros s.outside) build_interceptor
          request)
        s
