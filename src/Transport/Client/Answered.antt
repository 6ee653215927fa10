-- ===== src/Transport/Client/Answered.antt =====
-- What stands behind a response that the client returns.
use winchaos.Base.{String, ◌≡◌, refl, ap}
use winchaos.Base.Exec.{ok, Exec, Result, value, failure, continue, ok-injective}
use winchaos.Transport.Request.{Request, Uri, add_header}
use winchaos.Transport.Response.{Response}
use winchaos.Transport.Client.{Agent, Network, lift, send}

module _ {X : Type 0} (net : Network X) where
  lift-continue :
      {A B : Type 0} (r : Result A) (f : A → Exec (Agent X) String B) (s : Agent X) {b : B}
      → (continue (lift net r s) f).0 ≡ ok b
      → (a : A) × (r ≡ value a) × ((f a s).0 ≡ ok b)
  lift-continue (value a) f s h = (a, refl, h)
  lift-continue (failure x) f s h = cc

  lift-ok :
      {A : Type 0} (r : Result A) (s : Agent X) {a : A} → (lift net r s).0 ≡ ok a → r ≡ value a
  lift-ok (value b) s h = ap value (ok-injective h)
  lift-ok (failure x) s h = cc

  -- The request was marshalled with its id, the channel answered, and the answer was read.
  pub send-ok :
      (uri : Uri) (request : Request) (s : Agent X) {response : Response}
      → (send net uri request s).0 ≡ ok response
      → let (id, x) = net.uuid s.outside in
        (bytes : String) × (text : String) × (net.marshal_request (add_header "rid" id request)
          ≡ value bytes)
        × ((net.do_invoker (record uri { request_id = id }) bytes x).0 ≡ value text)
        × (net.unmarshal_response text ≡ value response)
  unfolding send
  send-ok uri request s h =
      let id = (net.uuid s.outside).0 in
      let (bytes, marshalled, h1) =
        lift-continue (net.marshal_request (add_header "rid" id request)) _ _ h in
      let (text, answered, h2) = lift-continue _ _ _ h1 in
      (bytes, text, marshalled, answered, lift-ok (net.unmarshal_response text) _ h2)
