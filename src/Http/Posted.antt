-- ===== src/Http/Posted.antt =====
-- pkg/http/http.go and transport/transport.go: what goes to the server, and what comes back from
-- it.
use winchaos.Base.{
  String, false, ◌≡◌, refl, sym, ap, ◌∙◌, ◌⧺◌, nat_eq, nat_eq_iff, Bool-cases, inl, inr,
}
use winchaos.Base.Exec.{Result, value, failure, ok}
use winchaos.Transport.Request.{Request, Uri, add_header, get_body}
use winchaos.Transport.Response.{Response}
use winchaos.Transport.Client.{Agent, Network, invoke_uri}
use winchaos.Transport.Client.Answered.{send-ok}
use winchaos.Http.{HttpClient, Answer, Web, answered, do_invoker}

value-injective : {A : Type 0} {a b : A} → value a ≡ value b → a ≡ b
value-injective h = cc

answered-value :
    (name : String) (r : Result Answer) (text : String)
    → answered name r ≡ value text
    → (a : Answer) × (r ≡ value a) × (a.status ≡ 200) × (a.body ≡ text)
unfolding answered
answered-value name (failure x) text h = cc
answered-value name (value a) text h = elim (Bool-cases (nat_eq a.status 200)) [
  | inl good ↦ (a, refl, (nat_eq_iff a.status 200).0 good, value-injective (rw good at h))
  | inr bad ↦ absurd (cc (rw bad at h))
]

-- When a call of a server that leaves out the interceptors returns a response, over this channel
-- and when the JSON reader reads back the request that was written, it is what was read from the
-- body of a post that the server answered with 200; the post went to the name of the handler behind
-- the url of the channel, with the merged headers and parameters of the request, its new id among
-- them.
pub invoke_uri-posted :
    {X : Type 0} (net : Network X) (web : Web X) (hc : HttpClient)
    → ((uri : Uri) (json : String) (x : X)
        → net.do_invoker uri json x ≡ do_invoker web hc uri json x)
    → (uri : Uri) (request : Request) (s : Agent X) {response : Response}
    → ((json : String)
        → net.marshal_request (add_header "rid" (net.uuid s.outside).0 request) ≡ value json
        → web.unmarshal_request json ≡ add_header "rid" (net.uuid s.outside).0 request)
    → (invoke_uri net uri request false s).0 ≡ ok response
    → let (id, x) = net.uuid s.outside in
      let body = web.marshal_body (get_body (add_header "rid" id request)) in
      (a : Answer) × ((web.post (web.url_string hc.host ⧺ "/" ⧺ uri.handler_name) body x).0
        ≡ value a)
      × (a.status ≡ 200)
      × (net.unmarshal_response a.body ≡ value response)
unfolding invoke_uri do_invoker
invoke_uri-posted net web hc channel uri request s reads_back h =
    let (id, x) = net.uuid s.outside in
    let (bytes, text, marshalled, got, understood) = send-ok net uri request s h in
    let body = web.marshal_body (get_body (web.unmarshal_request bytes)) in
    let (a, posted, good, same) =
      answered-value uri.handler_name
        (web.post (web.url_string hc.host ⧺ "/" ⧺ uri.handler_name) body x).0 text
        (ap (λ r. r.0) (sym (channel (record uri { request_id = id }) bytes x)) ∙ got) in
    let read = reads_back bytes marshalled in (a, (rw read at posted), good, rw same understood)
