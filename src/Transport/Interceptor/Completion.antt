-- ===== src/Transport/Interceptor/Completion.antt =====
-- What `Invoke` adds to a request is what `Handle` asks for.
use winchaos.Base.{ℕ, ◌<◌, ◌^◌, String, false, none, ◌≡◌, ◌≢◌, inr, refl, ◌∙◌, eq_iff, arith}
use winchaos.Base.Decimal.{itoa_ℕ, atoi}
use winchaos.Base.Decimal.RoundTrip.{itoa_ℕ-ne-empty, atoi-itoa_ℕ}
use winchaos.Base.Dict.{Dict, get, get-insert}
use winchaos.Base.Exec.{Result, value, failure}
use winchaos.Tools.Sign.{Keys, sign}
use winchaos.Transport.Request.{Request, add_header, add_param}
use winchaos.Transport.Interceptor.{
  sign_marshalled, auth_invoker, timestamp_invoker, do_invoker, invoke, handle, build_interceptor,
}
use winchaos.Transport.Interceptor.Acceptance.{IsAccepted, covered, handle_accepts_iff}

module _ (digest : String → String) (marshal : Dict String → Result String) (keys : Keys) where
  auth_invoker_cases :
      (request request' : Request)
      → auth_invoker digest marshal keys request ≡ (none, request')
      → let named = add_header "ak" keys.access_key request in
        (keys.access_key ≢ "")
        × (sign_marshalled digest marshal keys named (covered digest marshal keys named)
            ≡ (none, request'))
  unfolding auth_invoker sign_marshalled
  auth_invoker_cases request request' h = ground (arith, eq_iff keys.access_key "")

  sign_marshalled_signs :
      (named request' : Request) (r : Result String)
      → sign_marshalled digest marshal keys named r ≡ (none, request')
      → (bytes : String) × (r ≡ value bytes)
        × (add_header "sn" (sign digest keys bytes) named ≡ request')
  unfolding sign_marshalled
  sign_marshalled_signs named request' (value b) h = (b, refl, cc)
  sign_marshalled_signs named request' (failure x) h = cc

  -- Adding the signature changes neither what is covered nor the other headers.
  covered-add_header :
      (s : String) (named : Request)
      → covered digest marshal keys (add_header "sn" s named) ≡ covered digest marshal keys named
  unfolding add_header
  covered-add_header s named = simp get-insert

  completed_headers :
      (s : String) (request : Request)
      → let request' = add_header "sn" s (add_header "ak" keys.access_key request) in
        (get "sn" request'.headers ≡ s)
        × (get "ak" request'.headers ≡ keys.access_key)
        × (request'.params ≡ request.params)
  unfolding add_header
  completed_headers s request = (simp get-insert, simp get-insert, refl)

  auth_invoker_completes :
      (request request' : Request)
      → ((s : String) → digest s ≢ "")
      → get "ts" request.params ≢ ""
      → (atoi (get "ts" request.params)).1 ≡ false
      → auth_invoker digest marshal keys request ≡ (none, request')
      → IsAccepted digest marshal keys request'
  unfolding sign
  auth_invoker_completes request request' digest_ne_empty stamped numeric h =
      let named = add_header "ak" keys.access_key request in
      let (_, signed) = auth_invoker_cases request request' h in
      let (b, covers, same) = sign_marshalled_signs named request' _ signed in
      let (sn, ak, params) = completed_headers (sign digest keys b) request in
      rw (← same) (record {
        stamped = rw params stamped;
        numeric = rw params numeric;
        named = inr ak;
        present = rw sn (digest_ne_empty _);
        bytes = b;
        covers = covered-add_header (sign digest keys b) named ∙ covers;
        genuine = sn;
      })

invoke-eq-none :
    (digest : String → String) (marshal : Dict String → Result String) (keys : Keys) (now : ℕ)
    (request request' : Request)
    → invoke digest marshal keys now build_interceptor request ≡ (none, request')
    → auth_invoker digest marshal keys (add_param "ts" (itoa_ℕ now) request) ≡ (none, request')
unfolding invoke do_invoker build_interceptor timestamp_invoker
invoke-eq-none digest marshal keys now request request' h = ground arith

stamped_param :
    (now : ℕ) (request : Request)
    → get "ts" (add_param "ts" (itoa_ℕ now) request).params ≡ itoa_ℕ now
unfolding add_param
stamped_param now request = simp get-insert

-- A request that the sending half of the chain completes passes the receiving half of an agent with
-- the same keys, if no digest is empty and the clock fits 64 bits.
pub handle-invoke :
    (digest : String → String) (marshal : Dict String → Result String) (keys : Keys) (now : ℕ)
    (request request' : Request)
    → ((s : String) → digest s ≢ "")
    → now < 2 ^ 63
    → invoke digest marshal keys now build_interceptor request ≡ (none, request')
    → handle digest marshal keys build_interceptor request' ≡ none
handle-invoke digest marshal keys now request request' digest_ne_empty fits h =
    let stamped = add_param "ts" (itoa_ℕ now) request in
    (handle_accepts_iff digest marshal keys request').1 (
      auth_invoker_completes digest marshal keys stamped request' digest_ne_empty
        (rw stamped_param (λ e. cc (itoa_ℕ-ne-empty now, (eq_iff (itoa_ℕ now) "").1 e)))
        (rw (stamped_param, atoi-itoa_ℕ now fits))
        (invoke-eq-none digest marshal keys now request request' h))
