-- ===== src/Transport/Interceptor/Acceptance.antt =====
-- Which requests pass the checks of the chain.
use winchaos.Base.{
  String, false, none, ◌≡◌, ◌≢◌, ◌↔◌, ◌⊎◌, refl, ◌==◌, ◌⧺◌, eq_iff, arith, if◌then◌else◌,
}
use winchaos.Base.Decimal.{atoi}
use winchaos.Base.Dict.{Dict, get}
use winchaos.Base.Exec.{Result, value, failure}
use winchaos.Tools.Sign.{Keys, auth}
use winchaos.Transport.Request.{Request}
use winchaos.Transport.Interceptor.{
  check_marshalled, auth_handler, timestamp_handler, do_handler, handle, build_interceptor,
}

module _ (digest : String → String) (marshal : Dict String → Result String) (keys : Keys) where
  -- The text that a request's signature has to cover: the header `sd`, or the parameters.
  abbrev pub covered : Request → Result String
  covered request =
      if get "sd" request.headers == ""
      then marshal request.params
      else value (get "sd" request.headers)

  -- A request with a time stamp that is a number, for the agent's access key or for none, and with
  -- the digest of the covered text and the agent's secret.
  pub record IsAccepted (request : Request) : Type 0 where
    pub stamped : get "ts" request.params ≢ ""
    pub numeric : (atoi (get "ts" request.params)).1 ≡ false
    pub named : (get "ak" request.headers ≡ "") ⊎ (get "ak" request.headers ≡ keys.access_key)
    pub present : get "sn" request.headers ≢ ""
    pub bytes : String
    pub covers : covered request ≡ value bytes
    pub genuine : get "sn" request.headers ≡ digest (bytes ⧺ keys.secure_key)

  timestamp_handler_iff :
      (request : Request)
      → (timestamp_handler digest marshal keys request ≡ none)
        ↔ ((get "ts" request.params ≢ "") × ((atoi (get "ts" request.params)).1 ≡ false))
  unfolding timestamp_handler
  timestamp_handler_iff request = ground (arith, eq_iff (get "ts" request.params) "")

  check_marshalled_sound :
      (received : String) (r : Result String)
      → check_marshalled digest marshal keys received r ≡ none
      → (bytes : String) × (r ≡ value bytes) × (received ≡ digest (bytes ⧺ keys.secure_key))
  unfolding check_marshalled auth
  check_marshalled_sound received (value b) h =
      (b, refl, ground (arith, eq_iff (digest (b ⧺ keys.secure_key)) received))
  check_marshalled_sound received (failure x) h = cc

  check_marshalled_complete :
      (received b : String) (r : Result String)
      → r ≡ value b
      → received ≡ digest (b ⧺ keys.secure_key)
      → check_marshalled digest marshal keys received r ≡ none
  unfolding check_marshalled auth
  check_marshalled_complete received b r e h =
      rw e (ground (arith, eq_iff (digest (b ⧺ keys.secure_key)) received))

  -- The checks of the signature, behind the test for its presence.
  auth_handler_cases :
      (request : Request)
      → (auth_handler digest marshal keys request ≡ none) ↔ (
          (get "sn" request.headers ≢ "")
          × ((get "ak" request.headers ≡ "") ⊎ (get "ak" request.headers ≡ keys.access_key))
          × (check_marshalled digest marshal keys (get "sn" request.headers) (covered request)
              ≡ none))
  unfolding auth_handler
  auth_handler_cases request = ground (
    arith,
    eq_iff (get "sn" request.headers) "",
    eq_iff (get "ak" request.headers) "",
    eq_iff (get "ak" request.headers) keys.access_key,
  )

  handle-eq-none :
      (request : Request)
      → (handle digest marshal keys build_interceptor request ≡ none) ↔ (
          (timestamp_handler digest marshal keys request ≡ none)
          × (auth_handler digest marshal keys request ≡ none))
  unfolding handle do_handler build_interceptor
  handle-eq-none request = ground arith

-- The chain lets a request through exactly if its time stamp is a number, its access key is missing
-- or the agent's, and its signature is there and is the digest of the covered text and the secret.
pub handle_accepts_iff :
    (digest : String → String) (marshal : Dict String → Result String) (keys : Keys)
    (request : Request)
    → (handle digest marshal keys build_interceptor request ≡ none)
      ↔ IsAccepted digest marshal keys request
handle_accepts_iff digest marshal keys request = (
  λ h.
      let (time, signature) = (handle-eq-none digest marshal keys request).0 h in
      let (stamped, numeric) = (timestamp_handler_iff digest marshal keys request).0 time in
      let (present, named, verified) =
        (auth_handler_cases digest marshal keys request).0 signature in
      let (bytes, covers, genuine) = check_marshalled_sound digest marshal keys _ _ verified in
      record {
        stamped = stamped;
        numeric = numeric;
        named = named;
        present = present;
        bytes = bytes;
        covers = covers;
        genuine = genuine;
      },
  λ a. (handle-eq-none digest marshal keys request).1 (
    (timestamp_handler_iff digest marshal keys request).1 (a.stamped, a.numeric),
    (auth_handler_cases digest marshal keys request).1 (
      a.present,
      a.named,
      check_marshalled_complete digest marshal keys _ a.bytes _ a.covers a.genuine,
    ),
  ),
)

-- Where a request names the text that it signs in the header `sd`, the parameters other than the
-- time stamp are not covered: the answer of the chain is the same for any others.
pub handle_ignores_params :
    (digest : String → String) (marshal : Dict String → Result String) (keys : Keys)
    (request other : Request)
    → get "sd" request.headers ≢ ""
    → other.headers ≡ request.headers
    → get "ts" other.params ≡ get "ts" request.params
    → handle digest marshal keys build_interceptor other
      ≡ handle digest marshal keys build_interceptor request
unfolding handle do_handler build_interceptor timestamp_handler auth_handler
handle_ignores_params digest marshal keys request other named same_headers same_time =
    ground (arith, eq_iff (get "sd" request.headers) "")
