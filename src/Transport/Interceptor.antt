-- ===== src/Transport/Interceptor.antt =====
-- transport/interceptor.go: the chain of interceptors, which checks a request that comes in
-- (`Handle`) and completes one that goes out (`Invoke`).
pub mod Acceptance
pub mod Completion
pub mod Refusal
use winchaos.Base.{
  ℕ, String, Bool, true, false, List, [], ◌∷◌, Option, none, some, ◌==◌, ◌&&◌, ◌||◌, not,
  if◌then◌else◌,
}
use winchaos.Base.Decimal.{atoi, itoa_ℕ}
use winchaos.Base.Dict.{Dict, get}
use winchaos.Base.Exec.{Result, value, failure}
use winchaos.Tools.Sign.{Keys, sign, auth}
use winchaos.Transport.Request.{Request, add_header, add_param}
use winchaos.Transport.Response.{
  Response, text, return_fail, forbidden, invalid_timestamp, token_not_found, encode_error,
}

pub data Interceptor : Type 0 where
  timestamp_interceptor auth_interceptor : Interceptor

-- `BuildInterceptor`: the time stamp first, then the signature.
unfoldable pub build_interceptor : List Interceptor
build_interceptor = timestamp_interceptor ∷ auth_interceptor ∷ []

-- What the interceptors take from outside: the digest of a text, and `json.Marshal` of the
-- parameters.
module _ (digest : String → String) (marshal : Dict String → Result String) (keys : Keys) where
  check_sign : String → String → Option Response
  check_sign received sign_data =
      if auth digest keys received sign_data
      then none
      else some (return_fail forbidden (text "illegal request" ∷ []))

  check_marshalled : String → Result String → Option Response
  unfolding check_sign
  check_marshalled received (value bytes) = check_sign received bytes
  check_marshalled received (failure x) =
      some (return_fail forbidden (text "invalid request parameters" ∷ []))

  -- `(*authInterceptor).doHandler`; `none` is `nil, true`.
  auth_handler : Request → Option Response
  unfolding check_sign check_marshalled
  auth_handler request =
      let received = get "sn" request.headers in
      let access_key = get "ak" request.headers in
      let sign_data = get "sd" request.headers in
      if received == ""
      then some (return_fail forbidden (text "missing sign" ∷ []))
      else if not (access_key == "") && not (access_key == keys.access_key)
      then some (return_fail forbidden (text "accessKey not matched" ∷ []))
      else if sign_data == ""
      then check_marshalled received (marshal request.params)
      else check_sign received sign_data

  -- `(*timestampInterceptor).doHandler`; `ParseInt(s, 10, 64)` fails as `Atoi` does.
  timestamp_handler : Request → Option Response
  timestamp_handler request =
      let request_time = get "ts" request.params in
      if request_time == ""
      then some (return_fail invalid_timestamp [])
      else if (atoi request_time).1
      then some (return_fail invalid_timestamp [])
      else none

  do_handler : Interceptor → Request → Option Response
  unfolding auth_handler timestamp_handler
  do_handler timestamp_interceptor request = timestamp_handler request
  do_handler auth_interceptor request = auth_handler request

  -- `(*requestInterceptorChain).Handle`, for a chain given as the list of its interceptors.
  unfoldable pub handle : List Interceptor → Request → Option Response
  unfolding do_handler
  handle [] request = none
  handle (i ∷ rest) request = elim (do_handler i request) [
    | some response ↦ some response
    | none ↦ handle rest request
  ]

  sign_marshalled : Request → Result String → Option Response × Request
  sign_marshalled request (value bytes) = (none, add_header "sn" (sign digest keys bytes) request)
  sign_marshalled request (failure x) = (some (return_fail encode_error (text x ∷ [])), request)

  -- `(*authInterceptor).doInvoker`, with the request that it leaves.
  auth_invoker : Request → Option Response × Request
  unfolding sign_marshalled
  auth_invoker request =
      let named = add_header "ak" keys.access_key request in
      let sign_data = get "sd" named.headers in
      if keys.access_key == "" || keys.secure_key == ""
      then (some (return_fail token_not_found []), request)
      else if sign_data == ""
      then sign_marshalled named (marshal named.params)
      else (none, add_header "sn" (sign digest keys sign_data) named)

  -- `(*timestampInterceptor).doInvoker`, at the time in microseconds.
  timestamp_invoker : ℕ → Request → Option Response × Request
  timestamp_invoker now request = (none, add_param "ts" (itoa_ℕ now) request)

  do_invoker : ℕ → Interceptor → Request → Option Response × Request
  unfolding auth_invoker timestamp_invoker
  do_invoker now timestamp_interceptor request = timestamp_invoker now request
  do_invoker now auth_interceptor request = auth_invoker request

  -- `(*requestInterceptorChain).Invoke`
  unfoldable pub invoke : ℕ → List Interceptor → Request → Option Response × Request
  unfolding do_invoker
  invoke now [] request = (none, request)
  invoke now (i ∷ rest) request =
      let (failed, request') = do_invoker now i request in
      elim failed [ some response ↦ (some response, request') | none ↦ invoke now rest request' ]
