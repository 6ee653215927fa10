-- ===== src/Transport/Interceptor/Refusal.antt =====
-- What the sending half of the chain does without keys.
use winchaos.Base.{ℕ, ap, [], String, some, ◌≡◌, ◌⊎◌, eq_iff, arith}
use winchaos.Base.Decimal.{itoa_ℕ}
use winchaos.Base.Dict.{Dict}
use winchaos.Base.Exec.{Result}
use winchaos.Tools.Sign.{Keys}
use winchaos.Transport.Interceptor.{
  build_interceptor, invoke, do_invoker, auth_invoker, timestamp_invoker,
}
use winchaos.Transport.Request.{Request, add_param}
use winchaos.Transport.Response.{token_not_found, return_fail}

auth_refuses :
    (digest : String → String) (marshal : Dict String → Result String) (keys : Keys)
    (request : Request)
    → (keys.access_key ≡ "") ⊎ (keys.secure_key ≡ "")
    → auth_invoker digest marshal keys request ≡ (some (return_fail token_not_found []), request)
unfolding auth_invoker
auth_refuses digest marshal keys request missing =
    ground (arith, eq_iff keys.access_key "", eq_iff keys.secure_key "")

-- Without one of the keys the chain stops behind the time stamp, at the answer that there is no
-- token.
pub invoke_refuses :
    (digest : String → String) (marshal : Dict String → Result String) (keys : Keys) (now : ℕ)
    (request : Request)
    → (keys.access_key ≡ "") ⊎ (keys.secure_key ≡ "")
    → invoke digest marshal keys now build_interceptor request
      ≡ (some (return_fail token_not_found []), add_param "ts" (itoa_ℕ now) request)
unfolding invoke do_invoker build_interceptor timestamp_invoker
invoke_refuses digest marshal keys now request missing =
    let stopped = auth_refuses digest marshal keys (add_param "ts" (itoa_ℕ now) request) missing in
    rw (invoke, stopped) (ap (λ r. (some (return_fail token_not_found []), r.1)) stopped)
