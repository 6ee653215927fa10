-- ===== src/Transport/Client/Withheld.antt =====
-- What the agent sends, and what it holds back.
use winchaos.Base.{[], true, ◌≡◌, refl, ◌⊎◌}
use winchaos.Base.Exec.{err}
use winchaos.Transport.Interceptor.Refusal.{invoke_refuses}
use winchaos.Transport.Request.{Request, Uri}
use winchaos.Transport.Response.{token_not_found, return_fail}
use winchaos.Transport.Client.{Agent, Network, invoke_uri}

-- An agent that lacks one of its keys sends nothing through the interceptors: the call is an error
-- and neither the agent nor the world outside changes.
pub invoke_uri_withholds :
    {X : Type 0} (net : Network X) (uri : Uri) (request : Request) (s : Agent X)
    → (s.keys.access_key ≡ "") ⊎ (s.keys.secure_key ≡ "")
    → invoke_uri net uri request true s ≡ (err (return_fail token_not_found []).error, s)
unfolding invoke_uri
invoke_uri_withholds net uri request s missing =
    rw
      (
        invoke_uri,
        invoke_refuses net.digest net.marshal_params s.keys (net.micros s.outside) request missing,
      )
      refl
