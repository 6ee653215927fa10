-- ===== src/Web/Serve/Unchecked.antt =====
-- web/api/handler.go, transport/interceptor.go and web/handler/chaosblade.go: who is served.
use winchaos.Base.{ℕ, String, false, Option, none, ◌≡◌, ◌≢◌, refl, ◌⧺◌}
use winchaos.Base.TextLaws.{has_code}
use winchaos.Base.Dict.{Dict, get}
use winchaos.Base.Exec.{Result, value}
use winchaos.Data.Source.{SourceI}
use winchaos.Tools.Sign.{Keys}
use winchaos.Transport.Request.{Request}
use winchaos.Transport.Interceptor
use winchaos.Transport.Interceptor.Acceptance.{handle_accepts_iff}
use winchaos.Cmdexec.Host.{Host}
use winchaos.Cmdexec.Destroy.{destroy_experiment}
use winchaos.Web.Dispatch
use winchaos.Web.Dispatch.Routes.{handle_destroys}
use winchaos.Web.Serve.{Codec, new_server_request_handler, encode, decoded, handle}

-- A command `destroy` without a signature is one that the chain of interceptors of its handler
-- refuses, and it is served all the same: the answer is that of the end of the experiment, which is
-- ended.
pub unsigned_destroy_served :
    {W : Type 0} (host : Host W) (ds : SourceI W) (duration_error : String → Option String)
    (fuel : ℕ) (codec : Codec) (digest : String → String) (marshal : Dict String → Result String)
    (keys : Keys) (text : String) (request : Request) (uid : String) (w : W)
    → codec.unmarshal text ≡ value request
    → get "cmd" request.params ≡ "destroy " ⧺ uid
    → has_code b' ' uid ≡ false
    → get "sn" request.headers ≡ ""
    → let api = new_server_request_handler (Dispatch.handle host ds duration_error fuel) in
      (Interceptor.handle digest marshal keys api.interceptor request ≢ none)
      × (handle codec api text w ≡ encode codec (destroy_experiment host ds uid w))
unfolding handle decoded new_server_request_handler
unsigned_destroy_served host ds duration_error fuel codec digest marshal keys text request uid w
      decodes asked one_word unsigned =
    (
      λ passed. ((handle_accepts_iff digest marshal keys request).0 passed).present unsigned,
      rw (decodes, handle_destroys host ds duration_error fuel request uid asked one_word) refl,
    )
