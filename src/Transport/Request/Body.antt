-- ===== src/Transport/Request/Body.antt =====
-- The body that is sent for a request.
use winchaos.Base.{String, [], ◌∷◌, ◌≡◌, refl, eq_iff, arith}
use winchaos.Base.Dict.{Dict, lookup, insert, lookup-insert}
use winchaos.Base.Dict.Keyed.{IsKeyed, first_of}
use winchaos.Transport.Request.{Request, insert_all, get_body}

-- Going through a map leaves its bindings in front of those that were there.
lookup-insert_all :
    (k : String) (m body : Dict String)
    → IsKeyed m
    → lookup k (insert_all m body) ≡ first_of (lookup k m) (lookup k body)
unfolding insert_all lookup
lookup-insert_all k [] body h = refl
lookup-insert_all k ((j, v) ∷ m) body h =
    ground (arith, lookup-insert_all k m (insert j v body), lookup-insert j k v body, eq_iff j k)

-- The body has each header, and each parameter that no header hides, in whatever order the maps are
-- gone through.
pub lookup-get_body :
    (k : String) (r : Request)
    → IsKeyed r.headers
    → IsKeyed r.params
    → lookup k (get_body r) ≡ first_of (lookup k r.headers) (lookup k r.params)
unfolding get_body lookup
lookup-get_body k r headers params =
    ground (
      arith,
      lookup-insert_all k r.headers (insert_all r.params []),
      lookup-insert_all k r.params [],
    )
