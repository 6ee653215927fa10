-- ===== src/Tests/Serving.antt =====
-- Runs and tests of the HTTP front and of the requests that concern the agent itself.
use winchaos.Base.TextLaws.{has_code}
use winchaos.Base.{String, [], ◌∷◌, none, ◌≡◌, ◌≢◌, refl}
use winchaos.Base.Dict.{get, lookup}
use winchaos.Base.Exec.{value}
use winchaos.Transport.Request.{Request}
use winchaos.Transport.Interceptor
use winchaos.Transport.Client.{Agent}
use winchaos.Options.{default_options}
use winchaos.Cmdexec.Destroy.{destroy_experiment}
use winchaos.Web.Dispatch
use winchaos.Web.Serve.{Codec, new_server_request_handler, encode, handle}
use winchaos.Web.Serve.Unchecked.{unsigned_destroy_served}
use winchaos.Web.Upkeep.{update_application}
use winchaos.Tests.World.{memory, host, world}
use winchaos.Tests.Handlers.{no_duration, destroy_1}
use winchaos.Tests.Requests.{digest, marshal, keys}
use winchaos.Tests.Tools.{files}

abbrev codec : Codec
codec = record { unmarshal = λ text. value destroy_1; marshal = λ response. value "{}" }

unsigned_destroy_served_example :
    let api = new_server_request_handler (Dispatch.handle host memory no_duration 5) in
    (Interceptor.handle digest marshal keys api.interceptor destroy_1 ≢ none)
    × (handle codec api "{}" world ≡ encode codec (destroy_experiment host memory "1" world))
unfolding get lookup has_code
unsigned_destroy_served_example =
    unsigned_destroy_served host memory no_duration 5 codec digest marshal keys "{}" destroy_1 "1"
      world refl refl refl refl

abbrev update_request : Request
update_request = record { headers = []; params = ("appInstance", "shop") ∷ [] }

abbrev agent : Agent String
agent = record { opts = default_options; keys = keys; outside = "old" }

abbrev updated : Agent String
updated = (update_application files update_request agent).1

abbrev shop : String × String
shop = ("shop", "chaos-default-app-group")
