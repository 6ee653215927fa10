-- ===== src/Http/Endpoint.antt =====
-- pkg/http/http.go: which server an endpoint names.
use text.Mathlib.TextLemmas.{nil-append, cons-append}
use winchaos.Base.{
  ℕ, String, false, Option, none, some, ◌≡◌, ◌≢◌, refl, ap, ◌∙◌, cons-eq-empty, ◌==◌, eq_iff, ◌⧺◌,
  ◌^◌, ◌<◌, cut, arith,
}
use winchaos.Base.TextLaws.{has_code, append-some, cut-append, cut-whole}
use winchaos.Base.Decimal.{itoa_ℕ}
use winchaos.Base.Decimal.RoundTrip.{atoi-itoa_ℕ}
use winchaos.Options.{Options, TransportConfig}
use winchaos.Http.{port_of, endpoint_or_default, get_direct_instance, new_http_client}

colon-cons : (s : String) → ":" ⧺ s ≡ String.◌∷◌ ":" s
colon-cons s = cons-append ":" "" s ∙ ap (String.◌∷◌ ":") (nil-append s)

port_of-itoa_ℕ : (n : ℕ) → n < 2 ^ 32 → port_of (some (itoa_ℕ n)) ≡ n
port_of-itoa_ℕ n small = rw (atoi-itoa_ℕ n (omega arith)) (omega arith)

cut-endpoint :
    (endpoint host port : String)
    → has_code b':' host ≡ false
    → endpoint ≡ host ⧺ ":" ⧺ port
    → cut b':' (endpoint_or_default endpoint) ≡ (host, some port)
cut-endpoint endpoint host port one_colon given =
    let whole : endpoint ≡ host ⧺ String.◌∷◌ ":" port =
      given ∙ ap (λ s. host ⧺ s) (colon-cons port) in
    rw (whole, append-some host (String.◌∷◌ ":" port) (cons-eq-empty ":" port))
      (cut-append b':' host port ":" refl one_colon)

cut-host :
    (endpoint : String)
    → endpoint ≢ ""
    → has_code b':' endpoint ≡ false
    → cut b':' (endpoint_or_default endpoint) ≡ (endpoint, none)
cut-host endpoint given no_colon =
    let some_text : (endpoint == "") ≡ false = ground (arith, eq_iff endpoint "") in
    rw some_text (cut-whole b':' endpoint no_colon)

-- A host, or a host and a port.
abbrev pub spelled : String → Option ℕ → String
spelled host none = host
spelled host (some n) = host ⧺ ":" ⧺ itoa_ℕ n

abbrev pub or_80 : Option ℕ → ℕ
or_80 none = 80
or_80 (some n) = n

-- An endpoint that is not empty, of a host without a colon, alone or with a port of 32 bits, gives
-- the channel that host and that port, or the port 80; the host of the url spells both.
pub new_http_client-spelled :
    (opts : Options) (config : TransportConfig) (host : String) (port : Option ℕ)
    → has_code b':' host ≡ false
    → or_80 port < 2 ^ 32
    → config.endpoint ≢ ""
    → config.endpoint ≡ spelled host port
    → ((new_http_client opts config).config.server_ip ≡ host)
      × ((new_http_client opts config).config.server_port ≡ or_80 port)
      × ((new_http_client opts config).host ≡ spelled host (some (or_80 port)))
unfolding new_http_client get_direct_instance
new_http_client-spelled opts config host none no_colon small given e =
    rw (cut-host config.endpoint given (rw e no_colon)) (e, refl, ap (λ h. h ⧺ ":" ⧺ itoa_ℕ 80) e)
new_http_client-spelled opts config host (some n) one_colon small given e =
    rw (cut-endpoint config.endpoint host (itoa_ℕ n) one_colon e, port_of-itoa_ℕ n small)
      (refl, refl, refl)
