-- ===== src/Web/Dispatch/Kinds.antt =====
-- web/handler/chaosblade.go: `Handle` by the first word of its second command.
use text.Mathlib.TextLemmas.{nil-append, cons-append}
use winchaos.Base.{
  ℕ, String, true, false, [], ◌∷◌, Option, none, some, ◌≡◌, ◌≢◌, refl, subst, ◌==◌, ◌⊎◌, inl, inr,
  eq_iff, ◌⧺◌, arith, Bool-cases, split, contains, cons-eq-empty,
}
use winchaos.Base.TextLaws.{has_code, split-whole, split-append}
use winchaos.Base.Dict.{Dict, lookup, get}
use winchaos.Base.Exec.{Outcome, returned}
use winchaos.Data.Source.{SourceI}
use winchaos.Transport.Request.{Request}
use winchaos.Transport.Response.{Response, return_fail}
use winchaos.Cmdexec.Host.{Host}
use winchaos.Web.Dispatch.{
  kind_of, first, command_parts, handle_kind, handle_cpu, handle_mem, handle_script, handle_destroy,
  handle_status, handle,
}
use winchaos.Web.Dispatch.Routes.{handle-handle_kind, some_text}

-- A text that begins with this word: the word alone, or with a dash and more behind it.
abbrev pub BeginsWith : String → String → Type 0
BeginsWith word s = (s ≡ word) ⊎ ((rest : String) × (s ≡ word ⧺ String.◌∷◌ "-" rest))

some_behind : (s t : String) → (s ⧺ String.◌∷◌ "-" t == "") ≡ false
some_behind String.[] t = rw (nil-append) (cons-eq-empty "-" t)
some_behind (String.◌∷◌ c s) t = rw (cons-append) (cons-eq-empty c _)

first_word :
    (word s : String)
    → has_code b'-' word ≡ false
    → (word == "") ≡ false
    → BeginsWith word s
    → ((s == "") ≡ false) × (first (split b'-' s) ≡ word)
first_word word s plain named (inl same) =
    (rw same named, rw (same, split-whole b'-' word plain) refl)
first_word word s plain named (inr (rest, same)) =
    (rw same (some_behind word rest), rw (same, split-append b'-' word rest "-" refl plain) refl)

swapped : (a b : String) → (a == b) ≡ false → (b == a) ≡ false
swapped a b h = ground (arith, eq_iff a b, eq_iff b a)

module _ {W : Type 0} (host : Host W) (ds : SourceI W) (duration_error : String → Option String)
    (fuel : ℕ) (params : Dict String) where
  -- The handlers under the words of their kinds.
  abbrev pub routes : Dict (W → Outcome Response × W)
  routes =
      let vals = split b'-' (get "cmd2" params) in
      ("status", handle_status host ds duration_error params)
      ∷ ("destroy", handle_destroy host ds duration_error params)
      ∷ ("script", handle_script host ds duration_error fuel params vals)
      ∷ ("mem", handle_mem host ds duration_error fuel params vals)
      ∷ ("cpu", handle_cpu host ds duration_error fuel params vals)
      ∷ []

  -- What a handler does, or, where there is none, an answer that is a failure and nothing else.
  abbrev pub Routed : Option (W → Outcome Response × W) → Outcome Response × W → W → Type 0
  Routed none o w = (r : Response) × (o ≡ (returned r, w)) × (r.success ≡ false)
  Routed (some run_handler) o w = o ≡ run_handler w

  abbrev Goes : W → String → Type 0
  Goes w kind =
      Routed (lookup kind routes)
        (handle_kind host ds duration_error fuel params (split b'-' (get "cmd2" params))
          (kind_of kind) w)
        w

  at_word : (w : W) (word kind : String) → (word == kind) ≡ true → Goes w word → Goes w kind
  at_word w word kind same here = subst (Goes w) ((eq_iff word kind).0 same) here

  handle_kind-Goes : (w : W) (kind : String) → Goes w kind
  unfolding lookup kind_of handle_kind return_fail
  handle_kind-Goes w kind = elim (Bool-cases ("cpu" == kind)) [
    | inl cpu ↦ at_word w "cpu" kind cpu refl
    | inr no_cpu ↦ elim (Bool-cases ("mem" == kind)) [
      | inl mem ↦ at_word w "mem" kind mem refl
      | inr no_mem ↦ elim (Bool-cases ("script" == kind)) [
        | inl script ↦ at_word w "script" kind script refl
        | inr no_script ↦ elim (Bool-cases ("destroy" == kind)) [
          | inl destroy ↦ at_word w "destroy" kind destroy refl
          | inr no_destroy ↦ elim (Bool-cases ("status" == kind)) [
            | inl status ↦ at_word w "status" kind status refl
            | inr no_status ↦
                rw
                  (
                    no_cpu,
                    no_mem,
                    no_script,
                    no_destroy,
                    no_status,
                    swapped "cpu" kind no_cpu,
                    swapped "mem" kind no_mem,
                    swapped "script" kind no_script,
                    swapped "destroy" kind no_destroy,
                    swapped "status" kind no_status,
                  )
                  (_, refl, refl)
          ]
        ]
      ]
    ]
  ]

-- A request whose first command has a text without `destroy` in it, and whose second begins with a
-- word, which a dash may follow: the words cpu, mem, script, destroy and status lead to their
-- handlers; any other word is answered with a failure, and nothing is done.
pub handle_routes :
    {W : Type 0} (host : Host W) (ds : SourceI W) (duration_error : String → Option String)
    (fuel : ℕ) (request : Request) (word : String) (w : W)
    → get "cmd" request.params ≢ ""
    → contains "destroy" (get "cmd" request.params) ≡ false
    → has_code b'-' word ≡ false
    → word ≢ ""
    → BeginsWith word (get "cmd2" request.params)
    → Routed host ds duration_error fuel request.params
        (lookup word (routes host ds duration_error fuel request.params))
        (handle host ds duration_error fuel request w)
        w
unfolding command_parts
handle_routes host ds duration_error fuel request word w asked other plain named begins =
    let params = request.params in
    let named' = some_text word named in
    let (some_cmd2, first_is) = first_word word (get "cmd2" params) plain named' begins in
    let parts : command_parts params ≡ (split b'-' (get "cmd2" params), word) =
      rw (command_parts, other, some_cmd2, first_is) refl in
    rw
      (handle-handle_kind host ds duration_error fuel request (split b'-' (get "cmd2" params)) word
        (some_text _ asked) parts named')
      (handle_kind-Goes host ds duration_error fuel params w word)
