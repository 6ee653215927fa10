-- ===== src/Web/Dispatch/Routes.antt =====
-- Which commands reach which handler, and which reach none.
use text.Mathlib.TextLemmas.{nil-append, cons-append}
use winchaos.Base.{
  ℕ, String, true, false, List, [], ◌∷◌, Option, some, ◌≡◌, ◌≢◌, refl, ap, ◌∙◌, ◌==◌, ◌⊎◌, inl, inr,
  eq_iff, ◌⧺◌, arith, split, contains, cons-eq-empty,
}
use winchaos.Base.TextLaws.{has_code, split-whole}
use winchaos.Base.Dict.{get}
use winchaos.Base.Exec.{panicked}
use winchaos.Data.Source.{SourceI}
use winchaos.Transport.Request.{Request}
use winchaos.Cmdexec.Host.{Host}
use winchaos.Cmdexec.Destroy.{destroy_experiment}
use winchaos.Web.Dispatch.{
  kind_of, second?, command_parts, handle_kind, handle_mem, handle_destroy, handle,
}

-- The command, one character at a time.
spelled_command : String → String
spelled_command uid = String.◌∷◌ "d" (
    String.◌∷◌ "e" (
      String.◌∷◌ "s"
        (String.◌∷◌ "t" (String.◌∷◌ "r" (String.◌∷◌ "o" (String.◌∷◌ "y" (String.◌∷◌ " " uid)))))))

destroy-spelled : (uid : String) → "destroy " ⧺ uid ≡ spelled_command uid
unfolding spelled_command
destroy-spelled uid =
    cons-append "d" "estroy " uid
    ∙ ap (String.◌∷◌ "d") (
        cons-append "e" "stroy " uid
        ∙ ap (String.◌∷◌ "e") (
            cons-append "s" "troy " uid
            ∙ ap (String.◌∷◌ "s") (
                cons-append "t" "roy " uid
                ∙ ap (String.◌∷◌ "t") (
                    cons-append "r" "oy " uid
                    ∙ ap (String.◌∷◌ "r") (
                        cons-append "o" "y " uid
                        ∙ ap (String.◌∷◌ "o") (
                            cons-append "y" " " uid
                            ∙ ap (String.◌∷◌ "y") (
                                cons-append " " "" uid ∙ ap (String.◌∷◌ " ") (nil-append uid))))))))

destroy_words :
    (uid : String)
    → has_code b' ' uid ≡ false
    → (contains "destroy" ("destroy " ⧺ uid) ≡ true)
      × (second? (split b' ' ("destroy " ⧺ uid)) ≡ some uid)
unfolding contains split spelled_command
destroy_words uid h =
    (rw (destroy-spelled uid) refl, rw (destroy-spelled uid, split-whole b' ' uid h) refl)

destroy_some : (uid : String) → ("destroy " ⧺ uid == "") ≡ false
unfolding spelled_command
destroy_some uid = rw (destroy-spelled uid) (cons-eq-empty "d" _)

module _ {W : Type 0} (host : Host W) (ds : SourceI W) (duration_error : String → Option String)
    (fuel : ℕ) (request : Request) where
  -- A request that names a kind goes to the handler of that kind.
  pub handle-handle_kind :
      (vals : List String) (name : String)
      → (get "cmd" request.params == "") ≡ false
      → command_parts request.params ≡ (vals, name)
      → (name == "") ≡ false
      → handle host ds duration_error fuel request
        ≡ handle_kind host ds duration_error fuel request.params vals (kind_of name)
  unfolding handle
  handle-handle_kind vals name cmd parts named = rw (cmd, parts, named) refl

  handle-handle_destroy :
      (get "cmd" request.params == "") ≡ false
      → contains "destroy" (get "cmd" request.params) ≡ true
      → handle host ds duration_error fuel request
        ≡ handle_destroy host ds duration_error request.params
  unfolding command_parts kind_of handle_kind
  handle-handle_destroy cmd destroys = handle-handle_kind [] "destroy" cmd (rw destroys refl) refl

pub some_text : (s : String) → s ≢ "" → (s == "") ≡ false
some_text s h = ground (arith, eq_iff s "")

-- The command `destroy` with a uid without spaces ends the experiment of that uid, whatever else
-- the request asks for.
pub handle_destroys :
    {W : Type 0} (host : Host W) (ds : SourceI W) (duration_error : String → Option String)
    (fuel : ℕ) (request : Request) (uid : String)
    → get "cmd" request.params ≡ "destroy " ⧺ uid
    → has_code b' ' uid ≡ false
    → handle host ds duration_error fuel request ≡ destroy_experiment host ds uid
unfolding handle_destroy
handle_destroys host ds duration_error fuel request uid asked one_word =
    let (destroys, second) = destroy_words uid one_word in
    handle-handle_destroy host ds duration_error fuel request (rw asked (destroy_some uid))
      (rw asked destroys)
    ∙ rw (handle_destroy, asked, second) refl

-- A command that lacks its second word ends the handler in a panic: a text with `destroy` in it and
-- without spaces, and the kind `mem` without a load.
pub handle_panics :
    {W : Type 0} (host : Host W) (ds : SourceI W) (duration_error : String → Option String)
    (fuel : ℕ) (request : Request) (w : W)
    → get "cmd" request.params ≢ ""
    → ((contains "destroy" (get "cmd" request.params) ≡ true)
        × (has_code b' ' (get "cmd" request.params) ≡ false))
      ⊎ ((contains "destroy" (get "cmd" request.params) ≡ false)
          × (get "cmd2" request.params ≡ "mem"))
    → handle host ds duration_error fuel request w ≡ (panicked, w)
unfolding command_parts kind_of handle_kind handle_destroy handle_mem split
handle_panics host ds duration_error fuel request w some_cmd (inl (destroys, one_word)) =
    let direct =
      handle-handle_destroy host ds duration_error fuel request (some_text _ some_cmd) destroys in
    rw (direct, handle_destroy, split-whole b' ' _ one_word) refl
handle_panics host ds duration_error fuel request w some_cmd (inr (other_cmd, bare)) =
    let parts : command_parts request.params ≡ ("mem" ∷ [], "mem") = rw (other_cmd, bare) refl in
    rw
      (handle-handle_kind host ds duration_error fuel request ("mem" ∷ []) "mem"
        (some_text _ some_cmd) parts refl)
      refl
