-- ===== src/Web/Cache/Running.antt =====
-- The experiments that run, from their start to their end.
use winchaos.Base.{
  String, Bool, false, ◌||◌, List, [], ◌∷◌, ◌⊎◌, Option, none, some, ◌≡◌, refl, ◌∙◌, ◌==◌,
  if◌then◌else◌, arith, Bool-cases, inl, inr,
}
use winchaos.Base.Dict.{Dict, lookup, lookup-insert, lookup-delete}
use winchaos.Base.Exec.{Flow, ok, err, panic, no_fuel}
use winchaos.Transport.Value.{str}
use winchaos.Transport.Response.{Response}
use winchaos.Web.Blade.{
  Blade, Preparation, is_create_or_prepare_cmd, is_destroy_or_revoke_cmd, is_revoke_operation,
  query_preparation_status,
}
use winchaos.Web.Cache.{Handler, remember, revoked, forget, handle_cache_and_safe_point}

-- The words that begin an experiment or a preparation, and those that end one.
abbrev pub begin_words : List String
begin_words = "create" ∷ "c" ∷ "prepare" ∷ "p" ∷ []

abbrev pub end_words : List String
end_words = "destroy" ∷ "d" ∷ "revoke" ∷ "r" ∷ []

abbrev pub listed : List String → String → Bool
listed [] command = false
listed (word ∷ words) command = command == word || listed words command

-- The command that runs under each uid behind a command, with the uid of its answer.
abbrev pub running_after : String → String → String → String → Dict String → String → Option String
running_after cmdline command arg uid running k =
    if listed begin_words command
    then (if uid == k then some cmdline else lookup k running)
    else if listed end_words command
    then (if arg == k then none else lookup k running)
    else lookup k running

begins_listed : (command : String) → is_create_or_prepare_cmd command ≡ listed begin_words command
begins_listed command = ground arith

ends_listed : (command : String) → is_destroy_or_revoke_cmd command ≡ listed end_words command
ends_listed command = ground arith

module _ {W : Type 0} (blade : Blade W) where
  remember_runs :
      (cmdline command arg uid : String) (ch : Handler) (w : W) (k : String)
      → lookup k (remember blade cmdline command arg uid (ch, w)).1.0.running
        ≡ (if uid == k then some cmdline else lookup k ch.running)
  unfolding remember
  remember_runs cmdline command arg uid ch w k =
      ground (arith, lookup-insert uid k cmdline ch.running)

  revoked_runs :
      (uid : String) (ch : Handler) (r : Flow String Preparation × W) (k : String)
      → lookup k (revoked blade uid ch r).1.0.running ≡ lookup k ch.running
  unfolding revoked
  revoked_runs uid ch (ok r, w) k = ground arith
  revoked_runs uid ch (err x, w) k = refl
  revoked_runs uid ch (panic, w) k = refl
  revoked_runs uid ch (no_fuel, w) k = refl

  forget_runs :
      (command uid : String) (ch : Handler) (w : W) (k : String)
      → lookup k (forget blade command uid (ch, w)).1.0.running
        ≡ (if uid == k then none else lookup k ch.running)
  unfolding forget
  forget_runs command uid ch w k = elim (Bool-cases (is_revoke_operation command)) [
    | inl revoke ↦ rw revoke (
        revoked_runs uid _ (query_preparation_status blade uid w) k
        ∙ lookup-delete uid k ch.running)
    | inr destroy ↦ rw destroy (lookup-delete uid k ch.running)
  ]

handle_cache-others :
    {W : Type 0} (blade : Blade W) (cmdline command arg uid : String) (response : Response)
    (ch : Handler) (w : W)
    → listed begin_words command ≡ false
    → (k : String)
    → lookup k (handle_cache_and_safe_point blade cmdline command arg response (ch, w)).1.0.running
      ≡ running_after cmdline command arg uid ch.running k
unfolding handle_cache_and_safe_point
handle_cache-others blade cmdline command arg uid response ch w other k =
    let is_other = begins_listed command ∙ other in
    elim (Bool-cases (listed end_words command)) [
      | inl destroy ↦
          rw (is_other, ends_listed command ∙ destroy, other, destroy)
            (forget_runs blade command arg ch w k)
      | inr neither ↦ rw (is_other, ends_listed command ∙ neither, other, neither) refl
    ]

-- For an answer whose result is the text of a uid, or a command that is none of create, c, prepare
-- and p, whatever the watching goroutines and the look-ups of agents do: behind those words the
-- command runs under that uid; behind destroy, d, revoke and r nothing runs under the argument; and
-- all else that runs is as it was.
pub handle_cache-running :
    {W : Type 0} (blade : Blade W) (cmdline command arg uid : String) (response : Response)
    (ch : Handler) (w : W)
    → (listed begin_words command ≡ false) ⊎ (response.result ≡ str uid)
    → (k : String)
    → lookup k (handle_cache_and_safe_point blade cmdline command arg response (ch, w)).1.0.running
      ≡ running_after cmdline command arg uid ch.running k
unfolding handle_cache_and_safe_point
handle_cache-running blade cmdline command arg uid response ch w (inl other) k =
    handle_cache-others blade cmdline command arg uid response ch w other k
handle_cache-running blade cmdline command arg uid response ch w (inr e) k =
    elim (Bool-cases (listed begin_words command)) [
      | inl create ↦
          rw (begins_listed command ∙ create, create, e)
            (remember_runs blade cmdline command arg uid ch w k)
      | inr other ↦ handle_cache-others blade cmdline command arg uid response ch w other k
    ]
