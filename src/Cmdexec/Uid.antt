-- ===== src/Cmdexec/Uid.antt =====
-- `generateUid` of web/cmdexec/cpu.go, mem.go and script.go: it draws uids until one is new.
use native.Mathlib.Nat.{suc-add}
use winchaos.Base.{
  ℕ, zero, suc, String, Option, none, some, ◌≡◌, refl, sym, ap, ◌∙◌, ◌+◌, ◌⊎◌, inl, inr,
}
use winchaos.Base.Exec.{
  Flow, ok, Exec, ok-injective, >>=-eq-ok, >>=-of-ok, pure, out_of_fuel, ◌>>=◌,
}
use winchaos.Data.Model.{ExperimentModel}
use winchaos.Data.Source.{SourceI, IsSource}
use winchaos.Cmdexec.Host.{Host, IsApart}

module _ {W : Type 0} (host : Host W) (ds : SourceI W) where
  abbrev pub unless_known :
      Option ExperimentModel → String → Exec W String String → Exec W String String
  unless_known none uid again = pure uid
  unless_known (some m) uid again = again

  -- The recursion has no bound in the source; the fuel counts the draws.
  unfoldable pub generate_uid : ℕ → Exec W String String
  generate_uid zero = out_of_fuel
  generate_uid (suc fuel) = do
    uid ← host.generate_uid
    found ← ds.query_experiment_model_by_uid uid
    unless_known found uid (generate_uid fuel)

  -- One of the next `n` draws succeeds and is of an unused uid.
  abbrev pub NewWithin : ℕ → W → Type 0
  NewWithin zero w = ⊥
  NewWithin (suc n) w =
      (uid : String) × ((host.generate_uid w).0 ≡ ok uid)
      × ((found : Option ExperimentModel) × ((ds.query_experiment_model_by_uid uid
              (host.generate_uid w).1).0
            ≡ ok found)
          × ((found ≡ none)
              ⊎ NewWithin n (ds.query_experiment_model_by_uid uid (host.generate_uid w).1).1))

module _ {W : Type 0} (host : Host W) (ds : SourceI W) (find : W → String → Option ExperimentModel)
    (apart : IsApart host find) (law : IsSource ds find) where
  -- What is to be shown of a draw that ends as `r`, begun in `w`.
  abbrev IsFresh : W → String → Flow String String × W → Type 0
  IsFresh w uid r = (find w uid ≡ none) × ((k : String) → find r.1 k ≡ find w k)

  unless_known-IsFresh :
      (found : Option ExperimentModel) (drawn : String) {uid : String}
      (again : Exec W String String) (w : W)
      → found ≡ find w drawn
      → ((again w).0 ≡ ok uid → IsFresh w uid (again w))
      → (unless_known host ds found drawn again w).0 ≡ ok uid
      → IsFresh w uid (unless_known host ds found drawn again w)
  unless_known-IsFresh none drawn again w e ih h = (rw (← ok-injective h) (sym e), λ k. refl)
  unless_known-IsFresh (some m) drawn again w e ih h = ih h

  generate_uid_step :
      (fuel : ℕ) (w : W) {uid : String}
      → (generate_uid host ds fuel w).0 ≡ ok uid
      → IsFresh w uid (generate_uid host ds fuel w)
  unfolding generate_uid
  generate_uid_step zero w h = cc
  generate_uid_step (suc fuel) w h =
      let (drawn, _, h', same) = >>=-eq-ok host.generate_uid _ w h in
      let w' = (host.generate_uid w).1 in
      let (found, answer, h'', same') =
        >>=-eq-ok (ds.query_experiment_model_by_uid drawn) _ w' h' in
      let w'' = (ds.query_experiment_model_by_uid drawn w').1 in
      let found_now = law.query_finds drawn w' answer ∙ sym (law.query_keeps drawn drawn w') in
      let (new, kept) =
        unless_known-IsFresh found drawn (generate_uid host ds fuel) w'' found_now
          (generate_uid_step fuel w'') h'' in
      let before = λ (k : String). law.query_keeps drawn k w' ∙ apart.generate_keeps w k in
      (sym (before _) ∙ new, λ k. rw (same, same') (kept k ∙ before k))

-- A uid that is returned is in no record, and the records are as they were.
pub generate_uid_fresh :
    {W : Type 0} (host : Host W) (ds : SourceI W) (find : W → String → Option ExperimentModel)
    → IsApart host find
    → IsSource ds find
    → (fuel : ℕ) (w : W) {uid : String} → (generate_uid host ds fuel w).0 ≡ ok uid
    → (find w uid ≡ none) × ((k : String) → find (generate_uid host ds fuel w).1 k ≡ find w k)
generate_uid_fresh host ds find apart law fuel w h =
    generate_uid_step host ds find apart law fuel w h

module _ {W : Type 0} (host : Host W) (ds : SourceI W) where
  generate_uid-suc :
      (fuel : ℕ) (w : W) {uid : String} {found : Option ExperimentModel}
      → (host.generate_uid w).0 ≡ ok uid
      → (ds.query_experiment_model_by_uid uid (host.generate_uid w).1).0 ≡ ok found
      → generate_uid host ds (suc fuel) w
        ≡ unless_known host ds found uid
            (generate_uid host ds fuel)
            (ds.query_experiment_model_by_uid uid (host.generate_uid w).1).1
  unfolding generate_uid
  generate_uid-suc fuel w {uid} {found} drawn answer =
      let w' = (host.generate_uid w).1 in
      let again =
        λ (r : Option ExperimentModel). unless_known host ds r uid (generate_uid host ds fuel) in
      >>=-of-ok host.generate_uid _ w drawn
      ∙ >>=-of-ok (ds.query_experiment_model_by_uid uid) again w' answer

  abbrev Ends : ℕ → ℕ → W → Type 0
  Ends n extra w =
      (uid : String) × ((generate_uid host ds n w).0 ≡ ok uid)
      × (generate_uid host ds (n + extra) w ≡ generate_uid host ds n w)

  Ends-suc :
      (n extra : ℕ) (w : W) {uid : String} (found : Option ExperimentModel)
      → (host.generate_uid w).0 ≡ ok uid
      → (ds.query_experiment_model_by_uid uid (host.generate_uid w).1).0 ≡ ok found
      → (found ≡ none)
        ⊎ Ends n extra (ds.query_experiment_model_by_uid uid (host.generate_uid w).1).1
      → Ends (suc n) extra w
  Ends-suc n extra w {uid} none drawn answer _ =
      let step = λ (fuel : ℕ). generate_uid-suc fuel w drawn answer in
      (uid, ap (λ r. r.0) (step n), rw suc-add (step (n + extra) ∙ sym (step n)))
  Ends-suc n extra w {uid} (some m) drawn answer (inr (u, ends, same)) =
      let step = λ (fuel : ℕ). generate_uid-suc fuel w drawn answer in
      (u, ap (λ r. r.0) (step n) ∙ ends, rw suc-add (step (n + extra) ∙ same ∙ sym (step n)))
  Ends-suc n extra w (some m) drawn answer (inl known) = cc

  NewWithin-Ends : (n extra : ℕ) (w : W) → NewWithin host ds n w → Ends n extra w
  NewWithin-Ends zero extra w h = absurd h
  NewWithin-Ends (suc n) extra w (uid, drawn, (found, answer, inl new)) =
      Ends-suc n extra w found drawn answer (inl new)
  NewWithin-Ends (suc n) extra w (uid, drawn, (found, answer, inr later)) =
      Ends-suc n extra w found drawn answer (inr (NewWithin-Ends n extra _ later))

-- If one of the next draws succeeds with an unused uid, as much fuel as draws is enough: a uid
-- comes back that no record had, no record has changed, and more fuel makes no difference.
pub generate_uid_total :
    {W : Type 0} (host : Host W) (ds : SourceI W) (find : W → String → Option ExperimentModel)
    → IsApart host find
    → IsSource ds find
    → (n extra : ℕ) (w : W) → NewWithin host ds n w
    → (uid : String) × ((generate_uid host ds n w).0 ≡ ok uid)
      × (find w uid ≡ none)
      × ((k : String) → find (generate_uid host ds n w).1 k ≡ find w k)
      × (generate_uid host ds (n + extra) w ≡ generate_uid host ds n w)
generate_uid_total host ds find apart law n extra w h =
    let (uid, drawn, more) = NewWithin-Ends host ds n extra w h in
    let (fresh, kept) = generate_uid_fresh host ds find apart law n w drawn in
    (uid, drawn, fresh, kept, more)
