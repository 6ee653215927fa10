-- ===== src/Cmdexec/Destroy/Effects.antt =====
-- What the end of an experiment does to its record.
use winchaos.Base.{
  String, true, false, Option, none, some, ◌≡◌, refl, sym, ap, subst, ◌∙◌, ◌==◌, eq_iff, Bool-cases,
  inl, inr, ◌⊎◌, arith,
}
use winchaos.Base.Exec.{
  Flow, ok, err, panic, no_fuel, Result, value, failure, returned, returned-injective,
  err-injective, outcome, rethrow, continue,
}
use winchaos.Data.Model.{ExperimentModel}
use winchaos.Data.Source.{SourceI, IsSource, restamped}
use winchaos.Transport.Value.{str}
use winchaos.Transport.Response.{Response, return_fail, return_success_with_result}
use winchaos.Cmdexec.Host.{Host, IsApart}
use winchaos.Cmdexec.Status.{destroyed}
use winchaos.Cmdexec.Destroy.Keeps.{undo_keeps}
use winchaos.Cmdexec.Destroy.Marking.{Marks, Leaves, settle_from}
use winchaos.Cmdexec.Destroy.{
  experiment_destroy, not_found, destroy_process, undo, mark_destroyed, destroy_found,
  destroy_experiment,
}

-- A record that is destroyed already is left alone: the answer is a success and nothing is done but
-- the look-up.
pub destroy_again :
    {W : Type 0} (host : Host W) (ds : SourceI W) (find : W → String → Option ExperimentModel)
    → IsSource ds find
    → (uid : String) (w : W) (m : ExperimentModel) {found : Option ExperimentModel}
    → (ds.query_experiment_model_by_uid uid w).0 ≡ ok found
    → find w uid ≡ some m
    → m.status ≡ destroyed
    → (r : Response) × (destroy_experiment host ds uid w
        ≡ (returned r, (ds.query_experiment_model_by_uid uid w).1))
      × (r.success ≡ true)
unfolding destroy_experiment return_success_with_result
destroy_again host ds find law uid w m answer there done = (
  return_success_with_result (str "Experiment already destroyed"),
  ground (arith, law.query_finds uid w answer, eq_iff m.status destroyed),
  refl,
)

map_right : {A B C : Type 0} → (B → C) → A ⊎ B → A ⊎ C
map_right f (inl a) = inl a
map_right f (inr b) = inr (f b)

module _ {W : Type 0} (host : Host W) (ds : SourceI W) (find : W → String → Option ExperimentModel)
    (apart : IsApart host find) (law : IsSource ds find) where
  abbrev Destroys : String → W → W → W → Type 0
  Destroys uid w before w' = Marks ds find uid w before w' × Leaves ds find uid w w'

  Destroys-before :
      (uid : String) (w v before w' : W)
      → ((k : String) → find v k ≡ find w k)
      → Destroys uid v before w'
      → Destroys uid w before w'
  Destroys-before uid w v before w' kept (inl (t, marked), leaves) =
      (inl (t, marked ∙ ap (restamped destroyed "" t) (kept uid)), λ k ne. leaves k ne ∙ kept k)
  Destroys-before uid w v before w' kept (inr failed, leaves) =
      (inr failed, λ k ne. leaves k ne ∙ kept k)

  -- The rest, behind what the type of the experiment asks for.
  marked_from :
      (uid : String) (w : W) (r : Flow Response Unit × W) (w' : W) {a : Response}
      → ((k : String) → find r.1 k ≡ find w k)
      → outcome (continue r (λ _. mark_destroyed host ds uid)) ≡ (returned a, w')
      → a.success ≡ true
      → (Destroys uid w r.1 w') ⊎ (r.0 ≡ err a)
  unfolding mark_destroyed
  marked_from uid w (ok u, v) w' kept h s = inl (
      Destroys-before uid w v v w' kept (
        settle_from ds find law uid v (ds.update_experiment_model_by_uid uid destroyed "" v) w' refl
          h))
  marked_from uid w (err b, v) w' kept h s = inr (ap err (returned-injective h))
  marked_from uid w (panic, v) w' kept h s = cc
  marked_from uid w (no_fuel, v) w' kept h s = cc

  rethrow_fails :
      {A B : Type 0} (f : String → B) (P : B → Type 0) (r : Flow String A × W) {b : B}
      → ((x : String) → P (f x))
      → (rethrow f r).0 ≡ err b
      → P b
  rethrow_fails f P (ok a, w) all h = cc
  rethrow_fails f P (err x, w) all h = subst P (err-injective h) (all x)
  rethrow_fails f P (panic, w) all h = cc
  rethrow_fails f P (no_fuel, w) all h = cc

  destroy_process_fails :
      (uid : String) (p : Result (Option String)) (w : W) {b : Response}
      → (destroy_process host ds uid p w).0 ≡ err b
      → b.success ≡ false
  unfolding destroy_process return_fail
  destroy_process_fails uid (failure x) w h = ground arith
  destroy_process_fails uid (value none) w h = cc
  destroy_process_fails uid (value (some pid)) w h =
      rethrow_fails _ (λ r. r.success ≡ false) (experiment_destroy host ds pid w) (λ x. refl) h

  undo_fails :
      (uid : String) (m : ExperimentModel) (w : W) {b : Response}
      → (undo host ds uid m w).0 ≡ err b
      → b.success ≡ false
  unfolding undo return_fail
  undo_fails uid m w h = elim (Bool-cases (m.cmd_type == "cpu")) [
    | inl cpu ↦ destroy_process_fails uid (host.unmarshal_cpu_pid m.flag) w (rw (cpu, undo) at h)
    | inr no_cpu ↦ elim (Bool-cases (m.cmd_type == "mem")) [
      | inl mem ↦
          destroy_process_fails uid (host.unmarshal_mem_pid m.flag) w (rw (no_cpu, mem, undo) at h)
      | inr no_mem ↦ elim (Bool-cases (m.cmd_type == "script")) [
        | inl script ↦
            rethrow_fails _ (λ r. r.success ≡ false) (host.remove_all m.sub_command w) (λ x. refl)
              (rw (no_cpu, no_mem, script, undo) at h)
        | inr unknown ↦ cc (rw (no_cpu, no_mem, unknown, undo) at h)
      ]
    ]
  ]

  alive-Destroys :
      (uid : String) (w w' : W) (m : ExperimentModel) {a : Response}
      → outcome (continue (undo host ds uid m w) (λ _. mark_destroyed host ds uid))
        ≡ (returned a, w')
      → a.success ≡ true
      → Destroys uid w (undo host ds uid m w).1 w'
  alive-Destroys uid w w' m h s =
      elim (marked_from uid w (undo host ds uid m w) w' (undo_keeps host ds find apart uid m w) h
        s) [ inl done ↦ done | inr stopped ↦ cc (undo_fails uid m w stopped) ]

  destroy_found-Destroys :
      (uid : String) (w w' : W) (found : Option ExperimentModel) {a : Response}
      → found ≡ find w uid
      → outcome (destroy_found host ds uid found w) ≡ (returned a, w')
      → a.success ≡ true
      → (m : ExperimentModel) × (find w uid ≡ some m)
        × ((m.status ≡ destroyed) ⊎ Destroys uid w (undo host ds uid m w).1 w')
  unfolding destroy_found
  destroy_found-Destroys uid w w' none e h s = cc
  destroy_found-Destroys uid w w' (some m) e h s = elim (Bool-cases (m.status == destroyed)) [
    | inl done ↦ (m, sym e, inl ((eq_iff _ _).0 done))
    | inr alive ↦ (m, sym e, inr (alive-Destroys uid w w' m (rw (alive, destroy_found) at h) s))
  ]

  found_from :
      (uid : String) (w : W) (r : Flow String (Option ExperimentModel) × W) (w' : W) {a : Response}
      → r ≡ ds.query_experiment_model_by_uid uid w
      → outcome (continue (rethrow (not_found host ds uid) r) (destroy_found host ds uid))
        ≡ (returned a, w')
      → a.success ≡ true
      → (m : ExperimentModel) × (find w uid ≡ some m)
        × ((m.status ≡ destroyed) ⊎ Destroys uid w (undo host ds uid m r.1).1 w')
  unfolding return_fail
  found_from uid w (ok found, v) w' e h s =
      let kept = λ (k : String). let e' = ap (λ r. find r.1 k) e in e' ∙ law.query_keeps uid k w in
      let same = law.query_finds uid w (sym (ap (λ r. r.0) e)) in
      let (m, there, ends) = destroy_found-Destroys uid v w' found (same ∙ sym (kept uid)) h s in
      (
        m,
        sym (kept uid) ∙ there,
        map_right (Destroys-before uid w v (undo host ds uid m v).1 w' kept) ends,
      )
  found_from uid w (err x, v) w' e h s = ground arith
  found_from uid w (panic, v) w' e h s = cc
  found_from uid w (no_fuel, v) w' e h s = cc

-- If the answer is a success, the uid had a record. It was destroyed already, or it is marked as
-- destroyed with no error text (or the update that marks it, behind the look-up
-- and what the kind of experiment asks for, failed), and no other record has
-- changed.
pub destroy_experiment_destroys :
    {W : Type 0} (host : Host W) (ds : SourceI W) (find : W → String → Option ExperimentModel)
    → IsApart host find
    → IsSource ds find
    → (uid : String) (w w' : W) {a : Response} → destroy_experiment host ds uid w ≡ (returned a, w')
    → a.success ≡ true
    → (m : ExperimentModel) × (find w uid ≡ some m)
      × ((m.status ≡ destroyed)
          ⊎ (Marks ds find uid w
                (undo host ds uid m (ds.query_experiment_model_by_uid uid w).1).1
                w'
              × Leaves ds find uid w w'))
unfolding destroy_experiment
destroy_experiment_destroys host ds find apart law uid w w' h s =
    found_from host ds find apart law uid w (ds.query_experiment_model_by_uid uid w) w' refl h s
