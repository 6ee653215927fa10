-- ===== src/Web/Dispatch/Lasting.antt =====
-- What any number of commands, and the programs that they start, may do to the table of
-- experiments.
use winchaos.Base.{
  ℕ, String, Option, some, ◌≡◌, refl, sym, ap, subst, ◌∙◌, ◌==◌, ◌⊎◌, Bool-cases, inl, inr, eq_iff,
  if◌then◌else◌,
}
use winchaos.Base.Exec.{returned}
use winchaos.Data.Model.{ExperimentModel, with_status}
use winchaos.Data.Source.{SourceI, IsSource, restamped}
use winchaos.Transport.Request.{Request}
use winchaos.Transport.Response.{Response}
use winchaos.Cmdexec.Host.{Host, IsApart}
use winchaos.Cmdexec.Frame.{Changes, IsStep, Outcomes}
use winchaos.Cmdexec.Status.{destroyed}
use winchaos.Web.Dispatch.{handle}
use winchaos.Web.Dispatch.Framed.{handle_changes_one}

-- There is a record, the same but for its status, its error text and the time of its update.
abbrev pub Lasts : Option ExperimentModel → ExperimentModel → Type 0
Lasts now m = (s : String) × (x : String) × (t : String) × (now ≡ some (with_status s x t m))

Lasts-refl : (m : ExperimentModel) → Lasts (some m) m
Lasts-refl m = (m.status, m.error, m.update_time, refl)

some-injective : {a b : ExperimentModel} → some a ≡ some b → a ≡ b
some-injective h = cc

module _ {W : Type 0} (host : Host W) (ds : SourceI W) (duration_error : String → Option String)
    (find : W → String → Option ExperimentModel) (apart : IsApart host find)
    (law : IsSource ds find) where
  -- What the program of an experiment does beside the agent: it inserts records, which leaves those
  -- alone that are there, or it marks a record.
  abbrev pub Runs : W → W → Type 0
  Runs v v' =
      ((k : String) (m : ExperimentModel) → find v k ≡ some m → find v' k ≡ some m)
      ⊎ ((uid : String) × (s : String) × (x : String) × (t : String) × ((k : String)
            → find v' k ≡ (if uid == k then restamped s x t (find v k) else find v k)))

  -- The world behind any number of commands, each of which was answered, and of steps of programs
  -- between them.
  pub data Answers (w : W) : W → Type 0 where
    begin : Answers w w
    next :
        {v v' : W} {r : Response}
        → Answers w v
        → (fuel : ℕ) (request : Request)
        → handle host ds duration_error fuel request v ≡ (returned r, v')
        → Answers w v'
    beside : {v v' : W} → Answers w v → Runs v v' → Answers w v'

  IsStep-Lasts :
      (old new : Option ExperimentModel) (m : ExperimentModel)
      → old ≡ some m
      → IsStep find old new
      → Lasts new m
  IsStep-Lasts old new m there (inl (absent, _)) = cc
  IsStep-Lasts old new m there (inr (m', there', (t, marked))) =
      let same : m' ≡ m = some-injective (sym there' ∙ there) in
      (destroyed, "", t, marked ∙ ap (λ m. some (with_status destroyed "" t m)) same)

  Changes-Lasts :
      (v v' : W) (k : String) (m : ExperimentModel)
      → find v k ≡ some m
      → Changes find v v'
      → Lasts (find v' k) m
  Changes-Lasts v v' k m there (inl same) = rw (same k, there) (Lasts-refl m)
  Changes-Lasts v v' k m there (inr (uid, others, step)) = elim (Bool-cases (uid == k)) [
    | inr other ↦ rw (others k other, there) (Lasts-refl m)
    | inl same ↦
        let e : uid ≡ k = (eq_iff uid k).0 same in
        subst (λ k. find v k ≡ some m → Lasts (find v' k) m) e
          (λ there. IsStep-Lasts (find v uid) (find v' uid) m there step) there
  ]

  Runs-Lasts :
      (v v' : W) (k : String) (m : ExperimentModel)
      → find v k ≡ some m
      → Runs v v'
      → Lasts (find v' k) m
  Runs-Lasts v v' k m there (inl kept) = rw (kept k m there) (Lasts-refl m)
  Runs-Lasts v v' k m there (inr (uid, s, x, t, marks)) = elim (Bool-cases (uid == k)) [
    | inl same ↦ (s, x, t, marks k ∙ rw (same, there) refl)
    | inr other ↦ rw (marks k, other, there) (Lasts-refl m)
  ]

  Lasts-step :
      (v v' : W) (k : String) (m : ExperimentModel)
      → ((m : ExperimentModel) → find v k ≡ some m → Lasts (find v' k) m)
      → Lasts (find v k) m
      → Lasts (find v' k) m
  Lasts-step v v' k m on (s, x, t, there) =
      let (s', x', t', there') = on (with_status s x t m) there in (s', x', t', there')

  Lasts-Answers :
      (w w' : W) (k : String) (m : ExperimentModel)
      → find w k ≡ some m
      → Answers w w'
      → Lasts (find w' k) m
  Lasts-Answers w w' k m there begin = rw there (Lasts-refl m)
  Lasts-Answers w w' k m there (next {v} {v'} {r} answers fuel request answered) =
      let changes : Changes find v v' =
        subst (Outcomes find v) answered
          (handle_changes_one host ds duration_error find apart law fuel request v) in
      Lasts-step v v' k m (λ m there. Changes-Lasts v v' k m there changes)
        (Lasts-Answers w v k m there answers)
  Lasts-Answers w w' k m there (beside {v} {v'} answers ran) =
      Lasts-step v v' k m (λ m there. Runs-Lasts v v' k m there ran)
        (Lasts-Answers w v k m there answers)

  -- However many commands the agent has answered, in whatever order, and whatever records the
  -- programs of its experiments have inserted and marked between them: an experiment that had a
  -- record still has it, and it is the same but for its status, its error text and the time of its
  -- update.
  pub records_last :
      {w w' : W}
      → Answers w w'
      → (k : String) (m : ExperimentModel) → find w k ≡ some m
      → Lasts (find w' k) m
  records_last {w} {w'} answers k m there = Lasts-Answers w w' k m there answers
