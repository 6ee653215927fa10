-- ===== src/Category/Memory/Settled.antt =====
-- web/category/mem_main.go: what a run of the program leaves in the table.
use winchaos.Base.{
  ℕ, String, Bool, true, false, Option, some, ◌≡◌, refl, inl, inr, ℤ, pos, ◌==◌, if◌then◌else◌, ◌∙◌,
  arith,
}
use winchaos.Base.Decimal.{itoa}
use winchaos.Base.Exec.{value, Flow, ok, pure, ◌>>=◌, >>=-of-ok, >>=-of-err, or_else-of-ok}
use winchaos.Data.Model.{ExperimentModel, with_status}
use winchaos.Data.Source.{SourceI, IsSource, restamped}
use winchaos.Cmdexec.Host.{Host, IsApart}
use winchaos.Category.Memory.{Machine, empty_cache, rate_or_100, ticks}
use winchaos.Category.Memory.Calm.{IsCalm, ticks-GoesOn}
use winchaos.Category.Memory.Run.{
  Process, created_model, succeed, on_timer, create_and_fill, mem_run,
}

module _ {W : Type 0} (host : Host W) (ds : SourceI W) (process : Process) (machine : Machine W)
    (find : W → String → Option ExperimentModel) (apart : IsApart host find)
    (law : IsSource ds find) (calm : IsCalm host machine find process.getpid)
    (updates : (u s x : String) (w : W)
      → (ds.update_experiment_model_by_uid u s x w).0 ≡ ok tt) where
  -- The record of the uid, and it alone, went on to success.
  abbrev Marked : String → W → W → Type 0
  Marked uid w w' =
      (t : String) × ((k : String)
        → find w' k ≡ (if uid == k then restamped "Success" "" t (find w k) else find w k))

  succeed-Marked :
      (uid : String) (w : W)
      → ((succeed host ds uid w).0 ≡ ok tt) × Marked uid w (succeed host ds uid w).1
  unfolding succeed
  succeed-Marked uid w =
      let came_back = updates uid "Success" "" w in
      let update = ds.update_experiment_model_by_uid uid "Success" "" in
      rw (or_else-of-ok {E' = String} (λ _. tt) update w came_back)
        (refl, law.update_sets uid "Success" "" w came_back)

  -- It came back with the record marked, whether or not the process is over.
  abbrev Over : String → W → Flow String Bool × W → Type 0
  Over uid w r = (over : Bool) × (r.0 ≡ ok over) × Marked uid w r.1

  on_timer-Over : (uid : String) (w : W) → Over uid w (on_timer host ds process uid w)
  unfolding on_timer
  on_timer-Over uid w =
      let look_up = host.find_process process.getpid in
      let (handle, found) = calm.finds w in
      let w' = (look_up w).1 in
      let (went_on, (t, marked)) = succeed-Marked uid w' in
      let w'' = (succeed host ds uid w').1 in
      let after : Marked uid w (host.kill handle w'').1 = (
        t,
        λ k. apart.kill_keeps handle w'' k ∙ rw (← apart.find_keeps process.getpid w k) (marked k),
      ) in
      let kill_it = λ (done : Unit). host.kill handle >>= (λ _. pure true) in
      let mark = λ (h : ℤ). succeed host ds uid >>= (λ _. host.kill h >>= (λ _. pure true)) in
      rw (>>=-of-ok look_up mark w found, >>=-of-ok (succeed host ds uid) kill_it w' went_on)
        (elim (calm.kills handle w'') [
          | inl killed ↦
              rw (>>=-of-ok (host.kill handle) (λ _. pure true) w'' killed) (true, refl, after)
          | inr (e, failed) ↦
              rw (>>=-of-err (host.kill handle) (λ _. pure true) w'' failed) (false, refl, after)
        ])

-- A run of which the record could be inserted comes back from its timer after any number of
-- seconds, if the process finds itself and the updates succeed: the record of its uid is then the
-- one that it inserted, with the status Success, whether or not the kill has ended the process, and
-- no other record has changed.
pub mem_run_settles :
    {W : Type 0} (host : Host W) (ds : SourceI W) (process : Process) (machine : Machine W)
    (find : W → String → Option ExperimentModel)
    → IsApart host find
    → IsSource ds find
    → IsCalm host machine find process.getpid
    → ((u s x : String) (w : W) → (ds.update_experiment_model_by_uid u s x w).0 ≡ ok tt)
    → (n : ℕ) (percent : ℤ) (mode uid flag : String) (w : W)
    → process.marshal (record {
      mode = mode;
      mem_percent = percent;
      timeout = pos 0;
      pid = itoa process.getpid;
      uid = uid;
    })
      ≡ value flag
    → (ds.insert_experiment_model (created_model uid flag (host.now w)) w).0 ≡ ok tt
    → let r = mem_run host ds process machine n percent mode uid w in
      (over : Bool) × (r.0 ≡ ok over)
      × (t : String) × ((k : String)
          → find r.1 k ≡ (
              if uid == k
              then some (with_status "Success" "" t (created_model uid flag (host.now w)))
              else find w k))
unfolding mem_run create_and_fill rate_or_100
mem_run_settles host ds process machine find apart law calm updates n percent mode uid flag w
      marshalled inserted =
    let created = created_model uid flag (host.now w) in
    let insert = ds.insert_experiment_model created in
    let w' = (insert w).1 in
    let loop = ticks machine n mode percent (pos 0) (pos 100) empty_cache in
    let timer = on_timer host ds process uid in
    let (cache, went_on, same) =
      ticks-GoesOn host machine find process.getpid calm n mode percent (pos 0) 100 empty_cache w'
        (omega arith) in
    let (over, came_back, (t, marked)) =
      on_timer-Over host ds process machine find apart law calm updates uid (loop w').1 in
    rw
      (
        marshalled,
        or_else-of-ok {E' = String} (λ _. tt) insert w inserted,
        >>=-of-ok loop (λ _. timer) w' went_on,
      )
      (
        over,
        came_back,
        t,
        λ k. ground (arith, marked k, same k, law.insert_adds created k w inserted),
      )
