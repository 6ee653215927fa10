-- ===== src/Data/Contract.antt =====
-- The methods of `Source` keep the contract of `SourceI`, if the engine behaves as documented.
use mathlib.Core.List.{append-nil, append_assoc}
use winchaos.Base.{
  ℕ, String, List, [], ◌∷◌, ◌++◌, Option, none, some, map, ◌≡◌, refl, sym, ap, ◌∙◌, ◌==◌, eq_iff,
  if◌then◌else◌, arith,
}
use winchaos.Base.Exec.{ok, err, continue, >>=-eq-ok, pure}
use winchaos.Data.Model.{ExperimentModel, Row, find_uid, rows_of, set_status, without_uid}
use winchaos.Data.Engine.{
  Engine, IsEngine, IsSteady, Scan, scanned, insert_exp_dml, values, update_exp_dml, select_uid_dql,
  delete_uid_dml,
}
use winchaos.Data.Source.{IsSource, restamped}
use winchaos.Data.Listed.{query_experiment_models_keeps}
use winchaos.Data.Experiment.{
  get_experiment_models_from, first_model, insert_experiment_model, update_experiment_model_by_uid,
  query_experiment_model_by_uid, delete_experiment_model_by_uid, source,
}

find_uid-append :
    (k : String) (rs : List Row) (r : Row)
    → find_uid r.model.uid rs ≡ none
    → find_uid k (rs ++ r ∷ []) ≡ (if r.model.uid == k then some r.model else find_uid k rs)
unfolding find_uid
find_uid-append k [] r h = refl
find_uid-append k (q ∷ rs) r h = ground (
  arith,
  find_uid-append k rs r,
  eq_iff q.model.uid k,
  eq_iff r.model.uid k,
  eq_iff q.model.uid r.model.uid,
)

find_uid-set_status :
    (s x t u k : String) (rs : List Row)
    → find_uid k (set_status s x t u rs)
      ≡ (if u == k then restamped s x t (find_uid k rs) else find_uid k rs)
unfolding find_uid set_status
find_uid-set_status s x t u k [] = ground arith
find_uid-set_status s x t u k (q ∷ rs) = ground (
  arith,
  find_uid-set_status s x t u k rs,
  eq_iff q.model.uid u,
  eq_iff q.model.uid k,
  eq_iff u k,
)

find_uid-without_uid :
    (u k : String) (rs : List Row)
    → find_uid k (without_uid u rs) ≡ (if u == k then none else find_uid k rs)
unfolding find_uid without_uid
find_uid-without_uid u k [] = ground arith
find_uid-without_uid u k (q ∷ rs) =
    ground
      (arith, find_uid-without_uid u k rs, eq_iff q.model.uid u, eq_iff q.model.uid k, eq_iff u k)

models_from-scanned :
    (rs : List Row) (ms : List ExperimentModel)
    → get_experiment_models_from (map scanned rs) ms ≡ ok (ms ++ map (λ r. r.model) rs)
unfolding get_experiment_models_from
models_from-scanned [] ms = ap ok (sym (append-nil ms))
models_from-scanned (r ∷ rs) ms =
    models_from-scanned rs (ms ++ r.model ∷ []) ∙ ap ok (append_assoc ms (r.model ∷ []) _)

pub first_model-rows_of :
    (u : String) (rs : List Row) → first_model (map (λ r. r.model) (rows_of u rs)) ≡ find_uid u rs
unfolding rows_of find_uid
first_model-rows_of u [] = refl
first_model-rows_of u (r ∷ rs) = ground (arith, first_model-rows_of u rs)

read_found :
    {W : Type 0} (u : String) (rs : List Row) (w : W) {scans : List Scan}
    {found : Option ExperimentModel}
    → scans ≡ map scanned (rows_of u rs)
    → (continue {W = W} {E = String}
        (get_experiment_models_from scans [], w)
        (λ models. pure (first_model models))).0
      ≡ ok found
    → found ≡ find_uid u rs
read_found u rs w {scans} {found} e h = cc (rw (e, models_from-scanned, first_model-rows_of) at h)

find_added :
    (k : String) (m : ExperimentModel) (n : ℕ) (rs old : List Row)
    → rs ≡ old
    → find_uid m.uid rs ≡ none
    → find_uid k (rs ++ record { id = n; model = m } ∷ [])
      ≡ (if m.uid == k then some m else find_uid k old)
find_added k m n rs old e fresh =
    rw (← e) (find_uid-append k rs (record { id = n; model = m }) fresh)

module _ {W : Type 0} (e : Engine W) (table : W → List Row) (law : IsEngine e table)
    (steady : IsSteady e) where
  abbrev find : W → String → Option ExperimentModel
  find w k = find_uid k (table w)

  query_finds :
      (u : String) (w : W) {found : Option ExperimentModel}
      → (query_experiment_model_by_uid e u w).0 ≡ ok found
      → found ≡ find w u
  unfolding query_experiment_model_by_uid
  query_finds u w h =
      let (_, _, h', _) = >>=-eq-ok (e.prepare select_uid_dql) _ w h in
      let w' = (e.prepare select_uid_dql w).1 in
      let (rows, found_rows, h'', _) = >>=-eq-ok (e.query select_uid_dql (u ∷ [])) _ w' h' in
      let (rest, yields, whole) = law.select_finds u w' found_rows in
      let no_rest = whole (steady.unbroken select_uid_dql (u ∷ []) w' found_rows) in
      let all_rows : rows.scans ≡ map scanned (rows_of u (table w')) =
        sym (append-nil (rows.scans)) ∙ (rw no_rest at yields) in
      rw (← law.prepare_keeps select_uid_dql w) (read_found u (table w') _ all_rows h'')

  query_keeps : (u k : String) (w : W) → find (query_experiment_model_by_uid e u w).1 k ≡ find w k
  unfolding query_experiment_model_by_uid
  query_keeps u k w = ground (
    arith,
    law.prepare_keeps select_uid_dql w,
    law.query_keeps select_uid_dql (u ∷ []) (e.prepare select_uid_dql w).1,
  )

  insert_fresh :
      (m : ExperimentModel) (w : W)
      → (insert_experiment_model e m w).0 ≡ ok tt
      → find w m.uid ≡ none
  unfolding insert_experiment_model
  insert_fresh m w h = ground (
    arith,
    law.prepare_keeps insert_exp_dml w,
    law.insert_unique m (e.prepare insert_exp_dml w).1,
  )

  insert_adds :
      (m : ExperimentModel) (k : String) (w : W)
      → (insert_experiment_model e m w).0 ≡ ok tt
      → find (insert_experiment_model e m w).1 k ≡ (if m.uid == k then some m else find w k)
  unfolding insert_experiment_model
  insert_adds m k w h =
      let (_, _, h', same) = >>=-eq-ok (e.prepare insert_exp_dml) _ w h in
      let w' = (e.prepare insert_exp_dml w).1 in
      let (n, appended) = law.insert_appends m w' h' in
      let fresh = law.insert_unique m w' h' in
      let prepared = law.prepare_keeps insert_exp_dml w in
      rw same (rw appended (find_added k m n (table w') (table w) prepared fresh))

  insert_fails :
      (m : ExperimentModel) (k : String) (w : W) (x : String)
      → (insert_experiment_model e m w).0 ≡ err x
      → find (insert_experiment_model e m w).1 k ≡ find w k
  unfolding insert_experiment_model
  insert_fails m k w x h = ground (
    arith,
    law.prepare_keeps insert_exp_dml w,
    law.exec_fails insert_exp_dml (values m) (e.prepare insert_exp_dml w).1 x,
  )

  update_sets :
      (u st x : String) (w : W)
      → (update_experiment_model_by_uid e u st x w).0 ≡ ok tt
      → (t : String) × ((k : String)
          → find (update_experiment_model_by_uid e u st x w).1 k
            ≡ (if u == k then restamped st x t (find w k) else find w k))
  unfolding update_experiment_model_by_uid
  update_sets u st x w h =
      let w' = (e.prepare update_exp_dml w).1 in
      (
        e.now w',
        λ k. ground (
          arith,
          law.prepare_keeps update_exp_dml w,
          law.update_sets st x (e.now w') u w',
          find_uid-set_status st x (e.now w') u k (table w),
        ),
      )

  update_fails :
      (u st x k : String) (w : W) (y : String)
      → (update_experiment_model_by_uid e u st x w).0 ≡ err y
      → find (update_experiment_model_by_uid e u st x w).1 k ≡ find w k
  unfolding update_experiment_model_by_uid
  update_fails u st x k w y h =
      let w' = (e.prepare update_exp_dml w).1 in
      ground (
        arith,
        law.prepare_keeps update_exp_dml w,
        law.exec_fails update_exp_dml (st ∷ x ∷ e.now w' ∷ u ∷ []) w' y,
      )

  delete_removes :
      (u k : String) (w : W)
      → (delete_experiment_model_by_uid e u w).0 ≡ ok tt
      → find (delete_experiment_model_by_uid e u w).1 k ≡ (if u == k then none else find w k)
  unfolding delete_experiment_model_by_uid
  delete_removes u k w h =
      let w' = (e.prepare delete_uid_dml w).1 in
      ground (
        arith,
        law.prepare_keeps delete_uid_dml w,
        law.delete_removes u w',
        find_uid-without_uid u k (table w),
      )

  delete_fails :
      (u k : String) (w : W) (y : String)
      → (delete_experiment_model_by_uid e u w).0 ≡ err y
      → find (delete_experiment_model_by_uid e u w).1 k ≡ find w k
  unfolding delete_experiment_model_by_uid
  delete_fails u k w y h =
      let w' = (e.prepare delete_uid_dml w).1 in
      ground
        (arith, law.prepare_keeps delete_uid_dml w, law.exec_fails delete_uid_dml (u ∷ []) w' y)

-- If the engine runs the statements as documented, and no error ends the iteration over the rows of
-- a query, which the source does not look for, the methods of `Source` keep the contract that
-- their clients rely on, with the first row of a uid as its record: a look-up returns it, an
-- insertion that succeeds adds a record under a new uid, an update that succeeds sets the status
-- and the error of its uid alone, a deletion that succeeds removes the record of its uid alone, and
-- what fails changes nothing.
pub source-IsSource :
    {W : Type 0} (e : Engine W) (table : W → List Row)
    → IsEngine e table
    → IsSteady e
    → IsSource (source e) (λ w k. find_uid k (table w))
unfolding source
source-IsSource e table law steady = record {
  query_finds = query_finds e table law steady;
  query_keeps = query_keeps e table law steady;
  models_keeps = query_experiment_models_keeps e table law;
  insert_fresh = insert_fresh e table law steady;
  insert_adds = insert_adds e table law steady;
  insert_fails = insert_fails e table law steady;
  update_sets = update_sets e table law steady;
  update_fails = update_fails e table law steady;
  delete_removes = delete_removes e table law steady;
  delete_fails = delete_fails e table law steady;
}
