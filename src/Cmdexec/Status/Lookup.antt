-- ===== src/Cmdexec/Status/Lookup.antt =====
-- What a look-up by uid answers.
use winchaos.Base.{
  String, List, [], ◌∷◌, ◌++◌, map, ap, ◌∙◌, Option, none, some, ◌≡◌, ◌≢◌, refl, sym, eq_iff, inl,
  inr, ◌⊎◌, arith,
}
use winchaos.Base.Exec.{
  Flow, ok, err, panic, no_fuel, returned, returned-injective, outcome, rethrow, continue,
  >>=-eq-ok, ok-injective,
}
use winchaos.Data.Model.{ExperimentModel, Row, find_uid, rows_of}
use winchaos.Data.Engine.{Engine, IsEngine, Rows, Scan, scanned, unreadable, select_uid_dql}
use winchaos.Data.Experiment.{
  get_experiment_models_from, first_model, query_experiment_model_by_uid, source,
}
use winchaos.Data.Contract.{first_model-rows_of}
use winchaos.Transport.Value.{model}
use winchaos.Transport.Response.{
  Response, text, handler_not_found, get_status_execute_wrong, return_fail,
  return_success_with_result,
}
use winchaos.Cmdexec.Status.{
  StatusCommand, query_failed, found_response, search_one, search_experiments,
}

search_from :
    {W : Type 0} (answer : Flow String (Option ExperimentModel) × W) (w' : W) {r : Response}
    → outcome (continue (rethrow query_failed answer) (λ found w. (ok (found_response found), w)))
      ≡ (returned r, w')
    → ((found : Option ExperimentModel) × (answer.0 ≡ ok found) × (r ≡ found_response found))
      ⊎ ((x : String) × (answer.0 ≡ err x) × (r ≡ query_failed x))
search_from (ok found, w) w' h = inl (found, refl, sym (returned-injective h))
search_from (err x, w) w' h = inr (x, refl, sym (returned-injective h))
search_from (panic, w) w' h = cc
search_from (no_fuel, w) w' h = cc

-- The first of the models so far stays the first.
models_from-first :
    (scans : List Scan) (m : ExperimentModel) (ms : List ExperimentModel)
    {models : List ExperimentModel}
    → get_experiment_models_from scans (m ∷ ms) ≡ ok models
    → first_model models ≡ some m
unfolding get_experiment_models_from
models_from-first [] m ms h = ap first_model (sym (ok-injective h))
models_from-first (unreadable x ∷ scans) m ms h = cc
models_from-first (scanned r ∷ scans) m ms h = models_from-first scans m (ms ++ r.model ∷ []) h

-- What the iteration yields of these rows: the first of them, or none at all.
first_yielded :
    (scans rest : List Scan) (rs : List Row) {models : List ExperimentModel}
    → scans ++ rest ≡ map scanned rs
    → get_experiment_models_from scans [] ≡ ok models
    → ((m : ExperimentModel) × (first_model models ≡ some m)
        × (first_model (map (λ r. r.model) rs) ≡ some m))
      ⊎ ((scans ≡ []) × (first_model models ≡ none))
unfolding get_experiment_models_from
first_yielded [] rest rs e h = inr (refl, ap first_model (sym (ok-injective h)))
first_yielded (unreadable x ∷ scans) rest rs e h = cc
first_yielded (scanned r ∷ scans) rest [] e h = cc
first_yielded (scanned r ∷ scans) rest (q ∷ rs) e h =
    let same : r ≡ q = cc in
    inl (r.model, models_from-first scans (r.model) [] h, ap (λ r. some (r.model)) (sym same))

module _ {W : Type 0} (e : Engine W) (table : W → List Row) where
  -- An error ended the iteration over the rows of the uid.
  abbrev pub BrokenOff : String → W → Type 0
  BrokenOff uid w =
      (rows : Rows) × (x : String) × ((e.query select_uid_dql (uid ∷ [])
          (e.prepare select_uid_dql w).1).0
        ≡ ok rows)
      × (rows.failed ≡ some x)

  -- The three answers to a look-up by uid.
  abbrev pub Answers : String → W → Response → Type 0
  Answers uid w r =
      ((m : ExperimentModel) × (find_uid uid (table w) ≡ some m)
        × (r ≡ return_success_with_result (model m)))
      ⊎ (((find_uid uid (table w) ≡ none) ⊎ BrokenOff uid w)
          × (r ≡ return_fail handler_not_found (text "not found" ∷ [])))
      ⊎ ((x : String) × ((query_experiment_model_by_uid e uid w).0 ≡ err x)
          × (r ≡ return_fail get_status_execute_wrong (text x ∷ [])))

module _ {W : Type 0} (e : Engine W) (table : W → List Row) (law : IsEngine e table) where
  none_yielded :
      (uid : String) (w : W) (rows : Rows) (rest : List Scan) (failed : Option String)
      → (e.query select_uid_dql (uid ∷ []) (e.prepare select_uid_dql w).1).0 ≡ ok rows
      → rows.failed ≡ failed
      → rows.scans ++ rest ≡ map scanned (rows_of uid (table w))
      → (rows.failed ≡ none → rest ≡ [])
      → rows.scans ≡ []
      → (find_uid uid (table w) ≡ none) ⊎ BrokenOff e table uid w
  none_yielded uid w rows rest (some x) answer ends yields whole nothing =
      inr (rows, x, answer, ends)
  none_yielded uid w rows rest none answer ends yields whole nothing = inl (
      sym (first_model-rows_of uid (table w))
      ∙ no_models (rows_of uid (table w)) (sym (rw (nothing, whole ends) at yields)))
    where
      no_models : (rs : List Row) → map scanned rs ≡ [] → first_model (map (λ r. r.model) rs) ≡ none
      no_models [] e = refl
      no_models (r ∷ rs) e = cc

  found-Answers :
      (uid : String) (w : W) (found : Option ExperimentModel) {r : Response}
      → (query_experiment_model_by_uid e uid w).0 ≡ ok found
      → r ≡ found_response found
      → Answers e table uid w r
  unfolding query_experiment_model_by_uid
  found-Answers uid w found h answered =
      let (_, _, h', _) = >>=-eq-ok (e.prepare select_uid_dql) _ w h in
      let w' = (e.prepare select_uid_dql w).1 in
      let (rows, queried, h'', _) = >>=-eq-ok (e.query select_uid_dql (uid ∷ [])) _ w' h' in
      let w'' = (e.query select_uid_dql (uid ∷ []) w').1 in
      let (models, read, last, _) =
        >>=-eq-ok (λ w. (get_experiment_models_from (rows.scans) [], w)) _ w'' h'' in
      let (rest, yields', whole) = law.select_finds uid w' queried in
      let yields : rows.scans ++ rest ≡ map scanned (rows_of uid (table w)) =
        rw (law.prepare_keeps select_uid_dql w) at yields' in
      let first : first_model models ≡ found = ok-injective last in
      elim (first_yielded (rows.scans) rest (rows_of uid (table w)) yields read) [
        | inl (m, one, of_rows) ↦ inl (
          m,
          sym (first_model-rows_of uid (table w)) ∙ of_rows,
          answered ∙ ap found_response (sym first ∙ one),
        )
        | inr (nothing, no_model) ↦ inr (
            inl (
              none_yielded uid w rows rest (rows.failed) queried refl yields whole nothing,
              answered ∙ ap found_response (sym first ∙ no_model),
            ))
      ]

  search_one-Answers :
      (uid : String) (w w' : W) {r : Response}
      → outcome (search_one (source e) uid w) ≡ (returned r, w')
      → Answers e table uid w r
  unfolding search_one source
  search_one-Answers uid w w' h = elim (search_from (query_experiment_model_by_uid e uid w) w' h) [
    | inl (found, answer, same) ↦ found-Answers uid w found answer same
    | inr (x, answer, same) ↦ inr (inr (x, answer, same))
  ]

-- A look-up by uid answers with the record of the uid; with code 404, if the uid has none or an
-- error has ended the iteration over its rows, which is not looked for; or with code 630 and the
-- error of the look-up.
pub search_experiments-by_uid :
    {W : Type 0} (e : Engine W) (table : W → List Row)
    → IsEngine e table
    → (params : StatusCommand) (w w' : W) {r : Response} → params.uid ≢ ""
    → search_experiments (source e) params w ≡ (returned r, w')
    → Answers e table params.uid w r
unfolding search_experiments
search_experiments-by_uid e table law params w w' named h =
    search_one-Answers e table law params.uid w w' (ground (arith, eq_iff params.uid ""))
