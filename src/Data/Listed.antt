-- ===== src/Data/Listed.antt =====
-- data/experiment.go: QueryExperimentModels changes no record.
use winchaos.Base.{String, Bool, List, [], Option, ◌≡◌, refl, ap, ◌∙◌}
use winchaos.Base.Exec.{Flow, ok, err, panic, no_fuel, continue, ◌>>=◌, ◌>>◌}
use winchaos.Data.Model.{ExperimentModel, Row, find_uid}
use winchaos.Data.Engine.{Engine, IsEngine, Rows}
use winchaos.Data.Experiment.{get_experiment_models_from, models_query, query_experiment_models}

module _ {W : Type 0} (e : Engine W) (table : W → List Row) (law : IsEngine e table) where
  abbrev find : W → String → Option ExperimentModel
  find w k = find_uid k (table w)

  rows_keep :
      (r : Flow String Rows × W) (k : String)
      → find (continue r (λ rows w. (get_experiment_models_from (rows.scans) [], w))).1 k
        ≡ find r.1 k
  rows_keep (ok rows, w) k = refl
  rows_keep (err x, w) k = refl
  rows_keep (panic, w) k = refl
  rows_keep (no_fuel, w) k = refl

  prepared_keep :
      (sql : String) (args : List String) (r : Flow String Unit × W) (k : String)
      → find
          (continue r (λ u. do
            rows ← e.query sql args
            (λ w. (get_experiment_models_from (rows.scans) [], w)))).1
          k
        ≡ find r.1 k
  prepared_keep sql args (ok u, w) k =
      rows_keep (e.query sql args w) k ∙ ap (λ t. find_uid k t) (law.query_keeps sql args w)
  prepared_keep sql args (err x, w) k = refl
  prepared_keep sql args (panic, w) k = refl
  prepared_keep sql args (no_fuel, w) k = refl

  built_keep :
      (q : Flow String (String × List String)) (w : W) (k : String)
      → find
          (continue
            (q, w)
            (λ built. do
              e.prepare (built.0)
              rows ← e.query (built.0) (built.1)
              (λ w. (get_experiment_models_from (rows.scans) [], w)))).1
          k
        ≡ find w k
  built_keep (ok (sql, args)) w k =
      prepared_keep sql args (e.prepare sql w) k ∙ ap (λ t. find_uid k t) (law.prepare_keeps sql w)
  built_keep (err x) w k = refl
  built_keep panic w k = refl
  built_keep no_fuel w k = refl

  pub query_experiment_models_keeps :
      (status limit : String) (asc : Bool) (w : W) (k : String)
      → find (query_experiment_models e status limit asc w).1 k ≡ find w k
  unfolding query_experiment_models
  query_experiment_models_keeps status limit asc w k =
      built_keep (models_query e.upper_beyond status limit asc) w k
