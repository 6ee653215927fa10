-- ===== src/Cmdexec/Status/Framed.antt =====
-- A look-up leaves the table alone.
use winchaos.Base.{String, ◌||◌, Option, ◌==◌, Bool-cases, inl, inr}
use winchaos.Data.Model.{ExperimentModel}
use winchaos.Data.Source.{SourceI, IsSource}
use winchaos.Cmdexec.Frame.{Outcomes, outcome-Effects, Same-Effects, pure-Effects, rethrow-Effects}
use winchaos.Cmdexec.Status.{StatusCommand, search_one, search_many, search_experiments}

module _ {W : Type 0} (ds : SourceI W) (find : W → String → Option ExperimentModel)
    (law : IsSource ds find) where
  pub search_experiments-Outcomes :
      (params : StatusCommand) (w : W) → Outcomes find w (search_experiments ds params w)
  unfolding search_experiments search_one search_many
  search_experiments-Outcomes params w = elim (Bool-cases (params.uid == "")) [
    | inl many ↦
        rw (search_experiments, many)
          (let asc = params.asc == "" || params.asc == "true" in
            let r = ds.query_experiment_models params.status params.limit asc w in
            outcome-Effects find w _ (
              pure-Effects find _ w _ (
                rethrow-Effects find _ w r
                  (Same-Effects find w r (law.models_keeps params.status params.limit asc w)))))
    | inr one ↦
        rw (search_experiments, one)
          (let r = ds.query_experiment_model_by_uid params.uid w in
            outcome-Effects find w _ (
              pure-Effects find _ w _ (
                rethrow-Effects find _ w r
                  (Same-Effects find w r (λ k. law.query_keeps params.uid k w)))))
  ]
