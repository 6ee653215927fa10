-- ===== src/Tests/Records.antt =====
-- The table in memory: its contract, and its look-ups.
use winchaos.Base.{String, false, [], ◌∷◌, ◌≡◌, ◌≢◌, refl, length}
use winchaos.Data.Model.{find_uid, rows_of}
use winchaos.Data.Source.{IsSource}
use winchaos.Data.Experiment.{source, models_query, from_paging, query_experiment_model_by_uid}
use winchaos.Data.Contract.{source-IsSource}
use winchaos.Data.Queries.{placeholders, models_query-placeholders}
use winchaos.Transport.Response.{return_success_with_result}
use winchaos.Transport.Value.{model}
use winchaos.Cmdexec.Status.{StatusCommand, search_experiments}
use winchaos.Cmdexec.Status.Lookup.{Answers, search_experiments-by_uid}
use winchaos.Tests.World.{engine, table, engine-IsEngine, engine-IsSteady, world, busy}

source-IsSource_example : IsSource (source engine) (λ w k. find_uid k (table w))
source-IsSource_example = source-IsSource engine table engine-IsEngine engine-IsSteady

models_query-placeholders_example :
    placeholders "SELECT * FROM experiment where 1=1 and status = ? order by id desc limit ?,?"
    ≡ length {A = String} ("Success" ∷ "5" ∷ "10" ∷ [])
unfolding models_query from_paging
models_query-placeholders_example = models_query-placeholders (λ c. "") "success" "5,10" false refl

abbrev params : StatusCommand
params = record { command_type = "status"; uid = "1"; limit = "10"; status = ""; asc = "" }

one_is_named : params.uid ≢ ""
one_is_named e = cc

search_experiments-by_uid_example :
    Answers engine table "1" world (return_success_with_result (model busy))
unfolding search_experiments source return_success_with_result query_experiment_model_by_uid rows_of
search_experiments-by_uid_example =
    search_experiments-by_uid engine table engine-IsEngine params world world one_is_named refl
