-- ===== src/Cmdexec/Status.antt =====
-- web/cmdexec/status.go: the look-up of experiments.
pub mod Framed
pub mod Lookup
use winchaos.Base.{
  String, Bool, true, false, not, ◌||◌, List, [], ◌∷◌, Option, none, some, ◌==◌, if◌then◌else◌,
}
use winchaos.Base.Exec.{Flow, ok, err, Exec, Outcome, pure, throw, on_err, run, ◌>>=◌, ◌>>◌}
use winchaos.Data.Model.{ExperimentModel}
use winchaos.Data.Source.{SourceI}
use winchaos.Transport.Value.{model, models}
use winchaos.Transport.Response.{
  Response, text, handler_not_found, get_status_execute_wrong, return_fail,
  return_success_with_result,
}

abbrev pub created : String
created = "Created"

abbrev pub success : String
success = "Success"

abbrev pub error : String
error = "Error"

abbrev pub destroyed : String
destroyed = "Destroyed"

pub record StatusCommand : Type 0 where
  pub command_type : String
  pub uid : String
  pub limit : String
  pub status : String
  pub asc : String

abbrev query_failed : String → Response
query_failed x = return_fail get_status_execute_wrong (text x ∷ [])

abbrev found_response : Option ExperimentModel → Response
found_response none = return_fail handler_not_found (text "not found" ∷ [])
found_response (some m) = return_success_with_result (model m)

module _ {W : Type 0} (ds : SourceI W) where
  search_one : String → Exec W Response Response
  search_one uid = do
    result ← on_err query_failed (ds.query_experiment_model_by_uid uid)
    pure (found_response result)

  -- The list that comes back without an error is never nil.
  search_many : StatusCommand → Exec W Response Response
  search_many params = do
    let asc = params.asc == "" || params.asc == "true"
    result ← on_err query_failed (ds.query_experiment_models params.status params.limit asc)
    pure (return_success_with_result (models result))

  unfoldable pub search_experiments : StatusCommand → W → Outcome Response × W
  unfolding search_one search_many
  search_experiments params =
      run (if not (params.uid == "") then search_one params.uid else search_many params)
