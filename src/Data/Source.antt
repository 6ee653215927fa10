-- ===== src/Data/Source.antt =====
-- data/source.go: the interface `SourceI`, and what a client may rely on.
use winchaos.Base.{String, List, Option, none, some, Bool, ◌≡◌, ◌==◌, if◌then◌else◌}
use winchaos.Base.Exec.{ok, err, Exec}
use winchaos.Data.Model.{ExperimentModel, with_status}

pub record SourceI (W : Type 0) : Type 0 where
  pub insert_experiment_model : ExperimentModel → Exec W String Unit
  pub update_experiment_model_by_uid : String → String → String → Exec W String Unit
  pub query_experiment_model_by_uid : String → Exec W String (Option ExperimentModel)
  pub query_experiment_models : String → String → Bool → Exec W String (List ExperimentModel)
  pub delete_experiment_model_by_uid : String → Exec W String Unit

abbrev pub restamped : String → String → String → Option ExperimentModel → Option ExperimentModel
restamped s x t none = none
restamped s x t (some m) = some (with_status s x t m)

-- The contract: `find` is the record of each uid. A call that reports success did its work on it,
-- and one that reports an error left it alone.
pub record IsSource {W : Type 0} (s : SourceI W) (find : W → String → Option ExperimentModel)
    : Type 0 where
  pub query_finds :
      (u : String) (w : W) {found : Option ExperimentModel}
      → (s.query_experiment_model_by_uid u w).0 ≡ ok found
      → found ≡ find w u
  pub query_keeps :
      (u k : String) (w : W) → find (s.query_experiment_model_by_uid u w).1 k ≡ find w k
  pub models_keeps :
      (status limit : String) (asc : Bool) (w : W) (k : String)
      → find (s.query_experiment_models status limit asc w).1 k ≡ find w k
  pub insert_fresh :
      (m : ExperimentModel) (w : W)
      → (s.insert_experiment_model m w).0 ≡ ok tt
      → find w m.uid ≡ none
  pub insert_adds :
      (m : ExperimentModel) (k : String) (w : W)
      → (s.insert_experiment_model m w).0 ≡ ok tt
      → find (s.insert_experiment_model m w).1 k ≡ (if m.uid == k then some m else find w k)
  pub insert_fails :
      (m : ExperimentModel) (k : String) (w : W) (x : String)
      → (s.insert_experiment_model m w).0 ≡ err x
      → find (s.insert_experiment_model m w).1 k ≡ find w k
  pub update_sets :
      (u st x : String) (w : W)
      → (s.update_experiment_model_by_uid u st x w).0 ≡ ok tt
      → (t : String) × ((k : String)
          → find (s.update_experiment_model_by_uid u st x w).1 k
            ≡ (if u == k then restamped st x t (find w k) else find w k))
  pub update_fails :
      (u st x k : String) (w : W) (y : String)
      → (s.update_experiment_model_by_uid u st x w).0 ≡ err y
      → find (s.update_experiment_model_by_uid u st x w).1 k ≡ find w k
  pub delete_removes :
      (u k : String) (w : W)
      → (s.delete_experiment_model_by_uid u w).0 ≡ ok tt
      → find (s.delete_experiment_model_by_uid u w).1 k ≡ (if u == k then none else find w k)
  pub delete_fails :
      (u k : String) (w : W) (y : String)
      → (s.delete_experiment_model_by_uid u w).0 ≡ err y
      → find (s.delete_experiment_model_by_uid u w).1 k ≡ find w k
