-- ===== src/Data/Model.antt =====
-- `ExperimentModel` of data/experiment.go, and the rows that the table holds for it.
use winchaos.Base.{ℕ, String, List, [], ◌∷◌, Option, none, some, ◌==◌, if◌then◌else◌}

pub record ExperimentModel : Type 0 where
  pub uid : String
  pub command : String
  pub cmd_type : String
  pub sub_command : String
  pub flag : String
  pub status : String
  pub error : String
  pub create_time : String
  pub update_time : String

-- The ten columns, in the order of `Scan`.
pub record Row : Type 0 where
  pub id : ℕ
  pub model : ExperimentModel

-- The first row of a uid: what a client sees of the table.
unfoldable pub find_uid : String → List Row → Option ExperimentModel
find_uid u [] = none
find_uid u (r ∷ rs) = if r.model.uid == u then some r.model else find_uid u rs

-- What the statements of data/experiment.go do to the rows.
unfoldable pub rows_of : String → List Row → List Row
rows_of u [] = []
rows_of u (r ∷ rs) = let rest = rows_of u rs in if r.model.uid == u then r ∷ rest else rest

abbrev pub with_status : String → String → String → ExperimentModel → ExperimentModel
with_status s e t m = record m { status = s; error = e; update_time = t }

unfoldable pub set_status : String → String → String → String → List Row → List Row
set_status s e t u [] = []
set_status s e t u (r ∷ rs) =
    (if r.model.uid == u then record r { model = with_status s e t r.model } else r)
    ∷ set_status s e t u rs

unfoldable pub without_uid : String → List Row → List Row
without_uid u [] = []
without_uid u (r ∷ rs) = let rest = without_uid u rs in if r.model.uid == u then rest else r ∷ rest
