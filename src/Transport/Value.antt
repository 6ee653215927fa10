-- ===== src/Transport/Value.antt =====
-- What an `interface{}` holds in this program: what `json.Unmarshal` makes of a text, and the
-- records that a look-up returns.
use winchaos.Base.{String, Bool, Option, none, some, List, ◌==◌, if◌then◌else◌}
use winchaos.Data.Model.{ExperimentModel}

-- A JSON number is kept as it is spelled: the code looks at none.
mutual
  pub data Value : Type 0 where
    null : Value
    str : String → Value
    num : String → Value
    bool : Bool → Value
    arr : Values → Value
    obj : Fields → Value
    model : ExperimentModel → Value
    models : List ExperimentModel → Value

  pub data Values : Type 0 where
    nil : Values
    cons : Value → Values → Values

  -- `map[string]interface{}`
  pub data Fields : Type 0 where
    end : Fields
    field : String → Value → Fields → Fields

-- `v, ok := fields[k]`
unfoldable pub field? : String → Fields → Option Value
field? k end = none
field? k (field j v fs) = if j == k then some v else field? k fs
