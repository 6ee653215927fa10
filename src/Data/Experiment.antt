-- ===== src/Data/Experiment.antt =====
-- data/experiment.go and data/source.go: the methods of `Source`, over the engine.
use winchaos.Base.{
  ℕ, String, Char, code, Bool, false, not, List, [], ◌∷◌, ◌++◌, Option, none, some, ◌==◌, ◌⧺◌,
  nat_eq, ltb, if◌then◌else◌, split,
}
use winchaos.Base.Exec.{
  Flow, ok, err, panic, no_fuel, Exec, pure, on_err, or_else, gets, ◌>>=◌, ◌>>◌,
}
use winchaos.Data.Model.{ExperimentModel}
use winchaos.Data.Engine.{
  Scan, scanned, unreadable, Engine, insert_exp_dml, values, update_exp_dml, select_uid_dql,
  delete_uid_dml,
}
use winchaos.Data.Source.{SourceI}

abbrev pub table_exists_dql : String
table_exists_dql =
    "SELECT count(*) AS c\n\tFROM sqlite_master\n\tWHERE type = \"table\"\n\tAND name = ?\n"

abbrev pub exp_table_ddl : String
exp_table_ddl =
    "CREATE TABLE IF NOT EXISTS experiment (\n\tid INTEGER PRIMARY KEY AUTOINCREMENT,\n\tuid VARCHAR(32) UNIQUE,\n\tcommand VARCHAR NOT NULL,\n\tcmd_type VARCHAR NOT NULL,\n\tsub_command VARCHAR,\n\tflag VARCHAR,\n\tstatus VARCHAR,\n\terror VARCHAR,\n\tcreate_time VARCHAR,\n\tupdate_time VARCHAR\n)"

abbrev pub exp_index_ddl : List String
exp_index_ddl =
    "CREATE INDEX exp_uid_uidx ON experiment (uid)"
    ∷ "CREATE INDEX exp_command_idx ON experiment (command)"
    ∷ "CREATE INDEX exp_status_idx ON experiment (status)" ∷ []

abbrev lower_letters : String
lower_letters = "abcdefghijklmnopqrstuvwxyz"

abbrev upper_letters : String
upper_letters = "ABCDEFGHIJKLMNOPQRSTUVWXYZ"

translate : String → String → Char → Char
translate (String.◌∷◌ a s) (String.◌∷◌ b t) c =
    if nat_eq (code a) (code c) then b else translate s t c
translate _ _ c = c

-- `unicode.ToUpper`, on ASCII.
to_upper : Char → Char
unfolding translate
to_upper = translate lower_letters upper_letters

-- `UpperFirst`: `str[0]` of an empty text is out of range. It is a byte; what becomes of a first
-- character of several bytes is a parameter.
unfoldable pub upper_first : (Char → String) → String → Flow String String
unfolding to_upper
upper_first beyond String.[] = panic
upper_first beyond (String.◌∷◌ c s) =
    ok (if ltb (code c) 128 then String.◌∷◌ (to_upper c) s else beyond c ⧺ s)

-- The loop over `rows.Next()`, with the models so far; that an error has ended it goes unseen.
unfoldable pub get_experiment_models_from :
    List Scan → List ExperimentModel → Flow String (List ExperimentModel)
get_experiment_models_from [] models = ok models
get_experiment_models_from (unreadable x ∷ rows) models = err x
get_experiment_models_from (scanned r ∷ rows) models =
    get_experiment_models_from rows (models ++ r.model ∷ [])

-- `models[0]`, or nil where there is none.
abbrev pub first_model : List ExperimentModel → Option ExperimentModel
first_model [] = none
first_model (m ∷ ms) = some m

-- `values[0]` and `values[1]` of the limit: offset and count.
unfoldable pub offset_and_count : List String → String × String
offset_and_count [] = ("0", "")
offset_and_count (n ∷ []) = ("0", n)
offset_and_count (a ∷ b ∷ rest) = (a, b)

abbrev pub order_clause : Bool → String
order_clause asc = if asc then " order by id asc" else " order by id desc"

-- The statement and the parameters, once those of the limit clause are known.
unfoldable pub from_paging :
    (Char → String) → String → Bool → String → List String → Flow String (String × List String)
unfolding upper_first
from_paging beyond status asc tail paging =
    let all : String = "SELECT * FROM experiment where 1=1" in
    let order = order_clause asc in
    if status == "" then ok (all ⧺ order ⧺ tail, paging) else elim (upper_first beyond status) [
      | ok s ↦ ok (all ⧺ " and status = ?" ⧺ order ⧺ tail, s ∷ paging)
      | err x ↦ err x
      | panic ↦ panic
      | no_fuel ↦ no_fuel
    ]

-- The statement that `QueryExperimentModels` builds, and its parameters.
unfoldable pub models_query :
    (Char → String) → String → String → Bool → Flow String (String × List String)
models_query beyond status limit asc =
    let (offset, count) = offset_and_count (split b',' limit) in
    if limit == ""
    then from_paging beyond status asc "" []
    else from_paging beyond status asc " limit ?,?" (offset ∷ count ∷ [])

-- `c != 0` of a count that stays 0 where there is no row.
abbrev counted : Option ℕ → Bool
counted none = false
counted (some n) = not (nat_eq n 0)

module _ {W : Type 0} (e : Engine W) where
  unfoldable pub insert_experiment_model : ExperimentModel → Exec W String Unit
  insert_experiment_model m = do e.prepare insert_exp_dml; e.exec insert_exp_dml (values m)

  unfoldable pub update_experiment_model_by_uid : String → String → String → Exec W String Unit
  update_experiment_model_by_uid uid status err_msg = do
    e.prepare update_exp_dml
    now ← gets e.now
    e.exec update_exp_dml (status ∷ err_msg ∷ now ∷ uid ∷ [])

  unfoldable pub query_experiment_model_by_uid : String → Exec W String (Option ExperimentModel)
  unfolding get_experiment_models_from
  query_experiment_model_by_uid uid = do
    e.prepare select_uid_dql
    rows ← e.query select_uid_dql (uid ∷ [])
    models ← (λ w. (get_experiment_models_from (rows.scans) [], w))
    pure (first_model models)

  unfoldable pub query_experiment_models :
      String → String → Bool → Exec W String (List ExperimentModel)
  unfolding get_experiment_models_from models_query
  query_experiment_models status limit asc = do
    (sql, parameters) ← (λ w. (models_query e.upper_beyond status limit asc, w))
    e.prepare sql
    rows ← e.query sql parameters
    (λ w. (get_experiment_models_from (rows.scans) [], w))

  unfoldable pub delete_experiment_model_by_uid : String → Exec W String Unit
  delete_experiment_model_by_uid uid = do e.prepare delete_uid_dml; e.exec delete_uid_dml (uid ∷ [])

  unfoldable pub experiment_table_exists : Exec W String Bool
  experiment_table_exists = do
    on_err (λ x. "select experiment table exists err when invoke db prepare, " ⧺ x)
        (e.prepare table_exists_dql)
    c ←
        on_err (λ x. "select experiment table exists or not err, " ⧺ x)
          (e.query_int table_exists_dql ("experiment" ∷ []))
    pure (counted c)

  -- The errors of the index statements are dropped.
  exec_indexes : List String → Exec W String Unit
  exec_indexes [] = pure tt
  exec_indexes (sql ∷ rest) = do or_else (λ _. tt) (e.exec sql []); exec_indexes rest

  unfoldable pub init_experiment_table : Exec W String Unit
  unfolding exec_indexes
  init_experiment_table = do
    on_err (λ x. "create experiment table err, " ⧺ x) (e.exec exp_table_ddl [])
    exec_indexes exp_index_ddl

  -- Both errors are dropped; a failed look-up counts as no table.
  unfoldable pub check_and_init_experiment_table : Exec W String Unit
  unfolding experiment_table_exists init_experiment_table
  check_and_init_experiment_table = do
    exists ← or_else (λ _. false) experiment_table_exists
    if exists then pure tt else or_else (λ _. tt) init_experiment_table

  unfoldable pub source : SourceI W
  unfolding insert_experiment_model update_experiment_model_by_uid query_experiment_model_by_uid
      query_experiment_models delete_experiment_model_by_uid
  source = record {
    insert_experiment_model = insert_experiment_model;
    update_experiment_model_by_uid = update_experiment_model_by_uid;
    query_experiment_model_by_uid = query_experiment_model_by_uid;
    query_experiment_models = query_experiment_models;
    delete_experiment_model_by_uid = delete_experiment_model_by_uid;
  }
