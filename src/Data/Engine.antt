-- ===== src/Data/Engine.antt =====
-- The SQL engine (database/sql with the sqlite3 driver), which the program only calls: a parameter.
use winchaos.Base.{ℕ, String, Char, List, [], ◌∷◌, ◌++◌, Option, none, map, ◌≡◌}
use winchaos.Base.Exec.{ok, err, Exec}
use winchaos.Data.Model.{ExperimentModel, Row, find_uid, rows_of, set_status, without_uid}

-- What `rows.Scan` makes of one row.
pub data Scan : Type 0 where
  scanned : Row → Scan
  unreadable : String → Scan

-- What `stmt.Query` returns: what each row scans to that `rows.Next` comes to, and the error that
-- `rows.Err` would tell, if one has ended the iteration before its end. The source never asks for
-- it.
pub record Rows : Type 0 where
  pub scans : List Scan
  pub failed : Option String

pub record Engine (W : Type 0) : Type 0 where
  -- `DB.Prepare`
  pub prepare : String → Exec W String Unit
  -- `stmt.Exec` and `DB.Exec`
  pub exec : String → List String → Exec W String Unit
  -- `stmt.Query`, with what the iteration over its rows yields
  pub query : String → List String → Exec W String Rows
  -- a query of one number; `none` where there is no row
  pub query_int : String → List String → Exec W String (Option ℕ)
  -- `string(unicode.ToUpper(rune(str[0])))` of a character beyond ASCII, of which `str[0]` is the
  -- first byte, and the bytes that are left of it, which are no character of a text here
  pub upper_beyond : Char → String
  -- `time.Now().Format(time.RFC3339Nano)`
  pub now : W → String

-- The statements, as data/experiment.go spells them.
abbrev pub insert_exp_dml : String
insert_exp_dml =
    "INSERT INTO\n\texperiment (uid, command,cmd_type,sub_command, flag, status, error, create_time, update_time)\n\tVALUES (?, ?, ?, ?, ?, ?, ?, ?,?)\n"

abbrev pub update_exp_dml : String
update_exp_dml =
    "UPDATE experiment\n\tSET status = ?, error = ?, update_time = ?\n\tWHERE uid = ?\n"

abbrev pub select_uid_dql : String
select_uid_dql = "SELECT * FROM experiment WHERE uid = ?"

abbrev pub delete_uid_dml : String
delete_uid_dml = "DELETE FROM experiment WHERE uid = ?"

-- The parameters of the insertion, in the order of its columns.
unfoldable pub values : ExperimentModel → List String
values m =
    m.uid ∷ m.command ∷ m.cmd_type ∷ m.sub_command ∷ m.flag ∷ m.status ∷ m.error ∷ m.create_time
    ∷ m.update_time ∷ []

-- The documented behaviour of the engine on these statements, over the rows that it stores: a
-- statement that fails changes nothing, the uid is unique, and the others do what SQL says.
pub record IsEngine {W : Type 0} (e : Engine W) (table : W → List Row) : Type 0 where
  pub prepare_keeps : (sql : String) (w : W) → table (e.prepare sql w).1 ≡ table w
  pub query_keeps :
      (sql : String) (args : List String) (w : W) → table (e.query sql args w).1 ≡ table w
  pub exec_fails :
      (sql : String) (args : List String) (w : W) (x : String)
      → (e.exec sql args w).0 ≡ err x
      → table (e.exec sql args w).1 ≡ table w
  pub insert_unique :
      (m : ExperimentModel) (w : W)
      → (e.exec insert_exp_dml (values m) w).0 ≡ ok tt
      → find_uid m.uid (table w) ≡ none
  pub insert_appends :
      (m : ExperimentModel) (w : W)
      → (e.exec insert_exp_dml (values m) w).0 ≡ ok tt
      → (n : ℕ) × (table (e.exec insert_exp_dml (values m) w).1
          ≡ table w ++ record { id = n; model = m } ∷ [])
  pub update_sets :
      (s x t u : String) (w : W)
      → (e.exec update_exp_dml (s ∷ x ∷ t ∷ u ∷ []) w).0 ≡ ok tt
      → table (e.exec update_exp_dml (s ∷ x ∷ t ∷ u ∷ []) w).1 ≡ set_status s x t u (table w)
  pub delete_removes :
      (u : String) (w : W)
      → (e.exec delete_uid_dml (u ∷ []) w).0 ≡ ok tt
      → table (e.exec delete_uid_dml (u ∷ []) w).1 ≡ without_uid u (table w)
  -- The rows of the uid come in their order, all of them unless an error ends the iteration.
  pub select_finds :
      (u : String) (w : W) {rows : Rows}
      → (e.query select_uid_dql (u ∷ []) w).0 ≡ ok rows
      → (rest : List Scan) × (rows.scans ++ rest ≡ map scanned (rows_of u (table w)))
        × (rows.failed ≡ none → rest ≡ [])

-- No iteration over the rows of a query is ended by an error.
pub record IsSteady {W : Type 0} (e : Engine W) : Type 0 where
  pub unbroken :
      (sql : String) (args : List String) (w : W) {rows : Rows}
      → (e.query sql args w).0 ≡ ok rows
      → rows.failed ≡ none
