-- ===== src/Tests/World.antt =====
-- A table in memory under the statements of data/experiment.go, and a machine whose calls leave it
-- alone.
use mathlib.Core.List.{append-nil}
use winchaos.Base.{
  ℕ, zero, suc, ◌*◌, String, List, [], ◌∷◌, ◌++◌, Option, none, some, map, ◌≡◌, refl, sym, ap, ◌∙◌,
  ◌==◌, is_some, if◌then◌else◌, pos, arith,
}
use winchaos.Base.Decimal.{itoa_ℕ}
use winchaos.Base.Exec.{Flow, ok, err, value, failure, ok-injective}
use winchaos.Data.Model.{ExperimentModel, Row, find_uid, rows_of, set_status, without_uid}
use winchaos.Data.Engine.{
  Engine, IsEngine, IsSteady, scanned, insert_exp_dml, update_exp_dml, delete_uid_dml, values,
}
use winchaos.Data.Source.{SourceI, IsSource}
use winchaos.Data.Experiment.{source}
use winchaos.Data.Contract.{source-IsSource}
use winchaos.Cmdexec.Host.{Host, IsApart, missing, entry}

-- The rows, the next number, the programs that were started, the last one first, and the bytes that
-- are free.
pub record World : Type 0 where
  pub rows : List Row
  pub next : ℕ
  pub started : List (List String)
  pub free_memory : ℕ

abbrev nth : ℕ → List String → String
nth n [] = ""
nth zero (s ∷ l) = s
nth (suc n) (s ∷ l) = nth n l

abbrev model_of : List String → ExperimentModel
model_of args = record {
  uid = nth 0 args;
  command = nth 1 args;
  cmd_type = nth 2 args;
  sub_command = nth 3 args;
  flag = nth 4 args;
  status = nth 5 args;
  error = nth 6 args;
  create_time = nth 7 args;
  update_time = nth 8 args;
}

abbrev insert_row : ExperimentModel → World → Flow String Unit × World
insert_row m w = if is_some (find_uid m.uid w.rows) then (err "UNIQUE constraint failed", w) else (
  ok tt,
  record w { rows = w.rows ++ record { id = w.next; model = m } ∷ []; next = suc w.next },
)

abbrev pub exec_sql : String → List String → World → Flow String Unit × World
exec_sql sql args w =
    if sql == insert_exp_dml
    then insert_row (model_of args) w
    else if sql == update_exp_dml
    then (
      ok tt,
      record w { rows = set_status (nth 0 args) (nth 1 args) (nth 2 args) (nth 3 args) w.rows },
    )
    else if sql == delete_uid_dml
    then (ok tt, record w { rows = without_uid (nth 0 args) w.rows })
    else (ok tt, w)

abbrev pub engine : Engine World
engine = record {
  prepare = λ sql w. (ok tt, w);
  exec = exec_sql;
  query = λ sql args w.
      (ok (record { scans = map scanned (rows_of (nth 0 args) w.rows); failed = none }), w);
  upper_beyond = λ c. "";
  query_int = λ sql args w. (ok (some 1), w);
  now = λ w. "2024-01-01T00:00:00Z";
}

abbrev pub table : World → List Row
table w = w.rows

fresh_row :
    (m : ExperimentModel) (w : World)
    → (insert_row m w).0 ≡ ok tt
    → (find_uid m.uid w.rows ≡ none)
      × ((insert_row m w).1.rows ≡ w.rows ++ record { id = w.next; model = m } ∷ [])
fresh_row m w h = ground arith

exec_fails :
    (sql : String) (args : List String) (w : World) (x : String)
    → (exec_sql sql args w).0 ≡ err x
    → table (exec_sql sql args w).1 ≡ table w
exec_fails sql args w x h = ground arith

pub engine-IsEngine : IsEngine engine table
unfolding values
engine-IsEngine = record {
  prepare_keeps = λ sql w. refl;
  query_keeps = λ sql args w. refl;
  exec_fails = exec_fails;
  insert_unique = λ m w h. (fresh_row m w h).0;
  insert_appends = λ m w h. (w.next, (fresh_row m w h).1);
  update_sets = λ s x t u w h. refl;
  delete_removes = λ u w h. refl;
  select_finds = λ u w h. ([], append-nil _ ∙ sym (ap (λ r. r.scans) (ok-injective h)), λ e. refl);
}

pub engine-IsSteady : IsSteady engine
engine-IsSteady = record { unbroken = λ sql args w h. sym (ap (λ r. r.failed) (ok-injective h)) }

abbrev pub memory : SourceI World
memory = source engine

abbrev pub find : World → String → Option ExperimentModel
find w u = find_uid u w.rows

pub memory-IsSource : IsSource memory find
memory-IsSource = source-IsSource engine table engine-IsEngine engine-IsSteady

abbrev tick : World → World
tick w = record w { next = suc w.next }

-- Uids are the numbers from the next one on; each command takes a second.
abbrev pub host : Host World
host = record {
  generate_uid = λ w. (ok (itoa_ℕ w.next), tick w);
  num_cpu = pos 4;
  go_os_exe = λ args w. record w { started = args ∷ w.started };
  unmarshal_cpu_pid =
      λ flag. if flag == "" then failure "unexpected end of JSON input" else value (some flag);
  unmarshal_mem_pid =
      λ flag. if flag == "" then failure "unexpected end of JSON input" else value (some flag);
  atoi_error = λ s. "invalid syntax";
  find_process = λ pid w. (ok pid, w);
  kill = λ pid w. (ok tt, record w { started = [] });
  remove_all = λ path w. (ok tt, w);
  getwd = λ w. (ok "C:", w);
  unix_time = λ w. w.next;
  now = λ w. "2024-01-01T00:00:00Z";
  stat = λ path w. missing;
  dir_name = λ path. path;
  mkdir_all = λ path w. (ok tt, w);
  http_get = λ url w. (ok "archive", w);
  create = λ path w. (ok tt, w);
  open_file = λ path mode w. (ok tt, w);
  copy_to = λ path body w. (ok tt, w);
  open_tar = λ path w. (ok (entry "main.bat" 420 ∷ []), w);
  copy_item = λ path item w. (ok tt, w);
  read_dir = λ dir w. (ok ("main.bat" ∷ []), w);
  combined_output =
      λ name args w. (if name == "cmd.exe" then ok "done" else err "exit status 1", tick w);
  seconds_since = λ before after. 1;
  kill_command = λ w. w;
  duration_seconds = λ s. 0;
}

pub host-IsApart : IsApart host find
host-IsApart = record {
  generate_keeps = λ w k. refl;
  go_keeps = λ args w k. refl;
  find_keeps = λ n w k. refl;
  kill_keeps = λ n w k. refl;
  output_keeps = λ name args w k. refl;
  kill_command_keeps = λ w k. refl;
  remove_keeps = λ path w k. refl;
  getwd_keeps = λ w k. refl;
  mkdir_keeps = λ p w k. refl;
  get_keeps = λ url w k. refl;
  create_keeps = λ p w k. refl;
  open_file_keeps = λ p mode w k. refl;
  copy_to_keeps = λ p body w k. refl;
  open_tar_keeps = λ p w k. refl;
  copy_item_keeps = λ p name w k. refl;
  read_dir_keeps = λ p w k. refl;
}

abbrev experiment : String → String → String → String → ExperimentModel
experiment uid kind flag status = record {
  uid = uid;
  command = "create cpu load";
  cmd_type = kind;
  sub_command = "";
  flag = flag;
  status = status;
  error = "";
  create_time = "2023-12-31T00:00:00Z";
  update_time = "2023-12-31T00:00:00Z";
}

-- A CPU experiment that runs, one that is over, and a script.
abbrev pub busy : ExperimentModel
busy = experiment "1" "cpu" "4711" "Success"

abbrev pub over : ExperimentModel
over = experiment "2" "mem" "4712" "Destroyed"

abbrev pub scripted : ExperimentModel
scripted = experiment "5" "script" "a,b" "Created"

abbrev pub world : World
world = record {
  rows =
      record { id = 1; model = busy }
      ∷ record { id = 2; model = over }
      ∷ record { id = 3; model = scripted }
      ∷ [];
  next = 1;
  started = ("4" ∷ "100" ∷ "1" ∷ "cpu" ∷ "60" ∷ []) ∷ [];
  free_memory = 3000 * 1024 * 1024;
}
