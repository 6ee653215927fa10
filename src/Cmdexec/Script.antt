-- ===== src/Cmdexec/Script.antt =====
-- web/cmdexec/script.go: scripts that are downloaded as an archive, unpacked and run.
pub mod Framed
pub mod Files
pub mod Marks
pub mod Recorded
pub mod Whole
use winchaos.Base.{
  ℕ, String, Bool, true, false, not, ◌&&◌, ◌||◌, List, [], ◌∷◌, ◌++◌, Option, none, some, ◌==◌, ◌⧺◌,
  ltb, if◌then◌else◌, join, pos,
}
use winchaos.Base.Decimal.{itoa_ℕ, parse_uint64}
use winchaos.Base.Exec.{
  Flow, ok, err, panic, no_fuel, Exec, Outcome, pure, throw, gets, on_err, or_else, run, ◌>>=◌,
  ◌>>◌,
}
use winchaos.Data.Model.{ExperimentModel}
use winchaos.Data.Source.{SourceI}
use winchaos.Transport.Value.{str}
use winchaos.Transport.Response.{
  Response, text, script_file_execute_wrong, return_fail, return_success_with_result,
}
use winchaos.Cmdexec.Host.{Host}
use winchaos.Cmdexec.Uid.{generate_uid}
use winchaos.Cmdexec.Status.{created, success, error}
use winchaos.Cmdexec.Script.Files.{base, is_exist_dir, download_file, un_tar, list_dir}

-- The file that is run: the recovering one of the archive's kind, or the main one.
unfoldable pub script_path : String → String → String → String → String → String
script_path recover dir archive filename file_type =
    if recover == "true"
    then (if file_type == ".bat"
        then dir ⧺ "recover.bat"
        else if file_type == ".ps1"
        then dir ⧺ "recover.ps1"
        else archive)
    else dir ⧺ filename

-- The command line of a kind of file; `none` for a kind that is not run.
unfoldable pub command_line : String → String → List String → Option (String × List String)
command_line file_type path args =
    if file_type == ".bat"
    then some ("cmd.exe", "/C" ∷ path ∷ join "," args ∷ [])
    else if file_type == ".ps1"
    then some
        ("powershell.exe", ("-ExecutionPolicy" ∷ "RemoteSigned" ∷ "-File" ∷ path ∷ []) ++ args)
    else none

module _ {W : Type 0} (host : Host W) (ds : SourceI W) where
  abbrev pub timeout_seconds : Option ℕ → String → ℕ
  timeout_seconds none timeout = host.duration_seconds timeout
  timeout_seconds (some n) timeout = n

  -- What follows the end of the command, begun in `start`. It is over by the time that it is
  -- measured.
  unfoldable pub finish_script :
      String → String → W → Flow String String × W → Flow String String × W
  finish_script uid timeout start (ok output, w) =
      let tt_seconds = timeout_seconds (parse_uint64 timeout) timeout in
      let late = ltb 0 tt_seconds && ltb tt_seconds (host.seconds_since start w) in
      let w' = if late then host.kill_command w else w in
      (do or_else (λ x. tt) (ds.update_experiment_model_by_uid uid success ""); pure uid) w'
  finish_script uid timeout start (err x, w) =
      (do or_else (λ y. tt) (ds.update_experiment_model_by_uid uid error x); throw x) w
  finish_script uid timeout start (panic, w) = (panic, w)
  finish_script uid timeout start (no_fuel, w) = (no_fuel, w)

  -- From the record of the experiment on.
  unfoldable pub run_script :
      String → String → String → Option (String × List String) → Exec W String String
  unfolding finish_script
  run_script uid timeout path none w = (err (path ⧺ " : format is wrong!"), w)
  run_script uid timeout path (some (name, args)) w =
      finish_script uid timeout w (host.combined_output name args w)

  abbrev pub script_model : String → String → String → String → ExperimentModel
  script_model uid dir args_str now = record {
    uid = uid;
    command = "create script execute";
    cmd_type = "script";
    sub_command = dir;
    flag = args_str;
    status = created;
    error = "";
    create_time = now;
    update_time = now;
  }

  unfoldable pub record_and_run :
      String → String → List String → String → String → String → Exec W String String
  unfolding run_script
  record_and_run uid dir args timeout path file_type = do
    now ← gets host.now
    or_else (λ x. tt) (ds.insert_experiment_model (script_model uid dir (join "," args) now))
    run_script uid timeout path (command_line file_type path args)

  -- The rest, behind the search for the main file.
  unfoldable pub run_main :
      ℕ → String → List String → String → String → String → String → Exec W String String
  unfolding record_and_run
  run_main fuel dir args timeout path filename file_type =
      if filename == "" || file_type == ""
      then throw "unTared scriptFiles  not exist main file"
      else (do uid ← generate_uid host ds fuel; record_and_run uid dir args timeout path file_type)

  unfoldable pub exec_script : ℕ → String → List String → String → String → Exec W String String
  unfolding run_main
  exec_script fuel download_url args timeout recover = do
    current_path ← host.getwd
    seconds ← gets host.unix_time
    let dir = current_path ⧺ "/" ⧺ itoa_ℕ seconds ⧺ "/"
    is_exist_dir host dir
    let archive = dir ⧺ base download_url
    download_file host download_url archive
    un_tar host archive dir
    (filename, file_type) ← or_else (λ x. ("", "")) (list_dir host dir)
    run_main fuel dir args timeout (script_path recover dir archive filename file_type) filename
        file_type

  unfoldable pub script :
      ℕ → String → String → List String → String → String → W → Outcome Response × W
  unfolding exec_script
  script fuel sub_cmd download_url args timeout recover = run (
      if sub_cmd == "execute"
      then (do
        uid ←
            on_err (λ x. return_fail script_file_execute_wrong (text x ∷ []))
              (exec_script fuel download_url args timeout recover)
        pure (return_success_with_result (str uid)))
      else throw (return_fail script_file_execute_wrong (text "Script subCmdType error" ∷ [])))
