-- ===== src/Tools/KeyFile.antt =====
-- pkg/tools/auth.go: the files in which the agent records its keys and its application.
pub mod Kept
pub mod Recall
use winchaos.Base.{
  ℕ, String, Bool, true, false, ◌||◌, List, [], ◌∷◌, Option, none, some, ◌==◌, ◌⧺◌, if◌then◌else◌,
  split, cut, trim_space,
}
use winchaos.Base.Dict.{Dict}
use winchaos.Base.Exec.{Flow, ok, err, panic, no_fuel, Exec, pure, throw, gets, ◌>>=◌, ◌>>◌}
use winchaos.Tools.Sign.{Keys}

-- The files: the opening of one for writing, from its start and, if asked, emptied first; the
-- writing of a text behind what was written since; and the reading of the whole.
pub record Files (X : Type 0) : Type 0 where
  pub open_file : String → Bool → Exec X String Unit
  pub write_string : String → String → Exec X String Unit
  pub read_file : String → Exec X String String
  -- the order in which `range` goes over the bindings of a map, which Go leaves open
  pub range_of : Dict String → X → Dict String
  -- `GetUserHome()` and `GetCurrentDirectory()`, with the names of the files
  pub cert_file : String
  pub app_file : String

abbrev pub line_of : String → String → String
line_of key value = key ⧺ "=" ⧺ value ⧺ "\n"

-- `appInstance` and `appGroup` of a record, by the lines that were read.
abbrev pub take_line : String → Option String → String × String → String × String
take_line key none app = app
take_line key (some value) (app_instance, group) =
    if key == "appInstance"
    then (value, group)
    else if key == "appGroup"
    then (app_instance, value)
    else (app_instance, group)

unfoldable pub take_lines : List String → String × String → String × String
unfolding cut
take_lines [] app = app
take_lines (l ∷ lines) app =
    let (key, value) = cut b'=' l in take_lines lines (take_line key value app)

-- What `ReadAppInfoFromFile` makes of the bytes of the file.
unfoldable pub app_info : String → String × String
unfolding take_lines split trim_space
app_info content = take_lines (split b'\n' (trim_space content)) ("", "")

module _ {X : Type 0} (files : Files X) where
  -- The loop over the bindings, in the order in which they come.
  write_lines : String → Dict String → Exec X String Unit
  write_lines path [] = pure tt
  write_lines path ((key, value) ∷ data_left) = do
    files.write_string path (line_of key value)
    write_lines path data_left

  unfoldable pub record_map_to_file : Dict String → String → Bool → Exec X String Unit
  unfolding write_lines
  record_map_to_file [] path truncate = pure tt
  record_map_to_file (binding ∷ data_left) path truncate = do
    files.open_file path truncate
    bindings ← gets (files.range_of (binding ∷ data_left))
    write_lines path bindings

  unfoldable pub record_application_to_file : String → String → Bool → Exec X String Unit
  unfolding record_map_to_file
  record_application_to_file app_instance group truncate =
      record_map_to_file (("appInstance", app_instance) ∷ ("appGroup", group) ∷ []) files.app_file
        truncate

  unfoldable pub read_app_info_from_file : Exec X String (String × String)
  unfolding app_info
  read_app_info_from_file = do content ← files.read_file files.app_file; pure (app_info content)

  keep_keys : String → String → Keys → Flow String Unit × X → Flow String Unit × (Keys × X)
  keep_keys access_key secret_key keys (ok u, x) =
      (ok u, (record { access_key = access_key; secure_key = secret_key }, x))
  keep_keys access_key secret_key keys (err e, x) = (err e, (keys, x))
  keep_keys access_key secret_key keys (panic, x) = (panic, (keys, x))
  keep_keys access_key secret_key keys (no_fuel, x) = (no_fuel, (keys, x))

  -- The keys are kept in the program only once they are in the file.
  unfoldable pub record_secret_key_to_file :
      String → String → Keys × X → Flow String Unit × (Keys × X)
  unfolding record_map_to_file keep_keys
  record_secret_key_to_file access_key secret_key (keys, x) =
      if access_key == "" || secret_key == ""
      then (err "accessKey or secretKey is empty", (keys, x))
      else keep_keys access_key secret_key keys
          (record_map_to_file (("AK", access_key) ∷ ("SK", secret_key) ∷ []) files.cert_file true x)
