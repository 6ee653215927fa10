-- ===== src/Tests/Tools.antt =====
-- The file of the application, and the names of an archive.
use winchaos.Base.{trim_right, refl, inl, String, sym, ◌⧺◌, if◌then◌else◌, none, some, ◌≡◌}
use winchaos.Base.Exec.{ok, ok-injective}
use winchaos.Base.TextLaws.{has_code}
use winchaos.Tools.Archive.{utf8_size, take_runes, last_index, directory}
use winchaos.Tools.KeyFile.{Files, record_application_to_file, read_app_info_from_file}
use winchaos.Tools.KeyFile.Recall.{IsFile, app_info-recorded}

-- A file of the application that holds what is written.
abbrev pub files : Files String
files = record {
  open_file = λ path truncate content. (ok tt, if truncate then "" else content);
  write_string = λ path s content. (ok tt, content ⧺ s);
  read_file = λ path content. (ok content, content);
  range_of = λ bindings content. bindings;
  cert_file = "C:/Users/chaos/.chaos.cert";
  app_file = "C:/chaos/.chaos.app";
}

pub files-IsFile : IsFile files (λ content. content)
files-IsFile = record {
  open_empties = λ x h. refl;
  write_appends = λ s x h. refl;
  read_all = λ x h. sym (ok-injective h);
  ranges = λ first second x. inl refl;
}

abbrev shop : String × String
shop = ("shop", "a=b")

app_info-recorded_example : shop ≡ ("shop", "a=b")
unfolding record_application_to_file has_code trim_right read_app_info_from_file
app_info-recorded_example =
    app_info-recorded files (λ content. content) files-IsFile "shop" "a=b" "old" {app = shop} refl
      refl refl refl refl refl

-- The index of the slash counts six bytes, of a name with five characters.
directory_runs :
    (directory "C:/chaos/blade/bin" ≡ some "C:/chaos/blade") × (directory "ééé/a" ≡ none)
unfolding directory last_index take_runes utf8_size
directory_runs = (refl, refl)
