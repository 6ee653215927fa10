-- ===== src/Cmdexec/Script/Files.antt =====
-- The files of web/cmdexec/script.go: paths, the download, the archive and its main file.
use winchaos.Base.{
  ℕ, zero, suc, Option, none, some, false, cut, String, code, not, List, [], ◌∷◌, ◌≡◌, refl, ◌==◌,
  ◌⧺◌, nat_eq, if◌then◌else◌, split,
}
use winchaos.Base.TextLaws.{has_code, cut-append}
use winchaos.Base.Exec.{Result, value, failure, Exec, pure, throw, or_else, ◌>>=◌, ◌>>◌}
use winchaos.Cmdexec.Host.{Stat, present, missing, unknown, TarItem, entry, broken, Host}

trim_slashes : String → String
trim_slashes String.[] = ""
trim_slashes (String.◌∷◌ c s) =
    let rest = trim_slashes s in
    if rest == "" then (if nat_eq (code c) b'/' then "" else String.◌∷◌ c "") else String.◌∷◌ c rest

abbrev last_of : List String → String
last_of [] = ""
last_of (p ∷ []) = p
last_of (p ∷ q ∷ ps) = last_of (q ∷ ps)

-- `path.Base`
unfoldable pub base : String → String
unfolding trim_slashes split
base s =
    if s == ""
    then "."
    else if trim_slashes s == ""
    then "/"
    else last_of (split b'/' (trim_slashes s))

-- `path.Ext` of a name without a slash: from its last dot on.
unfoldable pub ext : String → String
ext String.[] = ""
ext (String.◌∷◌ c s) =
    let rest = ext s in
    if not (rest == "") then rest else if nat_eq (code c) b'.' then String.◌∷◌ c s else ""

-- `strings.TrimSuffix(name, path.Ext(name))`
unfoldable pub stem : String → String
unfolding ext
stem String.[] = ""
stem (String.◌∷◌ c s) =
    let rest = stem s in
    if not (ext s == "")
    then String.◌∷◌ c rest
    else if nat_eq (code c) b'.'
    then ""
    else String.◌∷◌ c rest

-- The loop of `listDir`: the first name whose stem is `main`, and its extension.
unfoldable pub find_main : List String → String × String
unfolding base ext stem
find_main [] = ("", "")
find_main (n ∷ names) =
    let rest = find_main names in if stem (base n) == "main" then (base n, ext (base n)) else rest

abbrev and_more : ℕ → (String → List String) → String × Option String → List String
and_more n go (part, none) = part ∷ []
and_more n go (part, some rest) = part ∷ go rest

-- `strings.SplitN` at a character, with one more part than the number.
unfoldable pub split_n : ℕ → ℕ → String → List String
split_n sep zero s = s ∷ []
split_n sep (suc n) s = and_more n (split_n sep n) (cut sep s)

abbrev third_and_fourth : List String → Result (String × String)
third_and_fourth (a ∷ b ∷ c ∷ d ∷ parts) = value (c, d)
third_and_fourth parts = failure "not illegal command"

unfoldable pub parse_command_path : String → Result (String × String)
unfolding split_n
parse_command_path path = third_and_fourth (split_n b' ' 3 path)

split_n-append :
    (n : ℕ) (s t : String)
    → has_code b' ' s ≡ false
    → split_n b' ' (suc n) (s ⧺ String.◌∷◌ " " t) ≡ s ∷ split_n b' ' n t
unfolding split_n
split_n-append n s t h = rw (split_n, cut-append b' ' s t " " refl h) refl

-- The kind and what follows it, of a command with two words before them.
parse_command_path-words :
    (a b c d : String)
    → has_code b' ' a ≡ false
    → has_code b' ' b ≡ false
    → has_code b' ' c ≡ false
    → parse_command_path (a ⧺ String.◌∷◌ " " (b ⧺ String.◌∷◌ " " (c ⧺ String.◌∷◌ " " d)))
      ≡ value (c, d)
unfolding parse_command_path
parse_command_path-words a b c d h h' h'' =
    rw (split_n-append 2 a _ h, split_n-append 1 b _ h', split_n-append 0 c d h'', split_n) refl

module _ {W : Type 0} (host : Host W) where
  unfoldable pub list_dir : String → Exec W String (String × String)
  unfolding find_main
  list_dir dir = do names ← host.read_dir dir; pure (find_main names)

  unfoldable pub make_unless : String → Stat → Exec W String Unit
  make_unless dir present = pure tt
  make_unless dir missing = host.mkdir_all dir
  make_unless dir (unknown x) = throw x

  unfoldable pub is_exist_dir : String → Exec W String Unit
  unfolding make_unless
  is_exist_dir dir w = make_unless dir (host.stat dir w) w

  unfoldable pub download_file : String → String → Exec W String Unit
  download_file url path = do body ← host.http_get url; host.create path; host.copy_to path body

  -- The loop over the items of an archive. The directory of an item is made in the working
  -- directory, with its error dropped; the item goes below the given directory.
  unfoldable pub unpack : String → List TarItem → Exec W String Unit
  unpack dir [] = pure tt
  unpack dir (broken x ∷ items) = throw x
  unpack dir (entry name mode ∷ items) = do
    or_else (λ x. tt) (host.mkdir_all (host.dir_name name))
    host.open_file (dir ⧺ name) mode
    host.copy_item (dir ⧺ name) name
    unpack dir items

  unfoldable pub un_tar : String → String → Exec W String Unit
  unfolding unpack
  un_tar archive dir = do items ← host.open_tar archive; unpack dir items

names_run :
    (base "http://h/blade/hello.tar" ≡ "hello.tar")
    × (find_main ("a.txt" ∷ "main.ps1" ∷ "main.bat" ∷ []) ≡ ("main.ps1", ".ps1"))
unfolding base find_main
names_run = (refl, refl)
