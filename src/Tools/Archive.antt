-- ===== src/Tools/Archive.antt =====
-- pkg/tools/file.go: the unpacking of an archive.
pub mod Paths
use winchaos.Base.{
  ℕ, zero, suc, String, Char, code, Bool, true, false, List, [], ◌∷◌, Option, none, some, ◌+◌, ◌⧺◌,
  ltb, nat_eq, if◌then◌else◌,
}
use winchaos.Base.Exec.{Flow, ok, err, panic, no_fuel, Exec, pure, crash, ◌>>=◌, ◌>>◌}

-- What the reader of the archive yields: a name with its body, or an error.
pub data Entry : Type 0 where
  file : String → String → Entry
  broken : String → Entry

-- `os.Open` of the archive, `gzip.NewReader`, the entries up to the end, and the calls that write.
pub record Unpacker (W : Type 0) : Type 0 where
  pub open_archive : String → Exec W String Unit
  pub gzip_reader : String → Exec W String Unit
  pub entries : String → W → List Entry
  pub mkdir_all : String → Exec W String Unit
  pub open_file : String → Exec W String Unit
  pub copy : String → String → Exec W String Unit

-- The bytes of a character in UTF-8.
unfoldable pub utf8_size : Char → ℕ
utf8_size c =
    if ltb (code c) 0x80
    then 1
    else if ltb (code c) 0x800
    then 2
    else if ltb (code c) 0x10000
    then 3
    else 4

abbrev index_behind : Char → Option ℕ → Option ℕ
index_behind c (some i) = some (utf8_size c + i)
index_behind c none = if nat_eq (code c) b'/' then some 0 else none

-- `strings.LastIndex(s, "/")`, in bytes; `none` is -1.
unfoldable pub last_index : String → Option ℕ
last_index String.[] = none
last_index (String.◌∷◌ c s) = index_behind c (last_index s)

abbrev put_first : Char → Option String → Option String
put_first c (some s) = some (String.◌∷◌ c s)
put_first c none = none

-- `string([]rune(s)[0:n])`; `none` is the panic of a slice out of range.
unfoldable pub take_runes : ℕ → String → Option String
take_runes zero s = some ""
take_runes (suc n) String.[] = none
take_runes (suc n) (String.◌∷◌ c s) = put_first c (take_runes n s)

abbrev cut_at : String → Option ℕ → Option String
cut_at s none = none
cut_at s (some i) = take_runes i s

-- The directory of a file, as `createFile` takes it: the index counts bytes, the slice characters.
unfoldable pub directory : String → Option String
directory file_name = cut_at file_name (last_index file_name)

unfoldable pub ends_in_slash : String → Bool
ends_in_slash String.[] = false
ends_in_slash (String.◌∷◌ c String.[]) = nat_eq (code c) b'/'
ends_in_slash (String.◌∷◌ c (String.◌∷◌ d s)) = ends_in_slash (String.◌∷◌ d s)

module _ {W : Type 0} (u : Unpacker W) where
  abbrev write_file : String → String → Bool → Exec W String Unit
  write_file file_name body true = pure tt
  write_file file_name body false = u.open_file file_name >> u.copy file_name body

  unfoldable pub create_file : String → String → Exec W String Unit
  create_file file_name body = elim (directory file_name) [
    | none ↦ crash
    | some dir ↦ (do u.mkdir_all dir; write_file file_name body (ends_in_slash file_name))
  ]

  unfoldable pub unpack : String → List Entry → Exec W String Unit
  unpack dest_path [] = pure tt
  unpack dest_path (broken x ∷ entries) = λ w. (err x, w)
  unpack dest_path (file name body ∷ entries) = do
    create_file (dest_path ⧺ "/" ⧺ name) body
    unpack dest_path entries

  -- A header that is not one of gzip ends the call with nil, the value of a success.
  abbrev with_reader : Flow String Unit × W → Exec W String Unit → Flow String Unit × W
  with_reader (ok r, w) f = f w
  with_reader (err x, w) f = (ok tt, w)
  with_reader (panic, w) f = (panic, w)
  with_reader (no_fuel, w) f = (no_fuel, w)

  unfoldable pub de_compress_tgz : String → String → Exec W String Unit
  de_compress_tgz tar_file dest_path = do
    u.open_archive tar_file
    λ w. with_reader (u.gzip_reader tar_file w) (λ w'. unpack dest_path (u.entries tar_file w') w')
