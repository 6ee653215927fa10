-- ===== src/Tools/Archive/Paths.antt =====
-- pkg/tools/file.go: the directory that is made for a file.
use text.Mathlib.TextLemmas.{nil-append, cons-append}
use winchaos.Base.{
  ℕ, suc, String, code, Bool, true, false, ◌&&◌, none, some, ◌≡◌, refl, ap, ◌∙◌, ◌⧺◌, ltb, arith,
}
use winchaos.Base.TextLaws.{has_code}
use winchaos.Tools.Archive.{utf8_size, last_index, take_runes, directory}

-- Every character is one byte in UTF-8.
unfoldable pub is_ascii : String → Bool
is_ascii String.[] = true
is_ascii (String.◌∷◌ c s) = ltb (code c) 0x80 && is_ascii s

abbrev runes : String → ℕ
runes String.[] = 0
runes (String.◌∷◌ c s) = suc (runes s)

last_index-none : (s : String) → has_code b'/' s ≡ false → last_index s ≡ none
unfolding last_index has_code
last_index-none String.[] h = refl
last_index-none (String.◌∷◌ c s) h = ground (arith, last_index-none s)

both : {a b : Bool} → (a && b) ≡ true → (a ≡ true) × (b ≡ true)
both h = ground arith

last_index-append :
    (d base : String)
    → is_ascii d ≡ true
    → has_code b'/' base ≡ false
    → last_index (d ⧺ String.◌∷◌ "/" base) ≡ some (runes d)
unfolding last_index is_ascii utf8_size
last_index-append String.[] base h k = rw (nil-append, last_index, last_index-none base k) refl
last_index-append (String.◌∷◌ c d) base h k =
    let (one_byte, rest) = both {a = ltb (code c) 0x80} {b = is_ascii d} h in
    rw (cons-append, last_index, last_index-append d base rest k, utf8_size, one_byte)
      (ap some (omega arith))

take_runes-append : (d t : String) → take_runes (runes d) (d ⧺ t) ≡ some d
unfolding take_runes
take_runes-append String.[] t = refl
take_runes-append (String.◌∷◌ c d) t =
    rw (cons-append c d t, take_runes, take_runes-append d t) refl

slash-cons : (s : String) → "/" ⧺ s ≡ String.◌∷◌ "/" s
slash-cons s = cons-append "/" "" s ∙ ap (String.◌∷◌ "/") (nil-append s)

-- For a path of ASCII characters, the directory that is made is what stands before its last slash.
pub directory-append :
    (d base : String)
    → is_ascii d ≡ true
    → has_code b'/' base ≡ false
    → directory (d ⧺ "/" ⧺ base) ≡ some d
unfolding directory
directory-append d base ascii plain =
    rw (slash-cons base, last_index-append d base ascii plain)
      (take_runes-append d (String.◌∷◌ "/" base))
