-- ===== src/Tools/Fetch.antt =====
-- pkg/tools/download.go and uuid.go: downloads, and uids.
use winchaos.Base.{ℕ, zero, suc, String, List, [], ◌∷◌, ◌⧺◌, ◌/◌, ◌%◌, nat_eq, if◌then◌else◌}
use winchaos.Base.Decimal.{itoa_ℕ}
use winchaos.Base.Exec.{ok, Exec, pure, throw, ◌>>=◌, ◌>>◌}

-- `os.Create`, `os.Chmod` with its error dropped, `http.Get` with a status and a body, `io.Copy`.
pub record Fetcher (W : Type 0) : Type 0 where
  pub create : String → Exec W String Unit
  pub chmod : String → ℕ → W → W
  pub get : String → Exec W String (ℕ × String)
  pub copy : String → String → Exec W String Unit

module _ {W : Type 0} (fetcher : Fetcher W) where
  -- The file is made before the url is asked, and stays where the download fails.
  unfoldable pub download : String → String → Exec W String Unit
  download path url = do
    fetcher.create path
    (λ w. (ok tt, fetcher.chmod path 484 w))
    (status, body) ← fetcher.get url
    (if nat_eq status 200
        then fetcher.copy path body
        else throw ("response code: " ⧺ itoa_ℕ status))

abbrev char_at : ℕ → String → String
char_at n String.[] = ""
char_at zero (String.◌∷◌ c s) = String.◌∷◌ c ""
char_at (suc n) (String.◌∷◌ c s) = char_at n s

abbrev hex_digit : ℕ → String
hex_digit n = char_at n "0123456789abcdef"

-- `hex.EncodeToString`
unfoldable pub encode_to_string : List ℕ → String
encode_to_string [] = ""
encode_to_string (b ∷ bytes) = hex_digit (b / 16) ⧺ hex_digit (b % 16) ⧺ encode_to_string bytes

-- `seed` is `rand.Seed` of the clock, and `read` is `rand.Read` of a number of bytes.
unfoldable pub generate_uid :
    {W : Type 0} → (W → W) → (ℕ → Exec W String (List ℕ)) → Exec W String String
unfolding encode_to_string
generate_uid seed read = do (λ w. (ok tt, seed w)); b ← read 8; pure (encode_to_string b)
