-- ===== src/Tools/Sums.antt =====
-- pkg/tools/file.go: sums of files and data, and texts that are compressed.
use winchaos.Base.{
  String, Bool, true, Option, none, some, ◌≡◌, sym, ap, ◌∙◌, ◌==◌, eq_iff, if◌then◌else◌,
  Bool-cases, inl, inr,
}
use winchaos.Base.Exec.{
  Result, value, failure, Flow, ok, err, Exec, pure, throw, ok-injective, >>=-eq-ok, ◌>>=◌, ◌>>◌,
}

-- `os.Open`, the copy of an open file into an MD5 with the sum in hexadecimal, `json.Marshal` of a
-- value, and the sum of bytes.
pub record Summer (W V B : Type 0) : Type 0 where
  pub open_file : String → Exec W String Unit
  pub copy_sum : String → Exec W String String
  pub marshal : V → Result B
  pub sum : B → String

-- `gzip.NewWriter` with a text that is written and closed; `gzip.NewReader` and what is read.
pub record Gzip (B : Type 0) : Type 0 where
  pub written : String → Result B
  pub read : B → Result String

module _ {W V B : Type 0} (summer : Summer W V B) where
  unfoldable pub md5sum : String → Exec W String String
  md5sum path = do summer.open_file path; summer.copy_sum path

  -- The sums differ in an error, not in the answer.
  unfoldable pub check_md5 : String → String → Exec W String Bool
  unfolding md5sum
  check_md5 path expected = do
    found ← md5sum path
    if found == expected then pure true else throw "md5 not equal"

  abbrev summed : Result B → Result String
  summed (value bytes) = value (summer.sum bytes)
  summed (failure x) = failure x

  unfoldable pub md5sum_data : Option V → Result String
  md5sum_data none = failure "md5 data is nill"
  md5sum_data (some v) = summed (summer.marshal v)

  -- A check that returns no error has found the sum.
  check_md5-ok :
      (path expected : String) (w : W) {b : Bool}
      → (check_md5 path expected w).0 ≡ ok b
      → (b ≡ true) × ((md5sum path w).0 ≡ ok expected)
  unfolding check_md5
  check_md5-ok path expected w {b} h =
      let (found, summed, rest, _) = >>=-eq-ok (md5sum path) _ w h in
      elim (Bool-cases (found == expected)) [
        | inl same ↦
            let e : found ≡ expected = (eq_iff found expected).0 same in
            let done : ◌≡◌ {A = Flow String Bool} (ok true) (ok b) = rw same at rest in
            (sym (ok-injective done), summed ∙ ap (λ s. ok s) e)
        | inr differ ↦
            let failed : ◌≡◌ {A = Flow String Bool} (err "md5 not equal") (ok b) =
              rw differ at rest in
            cc
      ]

unfoldable pub compress_by_gzip : {B : Type 0} → Gzip B → String → Result B
compress_by_gzip gzip body = gzip.written body

unfoldable pub decompress_by_gzip : {B : Type 0} → Gzip B → B → Result String
decompress_by_gzip gzip body = gzip.read body
