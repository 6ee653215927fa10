-- ===== src/Tools/Sign.antt =====
-- pkg/tools/auth.go: the keys of the agent, and the signature of a request.
pub mod Chunks
use winchaos.Base.{
  ℕ, zero, suc, String, Bool, true, false, List, [], ◌∷◌, ◌⧺◌, ◌==◌, ltb, leb, nat_eq,
  if◌then◌else◌, join, length, ◌++◌, Char, Option, none, some, drop,
}

-- `localAccessKey` and `localSecureKey`
pub record Keys : Type 0 where
  pub access_key : String
  pub secure_key : String

-- The crypto and encoding packages: base64 of the hexadecimal SHA-256 of a text.
module _ (digest : String → String) where
  unfoldable pub sign : Keys → String → String
  sign keys sign_data = digest (sign_data ⧺ keys.secure_key)

  unfoldable pub auth : Keys → String → String → Bool
  unfolding sign
  auth keys received sign_data = sign keys sign_data == received

abbrev take_bytes : ℕ → List ℕ → List ℕ
take_bytes zero s = []
take_bytes (suc n) [] = []
take_bytes (suc n) (c ∷ s) = c ∷ take_bytes n s

-- The loop of `splitToChunk` over the bytes left; `none` means that the fuel is spent.
unfoldable pub chunks : ℕ → ℕ → List ℕ → List (List ℕ) → Option (List (List ℕ))
chunks zero size s temp = none
chunks (suc fuel) size [] temp = some temp
chunks (suc fuel) size (c ∷ s) temp =
    let size' = if ltb (length (c ∷ s)) size then length (c ∷ s) else size in
    chunks fuel size' (drop size' (c ∷ s)) (temp ++ take_bytes size' (c ∷ s) ∷ [])

abbrev concat : List (List ℕ) → List ℕ
concat [] = []
concat (s ∷ l) = s ++ concat l

abbrev joined : Option (List (List ℕ)) → Option (List ℕ)
joined none = none
joined (some l) = some (concat l)

-- `splitToChunk` on the bytes of a text.
unfoldable pub split_to_chunk : ℕ → List ℕ → ℕ → Option (List ℕ)
unfolding chunks
split_to_chunk fuel s size = if ltb (length s) size then some s else joined (chunks fuel size s [])
