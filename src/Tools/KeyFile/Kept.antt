-- ===== src/Tools/KeyFile/Kept.antt =====
-- The keys that the agent holds once they are recorded.
use winchaos.Base.{String, false, ◌||◌, ◌≡◌, ◌≢◌, refl, ◌==◌, eq_iff, inl, inr, arith, Bool-cases}
use winchaos.Base.Exec.{Flow, ok, err, panic, no_fuel}
use winchaos.Tools.Sign.{Keys}
use winchaos.Tools.KeyFile.{Files, keep_keys, record_secret_key_to_file}

module _ {X : Type 0} (files : Files X) where
  keep_keys-eq-ok :
      (ak sk : String) (keys : Keys) (r : Flow String Unit × X)
      → (keep_keys files ak sk keys r).0 ≡ ok tt
      → (keep_keys files ak sk keys r).1.0 ≡ record { access_key = ak; secure_key = sk }
  unfolding keep_keys
  keep_keys-eq-ok ak sk keys (ok u, x) h = refl
  keep_keys-eq-ok ak sk keys (err e, x) h = cc
  keep_keys-eq-ok ak sk keys (panic, x) h = cc
  keep_keys-eq-ok ak sk keys (no_fuel, x) h = cc

  no_empty_key : (ak sk : String) → (ak == "" || sk == "") ≡ false → (ak ≢ "") × (sk ≢ "")
  no_empty_key ak sk h = ground (arith, eq_iff ak "", eq_iff sk "")

  pub record_secret_key-eq-ok :
      (ak sk : String) (keys : Keys) (x : X)
      → (record_secret_key_to_file files ak sk (keys, x)).0 ≡ ok tt
      → (ak ≢ "")
        × (sk ≢ "")
        × ((record_secret_key_to_file files ak sk (keys, x)).1.0
            ≡ record { access_key = ak; secure_key = sk })
  unfolding record_secret_key_to_file
  record_secret_key-eq-ok ak sk keys x h = elim (Bool-cases (ak == "" || sk == "")) [
    | inl lacking ↦ cc (rw (lacking, record_secret_key_to_file) at h)
    | inr both ↦
        let (some_ak, some_sk) = no_empty_key ak sk both in
        (
          some_ak,
          some_sk,
          rw (both, record_secret_key_to_file)
              (keep_keys-eq-ok ak sk keys _ (rw (both, record_secret_key_to_file) at h)),
        )
  ]
