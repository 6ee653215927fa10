-- ===== src/Base/Decimal/RoundTrip.antt =====
-- What `Itoa` prints, `Atoi` reads.
use text.Mathlib.TextLemmas.{nil-append, cons-append}
use winchaos.Base.{
  ℕ, zero, suc, ◌+◌, ◌-◌, ◌*◌, ◌/◌, ◌%◌, ◌^◌, ◌<◌, String, Char, code, false, Option, none, some,
  ◌≡◌, refl, ap, ◌∙◌, ◌==◌, ◌⧺◌, ltb, nat_eq, Bool-cases, inl, inr, arith, ℤ, pos, negsuc, ◌≤ℤ◌,
  min_int64, max_int64, cons-eq-empty,
}
use winchaos.Base.Decimal.{digit, decimal, itoa_ℕ, itoa, digits, numeral, to_int, atoi}

digits-digit : (m d : ℕ) → d < 10 → digits m (digit d) ≡ some (m * 10 + d)
unfolding digits digit
digits-digit m zero h = refl
digits-digit m (suc zero) h = refl
digits-digit m (suc (suc zero)) h = refl
digits-digit m (suc (suc (suc zero))) h = refl
digits-digit m (suc (suc (suc (suc zero)))) h = refl
digits-digit m (suc (suc (suc (suc (suc zero))))) h = refl
digits-digit m (suc (suc (suc (suc (suc (suc zero)))))) h = refl
digits-digit m (suc (suc (suc (suc (suc (suc (suc zero))))))) h = refl
digits-digit m (suc (suc (suc (suc (suc (suc (suc (suc zero)))))))) h = refl
digits-digit m (suc (suc (suc (suc (suc (suc (suc (suc (suc zero))))))))) h = refl
digits-digit m (suc (suc (suc (suc (suc (suc (suc (suc (suc (suc d)))))))))) h =
    absurd (omega arith)

digit-ne-empty : (d : ℕ) → (digit d == "") ≡ false
unfolding digit
digit-ne-empty zero = refl
digit-ne-empty (suc zero) = refl
digit-ne-empty (suc (suc zero)) = refl
digit-ne-empty (suc (suc (suc zero))) = refl
digit-ne-empty (suc (suc (suc (suc zero)))) = refl
digit-ne-empty (suc (suc (suc (suc (suc zero))))) = refl
digit-ne-empty (suc (suc (suc (suc (suc (suc zero)))))) = refl
digit-ne-empty (suc (suc (suc (suc (suc (suc (suc zero))))))) = refl
digit-ne-empty (suc (suc (suc (suc (suc (suc (suc (suc zero)))))))) = refl
digit-ne-empty (suc (suc (suc (suc (suc (suc (suc (suc (suc d))))))))) = refl

abbrev and_then : Option ℕ → String → Option ℕ
and_then none t = none
and_then (some n) t = digits n t

digits-append : (n : ℕ) (s t : String) → digits n (s ⧺ t) ≡ and_then (digits n s) t
unfolding digits
digits-append n String.[] t = rw nil-append
digits-append n (String.◌∷◌ c s) t =
    rw cons-append (ground (arith, digits-append (n * 10 + (code c - b'0')) s t))

digits-decimal : (fuel n : ℕ) → n < fuel → digits 0 (decimal fuel n) ≡ some n
unfolding decimal
digits-decimal zero n h = absurd (omega arith)
digits-decimal (suc fuel) n h = elim (Bool-cases (ltb n 10)) [
  | inl small ↦ rw small (digits-digit 0 n (ground arith) ∙ ap some (omega arith))
  | inr large ↦
      rw (large, digits-append, digits-decimal fuel (n / 10) (ground arith))
        (digits-digit (n / 10) (n % 10) (omega arith) ∙ ap some (omega arith))
]

append-ne-empty : (s t : String) → (t == "") ≡ false → (s ⧺ t == "") ≡ false
append-ne-empty String.[] t h = rw nil-append h
append-ne-empty (String.◌∷◌ c s) t h = rw cons-append (cons-eq-empty c (s ⧺ t))

decimal-ne-empty : (fuel n : ℕ) → (decimal (suc fuel) n == "") ≡ false
unfolding decimal
decimal-ne-empty fuel n = elim (Bool-cases (ltb n 10)) [
  | inl small ↦ rw small (digit-ne-empty n)
  | inr large ↦
      rw large (append-ne-empty (decimal fuel (n / 10)) (digit (n % 10)) (digit-ne-empty (n % 10)))
]

-- What is printed is not empty, and spells the number.
pub itoa_ℕ-ne-empty : (n : ℕ) → (itoa_ℕ n == "") ≡ false
unfolding itoa_ℕ
itoa_ℕ-ne-empty n = decimal-ne-empty n n

pub numeral-itoa_ℕ : (n : ℕ) → numeral (itoa_ℕ n) ≡ some n
unfolding numeral itoa_ℕ
numeral-itoa_ℕ n = rw decimal-ne-empty (digits-decimal (suc n) n (omega arith))

-- A text of digits has no sign in front.
digits-head :
    (m n : ℕ) (c : Char) (s : String)
    → digits m (String.◌∷◌ c s) ≡ some n
    → (nat_eq (code c) b'-' ≡ false) × (nat_eq (code c) b'+' ≡ false)
unfolding digits
digits-head m n c s h = ground arith

atoi_of_numeral : (s : String) (n : ℕ) → numeral s ≡ some n → atoi s ≡ to_int false (some n)
unfolding numeral atoi
atoi_of_numeral String.[] n h = cc
atoi_of_numeral (String.◌∷◌ c s) n h =
    let spelled = rw (cons-eq-empty c s, numeral) at h in
    let (no_minus, no_plus) = digits-head 0 n c s spelled in
    rw (no_minus, no_plus, cons-eq-empty, spelled) refl

-- `Atoi` reads back what `Itoa` prints, if the number fits an int of 64 bits.
pub atoi-itoa_ℕ : (n : ℕ) → n < 2 ^ 63 → atoi (itoa_ℕ n) ≡ (pos n, false)
atoi-itoa_ℕ n h = atoi_of_numeral (itoa_ℕ n) n (numeral-itoa_ℕ n) ∙ ground arith

atoi-minus : (n : ℕ) → n < 2 ^ 63 → atoi ("-" ⧺ itoa_ℕ (suc n)) ≡ (negsuc n, false)
unfolding atoi
atoi-minus n h = rw (cons-append, nil-append, numeral-itoa_ℕ) (ground arith)

-- The same for every int of 64 bits.
pub atoi-itoa : (z : ℤ) → min_int64 ≤ℤ z → z ≤ℤ max_int64 → atoi (itoa z) ≡ (z, false)
unfolding itoa
atoi-itoa (pos n) low high = atoi-itoa_ℕ n (omega arith)
atoi-itoa (negsuc n) low high = atoi-minus n (omega arith)
