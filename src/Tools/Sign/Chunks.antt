-- ===== src/Tools/Sign/Chunks.antt =====
-- `splitToChunk` gives back the bytes that it cuts.
use mathlib.Core.List.{append-nil, append_assoc}
use winchaos.Base.{
  ℕ, zero, suc, ◌<◌, false, List, [], ◌∷◌, ◌++◌, none, some, ◌≡◌, refl, sym, ap, ◌∙◌, ltb,
  if◌then◌else◌, length, drop, length-drop, arith, Bool-cases, inl, inr,
}
use winchaos.Tools.Sign.{take_bytes, chunks, concat, joined, split_to_chunk}

take_bytes-drop : (n : ℕ) (s : List ℕ) → take_bytes n s ++ drop n s ≡ s
take_bytes-drop zero s = refl
take_bytes-drop (suc n) [] = refl
take_bytes-drop (suc n) (c ∷ s) = ap (◌∷◌ c) (take_bytes-drop n s)

concat-append : (l m : List (List ℕ)) → concat (l ++ m) ≡ concat l ++ concat m
concat-append [] m = refl
concat-append (s ∷ l) m =
    ap (◌++◌ s) (concat-append l m) ∙ sym (append_assoc s (concat l) (concat m))

-- One cut moves bytes from the rest to the pieces.
cut-concat :
    (n : ℕ) (s : List ℕ) (temp : List (List ℕ))
    → concat (temp ++ take_bytes n s ∷ []) ++ drop n s ≡ concat temp ++ s
cut-concat n s temp =
    rw
      (
        concat-append temp (take_bytes n s ∷ []),
        append-nil (take_bytes n s),
        append_assoc,
        take_bytes-drop,
      )
      refl

chunk_size : (n size : ℕ) → 0 < size → 0 < n → 0 < (if ltb n size then n else size)
chunk_size n size h k = ground arith

not_below_zero : (n : ℕ) → n < 0 → ⊥
not_below_zero n h = omega arith

chunks-concat :
    (fuel size : ℕ) (s : List ℕ) (temp : List (List ℕ))
    → 0 < size
    → length s < fuel
    → joined (chunks fuel size s temp) ≡ some (concat temp ++ s)
unfolding chunks
chunks-concat zero size s temp h k = absurd (not_below_zero (length s) k)
chunks-concat (suc fuel) size [] temp h k = ap some (sym (append-nil (concat temp)))
chunks-concat (suc fuel) size (c ∷ s) temp h k =
    let n = if ltb (length (c ∷ s)) size then length (c ∷ s) else size in
    let positive = chunk_size (length (c ∷ s)) size h (omega arith) in
    let shorter = length-drop n (c ∷ s) in
    chunks-concat fuel n (drop n (c ∷ s)) (temp ++ take_bytes n (c ∷ s) ∷ []) positive (omega arith)
    ∙ ap some (cut-concat n (c ∷ s) temp)

stuck :
    (fuel : ℕ) (c : ℕ) (s : List ℕ) (temp : List (List ℕ))
    → joined (chunks fuel 0 (c ∷ s) temp) ≡ none
unfolding chunks
stuck zero c s temp = refl
stuck (suc fuel) c s temp =
    let no_smaller : ltb (length (c ∷ s)) 0 ≡ false = ground arith in
    rw no_smaller (stuck fuel c s (temp ++ [] ∷ []))

-- For a positive size the loop ends, with fuel for each byte and one more, and the pieces make up
-- the bytes again; for the size 0 and a text with a byte no fuel is enough.
pub split_to_chunk_id :
    (s : List ℕ) (size : ℕ)
    → (0 < size → split_to_chunk (suc (length s)) s size ≡ some s)
      × (size ≡ 0 → 0 < length s → (fuel : ℕ) → split_to_chunk fuel s size ≡ none)
unfolding split_to_chunk
split_to_chunk_id s size = (positive, empty s)
  where
    positive : 0 < size → split_to_chunk (suc (length s)) s size ≡ some s
    positive h = elim (Bool-cases (ltb (length s) size)) [
      | inl short ↦ rw short refl
      | inr long ↦ rw long (chunks-concat (suc (length s)) size s [] h (omega arith))
    ]

    empty : (s : List ℕ) → size ≡ 0 → 0 < length s → (fuel : ℕ) → split_to_chunk fuel s size ≡ none
    empty [] e h fuel = absurd (not_below_zero 0 h)
    empty (c ∷ s) e h fuel =
        let no_smaller : ltb (length (c ∷ s)) 0 ≡ false = ground arith in
        rw (e, no_smaller) (stuck fuel c s [])
