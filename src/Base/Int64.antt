-- ===== src/Base/Int64.antt =====
-- Go's arithmetic on `int64`: the exact result, wrapped around to 64 bits.
use Prim.Native.Nat.{ℕ, zero, suc, ◌+◌, ◌-◌, ◌*◌, ◌/◌, ◌%◌, ◌^◌, ◌<◌}
use mathlib.Core.Path.{◌≡◌, refl}
use mathlib.Core.Bool.{Bool, true, false, not}
use native.Mathlib.Omega.{arith}
use winchaos.Base.Tests.{ltb, if◌then◌else◌}
use winchaos.Base.Int.{ℤ, pos, negsuc, pos_part, neg_part, sub_ℕ, ◌-ℤ◌, ◌≤ℤ◌, max_int64, min_int64}

-- The bits of a word read as a signed number.
abbrev signed_word : ℕ → ℤ
signed_word r = if ltb r (2 ^ 63) then pos r else negsuc (2 ^ 64 - r - 1)

-- -(n + 1) has the bits of 2^64 - 1 - n % 2^64.
abbrev pub int64 : ℤ → ℤ
int64 (pos n) = signed_word (n % 2 ^ 64)
int64 (negsuc n) = signed_word (2 ^ 64 - 1 - n % 2 ^ 64)

-- A number from its sign and its distance from 0.
abbrev signed : Bool → ℕ → ℤ
signed false n = pos n
signed true zero = pos 0
signed true (suc n) = negsuc n

abbrev pub abs : ℤ → ℕ
abs (pos n) = n
abs (negsuc n) = suc n

abbrev is_negative : ℤ → Bool
is_negative (pos n) = false
is_negative (negsuc n) = true

infixl 65 ◌+64◌ ◌-64◌
infixl 70 ◌*64◌ ◌/64◌
unfoldable pub ◌+64◌ : ℤ → ℤ → ℤ
a +64 b = int64 (sub_ℕ (pos_part a + pos_part b) (neg_part a + neg_part b))

unfoldable pub ◌-64◌ : ℤ → ℤ → ℤ
unfolding ◌-ℤ◌
a -64 b = int64 (a -ℤ b)

unfoldable pub ◌*64◌ : ℤ → ℤ → ℤ
a *64 b =
    int64 (signed (if is_negative a then not (is_negative b) else is_negative b) (abs a * abs b))

-- A quotient by a positive constant, rounded towards 0.
unfoldable pub ◌/64◌ : ℤ → ℕ → ℤ
a /64 n = signed (is_negative a) (abs a / n)

pub int64-pos : (n : ℕ) → n < 2 ^ 63 → int64 (pos n) ≡ pos n
int64-pos n h = ground arith

pub int64-negsuc : (n : ℕ) → n < 2 ^ 63 → int64 (negsuc n) ≡ negsuc n
int64-negsuc n h = ground arith

-- Whatever is computed, the result is an int of 64 bits.
pub int64-range : (z : ℤ) → (min_int64 ≤ℤ int64 z) × (int64 z ≤ℤ max_int64)
int64-range (pos n) = ground arith
int64-range (negsuc n) = ground arith

pub *64-pos : (a b : ℕ) → a * b < 2 ^ 63 → pos a *64 pos b ≡ pos (a * b)
unfolding ◌*64◌
*64-pos a b h = int64-pos (a * b) h

pub -64-pos : (a b : ℕ) → a < 2 ^ 63 → b < 2 ^ 63 → pos a -64 pos b ≡ sub_ℕ a b
unfolding ◌-64◌ ◌-ℤ◌
-64-pos a b h k = ground arith

pub /64-pos : (a n : ℕ) → pos a /64 n ≡ pos (a / n)
unfolding ◌/64◌
/64-pos a n = refl

int64_runs :
    (pos (2 ^ 63 - 1) +64 pos 1 ≡ negsuc (2 ^ 63 - 1))
    × (negsuc 8 *64 pos 3 ≡ negsuc 26)
    × (negsuc 6 /64 2 ≡ negsuc 2)
    × (pos 3 -64 pos 5 ≡ negsuc 1)
unfolding ◌+64◌ ◌*64◌ ◌/64◌ ◌-64◌
int64_runs = (refl, refl, refl, refl)
