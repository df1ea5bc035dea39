-- ===== src/Prelude/Int.antt =====
-- Signed integers over the native numbers, by their two parts, which are numbers that `omega` reads.
use omega_fusion_core_proxmo.Prelude.Tests.{ltb, leb, if◌then◌else◌}
use Prim.Native.Nat.{ℕ, suc, ◌+◌, ◌-◌, ◌*◌, ◌^◌, ◌≤◌, ◌<◌}
use Prim.Native.Nat.{◌%◌}
use mathlib.Core.Path.{◌≡◌}
use mathlib.Core.Bool.{Bool}
use native.Mathlib.Omega.{arith}

-- `negsuc n` is -(n + 1).
pub data ℤ : Type 0 where
  pos : ℕ → ℤ
  negsuc : ℕ → ℤ

abbrev pub pos_part : ℤ → ℕ
pos_part (pos n) = n
pos_part (negsuc n) = 0

abbrev pub neg_part : ℤ → ℕ
neg_part (pos n) = 0
neg_part (negsuc n) = suc n

-- a - b, as an integer.
abbrev pub sub_ℕ : ℕ → ℕ → ℤ
sub_ℕ a b = if leb b a then pos (a - b) else negsuc (b - a - 1)

infixl 65 ◌+ℤ◌ ◌-ℤ◌
infixl 70 ◌*ℤ◌
infix 50 ◌≤ℤ◌
unfoldable pub ◌+ℤ◌ : ℤ → ℤ → ℤ
a +ℤ b = sub_ℕ (pos_part a + pos_part b) (neg_part a + neg_part b)

unfoldable pub ◌-ℤ◌ : ℤ → ℤ → ℤ
a -ℤ b = sub_ℕ (pos_part a + neg_part b) (neg_part a + pos_part b)

unfoldable pub ◌*ℤ◌ : ℤ → ℤ → ℤ
a *ℤ b =
    sub_ℕ (pos_part a * pos_part b + neg_part a * neg_part b)
      (pos_part a * neg_part b + neg_part a * pos_part b)

abbrev pub ◌≤ℤ◌ : ℤ → ℤ → Type 0
a ≤ℤ b = pos_part a + neg_part b ≤ pos_part b + neg_part a

abbrev pub ltb_ℤ : ℤ → ℤ → Bool
ltb_ℤ a b = ltb (pos_part a + neg_part b) (pos_part b + neg_part a)

abbrev pub leb_ℤ : ℤ → ℤ → Bool
leb_ℤ a b = leb (pos_part a + neg_part b) (pos_part b + neg_part a)

-- The `i64` with the given 64 bits.
unfoldable pub i64_of_bits : ℕ → ℤ
i64_of_bits n = if ltb n (2 ^ 63) then pos n else negsuc (2 ^ 64 - 1 - n)

-- What is left of an integer in an `i64`: the residue modulo 2^64, in two's complement.
unfoldable pub wrap_i64 : ℤ → ℤ
unfolding i64_of_bits
wrap_i64 (pos n) = i64_of_bits (n % 2 ^ 64)
wrap_i64 (negsuc n) = i64_of_bits (2 ^ 64 - 1 - n % 2 ^ 64)

pub wrap_i64_small : (a : ℤ) → pos_part a < 2 ^ 63 → neg_part a ≤ 2 ^ 63 → wrap_i64 a ≡ a
unfolding wrap_i64 i64_of_bits
wrap_i64_small (pos n) h k = ground arith
wrap_i64_small (negsuc n) h k = ground arith

-- An integer that leaves one bit of an `i64` free.
abbrev pub IsHalf : ℤ → Type 0
IsHalf a = (pos_part a < 2 ^ 62) × (neg_part a < 2 ^ 62)

pub wrap_i64-add : (a b : ℤ) → IsHalf a → IsHalf b → wrap_i64 (a +ℤ b) ≡ a +ℤ b
unfolding ◌+ℤ◌
wrap_i64-add (pos m) (pos n) h k = wrap_i64_small _ (ground (arith, h.0, k.0)) (ground arith)
wrap_i64-add (pos m) (negsuc n) h k =
    wrap_i64_small _ (ground (arith, h.0, k.1)) (ground (arith, h.0, k.1))
wrap_i64-add (negsuc m) (pos n) h k =
    wrap_i64_small _ (ground (arith, h.1, k.0)) (ground (arith, h.1, k.0))
wrap_i64-add (negsuc m) (negsuc n) h k = wrap_i64_small _ (ground arith) (ground (arith, h.1, k.1))

pub wrap_i64-sub : (a b : ℤ) → IsHalf a → IsHalf b → wrap_i64 (a -ℤ b) ≡ a -ℤ b
unfolding ◌-ℤ◌
wrap_i64-sub (pos m) (pos n) h k =
    wrap_i64_small _ (ground (arith, h.0, k.0)) (ground (arith, h.0, k.0))
wrap_i64-sub (pos m) (negsuc n) h k =
    wrap_i64_small _ (ground (arith, h.0, k.1)) (ground (arith, h.0, k.1))
wrap_i64-sub (negsuc m) (pos n) h k =
    wrap_i64_small _ (ground (arith, h.1, k.0)) (ground (arith, h.1, k.0))
wrap_i64-sub (negsuc m) (negsuc n) h k =
    wrap_i64_small _ (ground (arith, h.1, k.1)) (ground (arith, h.1, k.1))

-- A product with a number, by its parts.
pub *ℤ-pos :
    (a : ℤ) (k : ℕ)
    → (pos_part (a *ℤ pos k) ≡ pos_part a * k) × (neg_part (a *ℤ pos k) ≡ neg_part a * k)
unfolding ◌*ℤ◌
*ℤ-pos (pos n) k = ground arith
*ℤ-pos (negsuc n) k = ground arith

-- One lemma for each operation lets `omega` work with the operations shut.
pub +ℤ_parts :
    (a b : ℤ)
    → pos_part (a +ℤ b) + neg_part a + neg_part b ≡ neg_part (a +ℤ b) + pos_part a + pos_part b
unfolding ◌+ℤ◌
+ℤ_parts a b = ground arith

pub -ℤ_parts :
    (a b : ℤ)
    → pos_part (a -ℤ b) + neg_part a + pos_part b ≡ neg_part (a -ℤ b) + pos_part a + neg_part b
unfolding ◌-ℤ◌
-ℤ_parts a b = ground arith

pub eq_of_parts : (a b : ℤ) → pos_part a + neg_part b ≡ pos_part b + neg_part a → a ≡ b
eq_of_parts a b h = ground arith

pub ruleset int_laws = (arith, +ℤ_parts, -ℤ_parts, eq_of_parts)
