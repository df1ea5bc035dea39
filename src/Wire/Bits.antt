-- ===== src/Wire/Bits.antt =====
-- `(hi << 32) | lo`: joining two fields by `|`, from the digit recursion that `bit_or` stands for.
use Prim.Native.Nat.{bit_or, digits, bit_or-bitwise}
use native.Mathlib.Nat.{pow-suc}
use omega_fusion_core_proxmo.Prelude.{
  ℕ, zero, suc, ◌+◌, ◌*◌, ◌/◌, ◌%◌, ◌^◌, ◌≤◌, ◌<◌, ◌≡◌, refl, ap, max, arith,
}

-- The digits of `a | b` with some fuel; what is above `a` makes no difference.
abbrev or_digits : ℕ → ℕ → ℕ → ℕ
or_digits = digits (λ t. t) max

or_digits_same : (f g a b : ℕ) → a ≤ f → a ≤ g → or_digits f a b ≡ or_digits g a b
or_digits_same zero zero a b hf hg = refl
or_digits_same (suc f) zero zero b hf hg = refl
or_digits_same (suc f) zero (suc a) b hf hg = absurd (omega arith)
or_digits_same zero (suc g) zero b hf hg = refl
or_digits_same zero (suc g) (suc a) b hf hg = absurd (omega arith)
or_digits_same (suc f) (suc g) zero b hf hg = refl
or_digits_same (suc f) (suc g) (suc a) b hf hg =
    omega (arith, or_digits_same f g (suc a / 2) (b / 2) (omega arith) (omega arith))

or_halves : (a b : ℕ) → bit_or a b ≡ bit_or (a / 2) (b / 2) * 2 + max (a % 2) (b % 2)
or_halves zero b = omega (arith, bit_or-bitwise 0 b, bit_or-bitwise 0 (b / 2))
or_halves (suc a) b = omega (
  arith,
  bit_or-bitwise (suc a) b,
  bit_or-bitwise (suc a / 2) (b / 2),
  or_digits_same a (suc a / 2) (suc a / 2) (b / 2) (omega arith) (omega arith),
)

or_nothing : (n a : ℕ) → a ≤ n → bit_or a 0 ≡ a
or_nothing n zero h = bit_or-bitwise 0 0
or_nothing zero (suc a) h = absurd (omega arith)
or_nothing (suc n) (suc a) h =
    omega (arith, or_halves (suc a) 0, or_nothing n (suc a / 2) (omega arith))

-- Where the low field fits under the shift, `|` is the sum.
pub bit_or_fields : (k hi lo : ℕ) → lo < 2 ^ k → bit_or (hi * 2 ^ k) lo ≡ hi * 2 ^ k + lo
bit_or_fields zero hi lo h = ground (arith, or_nothing hi hi)
bit_or_fields (suc k) hi lo h =
    let double : hi * 2 ^ suc k ≡ hi * 2 ^ k * 2 =
      omega (arith, ap (λ (t : ℕ). hi * t) (pow-suc 2 k)) in
    let half : hi * 2 ^ suc k / 2 ≡ hi * 2 ^ k = omega (arith, double) in
    ground (
      arith,
      or_halves (hi * 2 ^ suc k) lo,
      double,
      half,
      bit_or_fields k hi (lo / 2) (omega (arith, pow-suc 2 k)),
    )
