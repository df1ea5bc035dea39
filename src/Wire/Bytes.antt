-- ===== src/Wire/Bytes.antt =====
-- Big-endian integers (`to_be_bytes`, `from_be_bytes`), and the flag bit of a byte.
use Prim.Native.Nat.{bit_and, bit_or}
use mathlib.Core.List.{foldl}
use native.Mathlib.Nat.{pow-suc}
use omega_fusion_core_proxmo.Prelude.{
  if◌then◌else◌, false, ℕ, zero, suc, ◌+◌, ◌*◌, ◌/◌, ◌%◌, ◌^◌, ◌<◌, ◌≡◌, refl, Bool, true, List, [],
  ◌∷◌, ◌++◌, arith, ◌==◌, length, length-append, All, All-append, ◌∙◌,
}

abbrev pub IsByte : ℕ → Type 0
IsByte b = b < 256

-- The low `n` bytes of `v`, the highest first.
unfoldable pub to_be : ℕ → ℕ → List ℕ
to_be zero v = []
to_be (suc n) v = to_be n (v / 256) ++ v % 256 ∷ []

unfoldable pub from_be : List ℕ → ℕ
from_be = foldl (λ acc b. acc * 256 + b) 0

pub length-to_be : (n v : ℕ) → length (to_be n v) ≡ n
unfolding to_be
length-to_be zero v = refl
length-to_be (suc n) v =
    omega (arith, length-append (to_be n (v / 256)) (v % 256 ∷ []), length-to_be n (v / 256))

foldl-append_one :
    (f : ℕ → ℕ → ℕ) (acc b : ℕ) (xs : List ℕ) → foldl f acc (xs ++ b ∷ []) ≡ f (foldl f acc xs) b
foldl-append_one f acc b [] = refl
foldl-append_one f acc b (x ∷ xs) = foldl-append_one f (f acc x) b xs

-- Reading back what `to_be_bytes` wrote.
pub from_be-to_be : (n v : ℕ) → v < 256 ^ n → from_be (to_be n v) ≡ v
unfolding to_be from_be
from_be-to_be zero v h = omega arith
from_be-to_be (suc n) v h =
    foldl-append_one _ 0 (v % 256) (to_be n (v / 256))
    ∙ omega (arith, from_be-to_be n (v / 256) (omega (arith, pow-suc 256 n)))

-- The bytes written are bytes, and for bytes reading and writing back gives the same ones.
pub to_be-IsByte : (n v : ℕ) → All IsByte (to_be n v)
unfolding to_be
to_be-IsByte zero v = tt
to_be-IsByte (suc n) v = All-append _ (to_be n (v / 256)) _ (to_be-IsByte n (v / 256)) (omega arith)

pub take_byte : (b : ℕ) → from_be (b ∷ []) ≡ b
unfolding from_be
take_byte b = omega arith

-- Two functions compared on the numbers under a bound, one by one.
agrees : (f g : ℕ → ℕ) → ℕ → Bool
agrees f g zero = true
agrees f g (suc top) = if f top == g top then agrees f g top else false

agree_below : (f g : ℕ → ℕ) (bound b : ℕ) → agrees f g bound ≡ true → b < bound → f b ≡ g b
unfolding agrees
agree_below f g zero b same below = absurd (omega arith)
agree_below f g (suc top) b same below = ground (arith, agree_below f g top b)

-- The lowest bit of a byte, as arithmetic.
pub flag_bit : (b : ℕ) → IsByte b → bit_and b 1 ≡ b % 2
flag_bit b h = agree_below (λ i. bit_and i 1) (λ i. i % 2) 256 b (unfold agrees in refl) h

pub set_flag : (b : ℕ) → IsByte b → bit_or b 1 ≡ b / 2 * 2 + 1
set_flag b h = agree_below (λ i. bit_or i 1) (λ i. i / 2 * 2 + 1) 256 b (unfold agrees in refl) h

pub clear_flag : (b : ℕ) → IsByte b → bit_and b 0xfe ≡ b / 2 * 2
clear_flag b h = agree_below (λ i. bit_and i 0xfe) (λ i. i / 2 * 2) 256 b (unfold agrees in refl) h
