-- ===== src/Clock/Count.antt =====
-- How often a page stands in a list.
use omega_fusion_core_proxmo.Prelude.{
  ℕ, suc, ◌+◌, ◌≡◌, not, List, [], ◌∷◌, ◌++◌, arith, ◌==◌, if◌then◌else◌, select,
}

abbrev pub count : ℕ → List ℕ → ℕ
count x [] = 0
count x (y ∷ ys) = if x == y then suc (count x ys) else count x ys

pub count-append : (x : ℕ) (ys zs : List ℕ) → count x (ys ++ zs) ≡ count x ys + count x zs
count-append x [] zs = omega arith
count-append x (y ∷ ys) zs = ground (arith, count-append x ys zs)

pub count-select_ne :
    (x id : ℕ) (ys : List ℕ)
    → count x (select (λ y. not (y == id)) ys) ≡ (if x == id then 0 else count x ys)
count-select_ne x id [] = ground arith
count-select_ne x id (y ∷ ys) = ground (arith, count-select_ne x id ys)
