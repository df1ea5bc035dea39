-- ===== src/Policy/Placement.antt =====
-- The choice of a node for a machine: it is one of the candidates, and it holds the whole machine
-- when a candidate does.
use omega_fusion_core_proxmo.Prelude.{
  ◌≡◌, ◌⊎◌, refl, ap, ◌∙◌, Bool, true, none, some, List, [], ◌∷◌, ◌==◌, ◌&&◌, arith, select, All,
  inl, inr, Bool-cases, Option-cases,
}
use mathlib.Core.Path.{subst}
use mathlib.Core.Option
use omega_fusion_core_proxmo.Prelude.Int.{ℤ, ◌≤ℤ◌, ltb_ℤ, leb_ℤ}
use omega_fusion_core_proxmo.Policy.{
  NodeInfo, AdmissionVm, AdmissionConfig, effective_free, least_free, most_free, find_node,
  preferred, by_capacity, select_placement_node,
}

abbrev pub Has : NodeInfo → List NodeInfo → Type 0
Has x [] = ⊥
Has x (y ∷ ys) = (y ≡ x) ⊎ Has x ys

module _ {ℓ} {A : Type ℓ} where
  pub select-All {κ} :
      (P : A → Type κ) (p : A → Bool) (xs : List A) → All P xs → All P (select p xs)
  select-All P p [] h = tt
  select-All P p (x ∷ xs) h = elim (Bool-cases (p x)) [
    | inl e ↦ rw e (h.0, select-All P p xs h.1)
    | inr e ↦ rw e (select-All P p xs h.1)
  ]

  pub select-both {κ} :
      (P : A → Type κ) (p : A → Bool) (xs : List A)
      → All P xs
      → All (λ x. (p x ≡ true) × P x) (select p xs)
  select-both P p [] h = tt
  select-both P p (x ∷ xs) h = elim (Bool-cases (p x)) [
    | inl e ↦ rw e ((e, h.0), select-both P p xs h.1)
    | inr e ↦ rw e (select-both P p xs h.1)
  ]

pub Has-select :
    (p : NodeInfo → Bool) (x : NodeInfo) (xs : List NodeInfo)
    → Has x xs
    → p x ≡ true
    → Has x (select p xs)
Has-select p x [] i h = elim i [ ]
Has-select p x (y ∷ ys) (inl e) h = let k : p y ≡ true = ap p e ∙ h in rw k (inl e)
Has-select p x (y ∷ ys) (inr t) h = elim (Bool-cases (p y)) [
  | inl e ↦ rw e (inr (Has-select p x ys t h))
  | inr e ↦ rw e (Has-select p x ys t h)
]

pub All-Has {κ} :
    (P : NodeInfo → Type κ) (x : NodeInfo) (xs : List NodeInfo) → All P xs → Has x xs → P x
All-Has P x [] h i = elim i [ ]
All-Has P x (y ∷ ys) h (inl e) = subst P e h.0
All-Has P x (y ∷ ys) h (inr t) = All-Has P x ys h.1 t

pub Has-All {κ} :
    (P : NodeInfo → Type κ) (xs : List NodeInfo) → ((x : NodeInfo) → Has x xs → P x) → All P xs
Has-All P [] h = tt
Has-All P (x ∷ xs) h = (h x (inl refl), Has-All P xs (λ y i. h y (inr i)))

module _ (config : AdmissionConfig) where
  least_free-All {κ} :
      (P : NodeInfo → Type κ) (best : NodeInfo) (ns : List NodeInfo)
      → P best
      → All P ns
      → P (least_free config best ns)
  unfolding least_free
  least_free-All P best [] b h = b
  least_free-All P best (n ∷ ns) b h =
      elim (Bool-cases (ltb_ℤ (effective_free config n) (effective_free config best))) [
        | inl e ↦ rw e (least_free-All P n ns h.0 h.1)
        | inr e ↦ rw e (least_free-All P best ns b h.1)
      ]

  most_free-All {κ} :
      (P : NodeInfo → Type κ) (best : NodeInfo) (ns : List NodeInfo)
      → P best
      → All P ns
      → P (most_free config best ns)
  unfolding most_free
  most_free-All P best [] b h = b
  most_free-All P best (n ∷ ns) b h =
      elim (Bool-cases (ltb_ℤ (effective_free config n) (effective_free config best))) [
        | inl e ↦ rw e (most_free-All P best ns b h.1)
        | inr e ↦ rw e (most_free-All P n ns h.0 h.1)
      ]

  -- What any candidate has, the chosen one has too.
  most_free-le :
      (k : ℤ) (best : NodeInfo) (ns : List NodeInfo) (n : NodeInfo)
      → Has n (best ∷ ns)
      → k ≤ℤ effective_free config n
      → k ≤ℤ effective_free config (most_free config best ns)
  unfolding most_free
  most_free-le k best [] n (inl e) h = rw e h
  most_free-le k best [] n (inr i) h = elim i [ ]
  most_free-le k best (m ∷ ns) n i h =
      elim (Bool-cases (ltb_ℤ (effective_free config m) (effective_free config best))) [
        | inl less ↦ rw less elim i [
          | inl e ↦ most_free-le k best ns n (inl e) h
          | inr (inl e) ↦
              let j : k ≤ℤ effective_free config m = rw e h in
              most_free-le k best ns best (inl refl) (ground arith)
          | inr (inr t) ↦ most_free-le k best ns n (inr t) h
        ]
        | inr more ↦ rw more elim i [
          | inl e ↦
              let j : k ≤ℤ effective_free config best = rw e h in
              most_free-le k m ns m (inl refl) (ground arith)
          | inr t ↦ most_free-le k m ns n t h
        ]
      ]

  find_node-All {κ} :
      (P : NodeInfo → Type κ) (p : NodeInfo → Bool) (ns : List NodeInfo) (n : NodeInfo)
      → All P ns
      → find_node p ns ≡ some n
      → P n
  find_node-All P p [] n h e = cc
  find_node-All P p (m ∷ ns) n h e = elim (Bool-cases (p m)) [
    | inl yes_p ↦
        let same : some m ≡ some n = rw yes_p at e in subst P (Option.some-injective m n same) h.0
    | inr no_p ↦ find_node-All P p ns n h.1 (rw no_p at e)
  ]

  by_capacity-All {κ} :
      (P : NodeInfo → Type κ) (first : NodeInfo) (others fs : List NodeInfo)
      → All P (first ∷ others)
      → All P fs
      → P (by_capacity config first others fs)
  unfolding by_capacity
  by_capacity-All P first others [] h k = most_free-All P first others h.0 h.1
  by_capacity-All P first others (f ∷ fs) h k = elim (Bool-cases config.prefer_local) [
    | inl e ↦ rw e (least_free-All P f fs k.0 k.1)
    | inr e ↦ rw e (most_free-All P first others h.0 h.1)
  ]

  preferred-All {κ} :
      (P : NodeInfo → Type κ) (ns : List NodeInfo) (vm : AdmissionVm) (n : NodeInfo)
      → All P ns
      → preferred config ns vm ≡ some n
      → P n
  unfolding preferred
  preferred-All P ns vm n h e = elim (Option-cases vm.preferred_node) [
    | inl no_wish ↦ let f : none ≡ some n = rw no_wish at e in cc
    | inr (id, wish) ↦
        find_node-All P
          (λ m. (m.node_id == id) && leb_ℤ (config.half vm.max_mem_mib) (effective_free config m))
          ns n h (rw wish at e)
  ]

  -- What holds of every candidate holds of the choice.
  pub select_placement_node-All {κ} :
      (P : NodeInfo → Type κ) (first : NodeInfo) (others : List NodeInfo) (vm : AdmissionVm)
      → All P (first ∷ others)
      → P (select_placement_node config first others vm)
  unfolding select_placement_node preferred
  select_placement_node-All P first others vm h =
      elim (Option-cases (preferred config (first ∷ others) vm)) [
        | inl e ↦ rw e (
            by_capacity-All P first others _ h (
              select-All P (λ m. leb_ℤ vm.max_mem_mib (effective_free config m)) (first ∷ others)
                h))
        | inr (n, e) ↦ rw e (preferred-All P (first ∷ others) vm n h e)
      ]

  by_capacity-fits :
      (k : ℤ) (first : NodeInfo) (others fs : List NodeInfo) (n : NodeInfo)
      → Has n (first ∷ others)
      → k ≤ℤ effective_free config n
      → All (λ m. k ≤ℤ effective_free config m) fs
      → k ≤ℤ effective_free config (by_capacity config first others fs)
  unfolding by_capacity
  by_capacity-fits k first others [] n i h a = most_free-le k first others n i h
  by_capacity-fits k first others (f ∷ fs) n i h a = elim (Bool-cases config.prefer_local) [
    | inl e ↦ rw e (least_free-All (λ m. k ≤ℤ effective_free config m) f fs a.0 a.1)
    | inr e ↦ rw e (most_free-le k first others n i h)
  ]

  select-fits :
      (k : ℤ) (ns : List NodeInfo)
      → All (λ m. k ≤ℤ effective_free config m) (select (λ n. leb_ℤ k (effective_free config n)) ns)
  select-fits k [] = tt
  select-fits k (n ∷ ns) = elim (Bool-cases (leb_ℤ k (effective_free config n))) [
    | inl e ↦ rw e (ground arith, select-fits k ns)
    | inr e ↦ rw e (select-fits k ns)
  ]

  -- Without a preferred node, the choice holds what any candidate could hold.
  pub select_placement_node-fits :
      (first : NodeInfo) (others : List NodeInfo) (vm : AdmissionVm) (n : NodeInfo)
      → vm.preferred_node ≡ none
      → Has n (first ∷ others)
      → vm.max_mem_mib ≤ℤ effective_free config n
      → vm.max_mem_mib ≤ℤ effective_free config (select_placement_node config first others vm)
  unfolding select_placement_node preferred
  select_placement_node-fits first others vm n none_preferred i h = rw none_preferred (
      by_capacity-fits vm.max_mem_mib first others _ n i h
        (select-fits vm.max_mem_mib (first ∷ others)))
