-- ===== src/Store/Map.antt =====
-- Removing a list of keys from a map, one after the other.
use omega_fusion_core_proxmo.Prelude.{
  ◌+◌, ◌≡◌, ◌≢◌, refl, Bool, List, [], ◌∷◌, arith, length, All, none, some, lookup, select,
}
use omega_fusion_core_proxmo.Prelude.Assoc.{
  remove, Distinct, keys, length-remove, remove-Distinct, lookup-remove, remove-AllValues,
  AllValues,
}

module _ {ℓ} {K V : Type ℓ} (dec : Discrete K) where
  unfoldable pub remove_all : List K → List (K × V) → List (K × V)
  remove_all [] m = m
  remove_all (k ∷ ks) m = remove_all ks (remove dec k m)

  -- Each key is there when its turn comes.
  abbrev pub Present : List K → List (K × V) → Type ℓ
  Present [] m = Unit {ℓ}
  Present (k ∷ ks) m = ((w : V) × (lookup dec k m ≡ some w)) × Present ks (remove dec k m)

  pub length-remove_all :
      (ks : List K) (m : List (K × V))
      → Distinct dec m
      → Present ks m
      → length (remove_all ks m) + length ks ≡ length m
  unfolding remove_all
  length-remove_all [] m d p = omega arith
  length-remove_all (k ∷ ks) m d p = omega (
    arith,
    length-remove dec k p.0.0 m d p.0.1,
    length-remove_all ks (remove dec k m) (remove-Distinct dec k m d) p.1,
  )

  pub remove_all-Distinct :
      (ks : List K) (m : List (K × V)) → Distinct dec m → Distinct dec (remove_all ks m)
  unfolding remove_all
  remove_all-Distinct [] m d = d
  remove_all-Distinct (k ∷ ks) m d =
      remove_all-Distinct ks (remove dec k m) (remove-Distinct dec k m d)

  pub remove_all-AllValues {κ} :
      (P : V → Type κ) (ks : List K) (m : List (K × V))
      → AllValues dec P m
      → AllValues dec P (remove_all ks m)
  unfolding remove_all
  remove_all-AllValues P [] m a = a
  remove_all-AllValues P (k ∷ ks) m a =
      remove_all-AllValues P ks (remove dec k m) (remove-AllValues dec P k m a)

  -- A key outside the list keeps its value.
  pub lookup-remove_all_ne :
      (ks : List K) (q : K) (m : List (K × V))
      → All (λ k. q ≢ k) ks
      → lookup dec q (remove_all ks m) ≡ lookup dec q m
  unfolding remove_all
  lookup-remove_all_ne [] q m h = refl
  lookup-remove_all_ne (k ∷ ks) q m h =
      ground (arith, lookup-remove dec k q m, lookup-remove_all_ne ks q (remove dec k m) h.1, h.0)

  -- What is left was there before.
  pub lookup-remove_all-some :
      (ks : List K) (q : K) (w : V) (m : List (K × V))
      → lookup dec q (remove_all ks m) ≡ some w
      → (lookup dec q m ≡ some w) × All (λ k. q ≢ k) ks
  unfolding remove_all
  lookup-remove_all-some [] q w m h = (h, tt)
  lookup-remove_all-some (k ∷ ks) q w m h =
      let (below, others) = lookup-remove_all-some ks q w (remove dec k m) h in
      (
        ground (arith, lookup-remove dec k q m),
        (λ e. ground (arith, lookup-remove dec k q m), others),
      )

  -- The keys of a second map without repetition, all of them in the first.
  pub keys-Present :
      {U : Type ℓ} (es : List (K × U)) (m : List (K × V))
      → Distinct dec es
      → ((k : K) (u : U) → lookup dec k es ≡ some u → (w : V) × (lookup dec k m ≡ some w))
      → Present (keys es) m
  unfolding lookup
  keys-Present [] m d h = tt
  keys-Present ((k, u) ∷ es) m d h = (
    h k u (ground arith),
    keys-Present es (remove dec k m) d.1 λ j t e.
        let (w, found) = h j t (ground arith) in (w, ground (arith, lookup-remove dec k j m)),
  )

  lookup-select :
      (p : K × V → Bool) (k : K) (m : List (K × V)) (w : V)
      → Distinct dec m
      → lookup dec k (select p m) ≡ some w
      → lookup dec k m ≡ some w
  unfolding lookup
  lookup-select p k [] w d h = h
  lookup-select p k (e ∷ m) w d h = ground (arith, lookup-select p k m w d.1)

  pub lookup-select-none :
      (p : K × V → Bool) (k : K) (m : List (K × V))
      → lookup dec k m ≡ none
      → lookup dec k (select p m) ≡ none
  unfolding lookup
  lookup-select-none p k [] h = refl
  lookup-select-none p k (e ∷ m) h = ground (arith, lookup-select-none p k m)

  pub select-Distinct :
      (p : K × V → Bool) (m : List (K × V)) → Distinct dec m → Distinct dec (select p m)
  select-Distinct p [] d = d
  select-Distinct p (e ∷ m) d =
      ground (arith, select-Distinct p m d.1, lookup-select-none p e.0 m d.0)

  pub select-Present :
      (p : K × V → Bool) (m : List (K × V)) → Distinct dec m → Present (keys (select p m)) m
  select-Present p m d =
      keys-Present (select p m) m (select-Distinct p m d) λ k w e. (w, lookup-select p k m w d e)
