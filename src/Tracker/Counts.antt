-- ===== src/Tracker/Counts.antt =====
-- How many entries of a map have a key that passes a test, and how the map's operations change it.
use omega_fusion_core_proxmo.Prelude.{
  ℕ, ◌+◌, ◌&&◌, ◌≡◌, refl, Bool, true, false, List, [], ◌∷◌, arith, length, All, none, lookup,
  select, if◌then◌else◌,
}
use omega_fusion_core_proxmo.Prelude.Assoc.{
  insert, remove, modify, contains_key, Distinct, remove_absent,
}
use omega_fusion_core_proxmo.Store.Map.{remove_all}

module _ {ℓ} {K V : Type ℓ} (dec : Discrete K) (p : K → Bool) where
  abbrev pub count : List (K × V) → ℕ
  count m = length (select (λ e. p e.0) m)

  pub count-insert :
      (k : K) (v : V) (m : List (K × V))
      → count (insert dec k v m)
        ≡ (if contains_key dec k m then count m else if p k then count m + 1 else count m)
  unfolding insert contains_key lookup
  count-insert k v [] = ground arith
  count-insert k v ((j, w) ∷ m) = ground (arith, count-insert k v m)

  pub count-modify : (k : K) (f : V → V) (m : List (K × V)) → count (modify dec k f m) ≡ count m
  unfolding modify
  count-modify k f [] = refl
  count-modify k f ((j, w) ∷ m) = ground (arith, count-modify k f m)

  pub count-remove_ne : (k : K) (m : List (K × V)) → p k ≡ false → count (remove dec k m) ≡ count m
  unfolding remove
  count-remove_ne k [] h = refl
  count-remove_ne k ((j, w) ∷ m) h = ground (arith, count-remove_ne k m)

  pub count-remove :
      (k : K) (m : List (K × V))
      → Distinct dec m
      → count m ≡ (
          if contains_key dec k m && p k
          then count (remove dec k m) + 1
          else count (remove dec k m))
  unfolding remove contains_key lookup
  count-remove k [] d = ground arith
  count-remove k ((j, w) ∷ m) d = ground (arith, count-remove k m d.1, remove_absent dec k m)

  pub count-remove_all_ne :
      (ks : List K) (m : List (K × V))
      → All (λ k. p k ≡ false) ks
      → count (remove_all dec ks m) ≡ count m
  unfolding remove_all
  count-remove_all_ne [] m h = refl
  count-remove_all_ne (k ∷ ks) m h =
      ground (arith, count-remove_ne k m h.0, count-remove_all_ne ks (remove dec k m) h.1)

  pub count_zero : (m : List (K × V)) → ((k : K) → p k ≡ true → lookup dec k m ≡ none) → count m ≡ 0
  unfolding lookup
  count_zero [] h = refl
  count_zero ((j, w) ∷ m) h = ground (arith, h j, count_zero m λ k e. ground (arith, h k e, h j))
