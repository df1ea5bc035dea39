-- ===== src/Prelude/Assoc.antt =====
-- Hash maps as association lists over keys with a decidable equality. The order of the list is
-- one of the orders in which the map may be walked.
use Prim.Native.Nat.{◌+◌}
use mathlib.Core.Path.{◌≡◌, refl, subst, sym, ap}
use mathlib.Core.Logic.{◌≢◌, inl, inr, ite, if_pos, if_neg}
use mathlib.Core.List.{List, [], ◌∷◌, map, lookup}
use mathlib.Core.Bool.{Bool, true, false}
use mathlib.Core.Option
use mathlib.Core.Option.{Option, none, some}
use native.Mathlib.Omega.{arith}
use omega_fusion_core_proxmo.Prelude.Lists.{length}
use omega_fusion_core_proxmo.Prelude.Tests.{if◌then◌else◌, Option-cases}

module _ {ℓ} {K V : Type ℓ} where
  abbrev pub keys : List (K × V) → List K
  keys = map (λ e. e.0)

  abbrev pub values : List (K × V) → List V
  values = map (λ e. e.1)

module _ {ℓ} {K V : Type ℓ} (dec : Discrete K) where
  -- Replaces the entry of the key, or adds one.
  unfoldable pub insert : K → V → List (K × V) → List (K × V)
  insert k v [] = (k, v) ∷ []
  insert k v ((j, w) ∷ m) = ite (dec k j) ((k, v) ∷ m) ((j, w) ∷ insert k v m)

  unfoldable pub remove : K → List (K × V) → List (K × V)
  remove k [] = []
  remove k ((j, w) ∷ m) = ite (dec k j) (remove k m) ((j, w) ∷ remove k m)

  -- `get_mut`: changes the value of a key that is there.
  unfoldable pub modify : K → (V → V) → List (K × V) → List (K × V)
  modify k f [] = []
  modify k f ((j, w) ∷ m) = ite (dec k j) ((j, f w) ∷ m) ((j, w) ∷ modify k f m)

  unfoldable pub contains_key : K → List (K × V) → Bool
  contains_key k m = elim (lookup dec k m) [ none ↦ false | some _ ↦ true ]

  -- No key has two entries.
  abbrev pub Distinct : List (K × V) → Type ℓ
  Distinct [] = Unit {ℓ}
  Distinct ((k, v) ∷ m) = (lookup dec k m ≡ none) × Distinct m

  pub lookup-insert :
      (k q : K) (v : V) (m : List (K × V))
      → lookup dec q (insert k v m) ≡ ite (dec q k) (some v) (lookup dec q m)
  unfolding insert lookup
  lookup-insert k q v [] = ground arith
  lookup-insert k q v ((j, w) ∷ m) = ground (arith, lookup-insert k q v m)

  pub lookup-remove :
      (k q : K) (m : List (K × V)) → lookup dec q (remove k m) ≡ ite (dec q k) none (lookup dec q m)
  unfolding remove lookup
  lookup-remove k q [] = ground arith
  lookup-remove k q ((j, w) ∷ m) = ground (arith, lookup-remove k q m)

  pub lookup-modify :
      (k q : K) (f : V → V) (m : List (K × V))
      → lookup dec q (modify k f m) ≡ ite (dec q k) (Option.map f (lookup dec q m)) (lookup dec q m)
  unfolding modify lookup
  lookup-modify k q f [] = ground arith
  lookup-modify k q f ((j, w) ∷ m) = ground (arith, lookup-modify k q f m)

  pub lookup-insert_self : (k : K) (v : V) (m : List (K × V)) → lookup dec k (insert k v m) ≡ some v
  lookup-insert_self k v m = ground (arith, lookup-insert k k v m)

  pub lookup-insert_ne :
      (k q : K) (v : V) (m : List (K × V)) → q ≢ k → lookup dec q (insert k v m) ≡ lookup dec q m
  lookup-insert_ne k q v m h = ground (arith, lookup-insert k q v m)

  pub lookup-remove_self : (k : K) (m : List (K × V)) → lookup dec k (remove k m) ≡ none
  lookup-remove_self k m = ground (arith, lookup-remove k k m)

  pub lookup-remove_ne :
      (k q : K) (m : List (K × V)) → q ≢ k → lookup dec q (remove k m) ≡ lookup dec q m
  lookup-remove_ne k q m h = ground (arith, lookup-remove k q m)

  pub remove_absent : (k : K) (m : List (K × V)) → lookup dec k m ≡ none → remove k m ≡ m
  unfolding remove lookup
  remove_absent k [] h = refl
  remove_absent k ((j, w) ∷ m) h = ground (arith, remove_absent k m)

  pub length-insert_new :
      (k : K) (v : V) (m : List (K × V))
      → lookup dec k m ≡ none
      → length (insert k v m) ≡ length m + 1
  unfolding insert lookup
  length-insert_new k v [] h = omega arith
  length-insert_new k v ((j, w) ∷ m) h = ground (arith, length-insert_new k v m)

  pub length-insert_old :
      (k : K) (v w : V) (m : List (K × V))
      → lookup dec k m ≡ some w
      → length (insert k v m) ≡ length m
  unfolding insert lookup
  length-insert_old k v w [] h = cc
  length-insert_old k v w ((j, u) ∷ m) h = ground (arith, length-insert_old k v w m)

  pub length-remove :
      (k : K) (w : V) (m : List (K × V))
      → Distinct m
      → lookup dec k m ≡ some w
      → length (remove k m) + 1 ≡ length m
  unfolding remove lookup
  length-remove k w [] d h = cc
  length-remove k w ((j, u) ∷ m) d h = ground (arith, length-remove k w m d.1, remove_absent k m)

  pub length-insert :
      (k : K) (v : V) (m : List (K × V))
      → length (insert k v m) ≡ (if contains_key k m then length m else length m + 1)
  unfolding contains_key
  length-insert k v m = elim (Option-cases (lookup dec k m)) [
    | inl absent ↦ rw (absent, contains_key) (length-insert_new k v m absent)
    | inr (w, there) ↦ rw (there, contains_key) (length-insert_old k v w m there)
  ]

  pub length-remove_if :
      (k : K) (m : List (K × V))
      → Distinct m
      → length m ≡ (if contains_key k m then length (remove k m) + 1 else length (remove k m))
  unfolding contains_key
  length-remove_if k m d = elim (Option-cases (lookup dec k m)) [
    | inl absent ↦ rw (absent, contains_key) (ap length (sym (remove_absent k m absent)))
    | inr (w, there) ↦ rw (there, contains_key) (sym (length-remove k w m d there))
  ]

  pub length-modify : (k : K) (f : V → V) (m : List (K × V)) → length (modify k f m) ≡ length m
  unfolding modify
  length-modify k f [] = refl
  length-modify k f ((j, w) ∷ m) = ground (arith, length-modify k f m)

  pub insert-Distinct : (k : K) (v : V) (m : List (K × V)) → Distinct m → Distinct (insert k v m)
  unfolding insert lookup
  insert-Distinct k v [] d = ground arith
  insert-Distinct k v ((j, w) ∷ m) d =
      ground (arith, insert-Distinct k v m d.1, lookup-insert k j v m)

  pub remove-Distinct : (k : K) (m : List (K × V)) → Distinct m → Distinct (remove k m)
  unfolding remove lookup
  remove-Distinct k [] d = d
  remove-Distinct k ((j, w) ∷ m) d = ground (arith, remove-Distinct k m d.1, lookup-remove k j m)

  pub modify-Distinct :
      (k : K) (f : V → V) (m : List (K × V)) → Distinct m → Distinct (modify k f m)
  unfolding modify lookup
  modify-Distinct k f [] d = d
  modify-Distinct k f ((j, w) ∷ m) d =
      ground (arith, modify-Distinct k f m d.1, lookup-modify k j f m)

  -- A property of every value.
  abbrev pub AllValues {κ} : (V → Type κ) → List (K × V) → Type κ
  AllValues P [] = Unit {κ}
  AllValues P ((k, v) ∷ m) = P v × AllValues P m

  pub insert-AllValues {κ} :
      (P : V → Type κ) (k : K) (v : V) (m : List (K × V))
      → P v
      → AllValues P m
      → AllValues P (insert k v m)
  unfolding insert
  insert-AllValues P k v [] h a = (h, tt)
  insert-AllValues P k v ((j, w) ∷ m) h a = elim (dec k j) [
    | yes e ↦ rw (if_pos _ e) (h, a.1)
    | no e ↦ rw (if_neg _ e) (a.0, insert-AllValues P k v m h a.1)
  ]

  pub remove-AllValues {κ} :
      (P : V → Type κ) (k : K) (m : List (K × V)) → AllValues P m → AllValues P (remove k m)
  unfolding remove
  remove-AllValues P k [] a = a
  remove-AllValues P k ((j, w) ∷ m) a = elim (dec k j) [
    | yes e ↦ rw (if_pos _ e) (remove-AllValues P k m a.1)
    | no e ↦ rw (if_neg _ e) (a.0, remove-AllValues P k m a.1)
  ]

  pub modify-AllValues {κ} :
      (P : V → Type κ) (k : K) (f : V → V) (m : List (K × V))
      → ((v : V) → P v → P (f v))
      → AllValues P m
      → AllValues P (modify k f m)
  unfolding modify
  modify-AllValues P k f [] h a = a
  modify-AllValues P k f ((j, w) ∷ m) h a = elim (dec k j) [
    | yes e ↦ rw (if_pos _ e) (h w a.0, a.1)
    | no e ↦ rw (if_neg _ e) (a.0, modify-AllValues P k f m h a.1)
  ]

  pub lookup-AllValues {κ} :
      (P : V → Type κ) (k : K) (v : V) (m : List (K × V))
      → AllValues P m
      → lookup dec k m ≡ some v
      → P v
  unfolding lookup
  lookup-AllValues P k v [] a h = cc
  lookup-AllValues P k v ((j, w) ∷ m) a h = elim (dec k j) [
    | yes e ↦ let same : w ≡ v = ground arith in subst P same a.0
    | no e ↦ lookup-AllValues P k v m a.1 (ground arith)
  ]

  -- Only the value that is found has to keep the property.
  pub modify-AllValues_at {κ} :
      (P : V → Type κ) (k : K) (f : V → V) (m : List (K × V))
      → ((v : V) → lookup dec k m ≡ some v → P v → P (f v))
      → AllValues P m
      → AllValues P (modify k f m)
  unfolding modify lookup
  modify-AllValues_at P k f [] h a = a
  modify-AllValues_at P k f ((j, w) ∷ m) h a = elim (dec k j) [
    | yes e ↦ rw (if_pos _ e) (h w (ground arith) a.0, a.1)
    | no e ↦ rw (if_neg _ e) (a.0, modify-AllValues_at P k f m (λ v g. h v (ground arith)) a.1)
  ]
