-- ===== src/Store/Order.antt =====
-- `sort_unstable_by_key(|(_, ts)| *ts)`, as an insertion sort, and what it keeps.
use omega_fusion_core_proxmo.Prelude.{
  ℕ, suc, ◌+◌, ◌≤◌, ◌≡◌, ◌≢◌, refl, List, [], ◌∷◌, arith, leb, if◌then◌else◌, length, All, take,
  drop, none, some, lookup, zero, ◌∙◌,
}
use omega_fusion_core_proxmo.Prelude.Assoc.{Distinct, keys}

module _ {K : Type 0} where
  unfoldable pub insert_by_time : K × ℕ → List (K × ℕ) → List (K × ℕ)
  insert_by_time e [] = e ∷ []
  insert_by_time e (x ∷ xs) = if leb e.1 x.1 then e ∷ x ∷ xs else x ∷ insert_by_time e xs

  unfoldable pub sort_by_time : List (K × ℕ) → List (K × ℕ)
  unfolding insert_by_time
  sort_by_time [] = []
  sort_by_time (e ∷ es) = insert_by_time e (sort_by_time es)

  -- No entry is older than `t`.
  abbrev pub Since : ℕ → List (K × ℕ) → Type 0
  Since t [] = Unit {0}
  Since t (x ∷ xs) = (t ≤ x.1) × Since t xs

  abbrev pub IsSorted : List (K × ℕ) → Type 0
  IsSorted [] = Unit {0}
  IsSorted (x ∷ xs) = Since x.1 xs × IsSorted xs

  Since-mono : (t u : ℕ) (xs : List (K × ℕ)) → t ≤ u → Since u xs → Since t xs
  Since-mono t u [] h s = tt
  Since-mono t u (x ∷ xs) h s = (omega arith, Since-mono t u xs h s.1)

  insert_by_time-Since :
      (t : ℕ) (e : K × ℕ) (xs : List (K × ℕ)) → t ≤ e.1 → Since t xs → Since t (insert_by_time e xs)
  unfolding insert_by_time
  insert_by_time-Since t e [] h s = (h, tt)
  insert_by_time-Since t e (x ∷ xs) h s = ground (arith, insert_by_time-Since t e xs h s.1)

  insert_by_time-IsSorted :
      (e : K × ℕ) (xs : List (K × ℕ)) → IsSorted xs → IsSorted (insert_by_time e xs)
  unfolding insert_by_time
  insert_by_time-IsSorted e [] s = (tt, tt)
  insert_by_time-IsSorted e (x ∷ xs) s = ground (
    arith,
    insert_by_time-IsSorted e xs s.1,
    insert_by_time-Since x.1 e xs,
    Since-mono e.1 x.1 xs,
  )

  pub sort_by_time-IsSorted : (es : List (K × ℕ)) → IsSorted (sort_by_time es)
  unfolding sort_by_time
  sort_by_time-IsSorted [] = tt
  sort_by_time-IsSorted (e ∷ es) = insert_by_time-IsSorted e _ (sort_by_time-IsSorted es)

  length-insert_by_time :
      (e : K × ℕ) (xs : List (K × ℕ)) → length (insert_by_time e xs) ≡ length xs + 1
  unfolding insert_by_time
  length-insert_by_time e [] = omega arith
  length-insert_by_time e (x ∷ xs) = ground (arith, length-insert_by_time e xs)

  pub length-sort_by_time : (es : List (K × ℕ)) → length (sort_by_time es) ≡ length es
  unfolding sort_by_time
  length-sort_by_time [] = refl
  length-sort_by_time (e ∷ es) =
      omega (arith, length-insert_by_time e (sort_by_time es), length-sort_by_time es)

  module _ (dec : Discrete K) where
    lookup-insert_by_time :
        (e : K × ℕ) (q : K) (xs : List (K × ℕ))
        → lookup dec e.0 xs ≡ none
        → lookup dec q (insert_by_time e xs) ≡ lookup dec q (e ∷ xs)
    unfolding insert_by_time lookup
    lookup-insert_by_time e q [] h = refl
    lookup-insert_by_time e q (x ∷ xs) h = ground (arith, lookup-insert_by_time e q xs)

    insert_by_time-Distinct :
        (e : K × ℕ) (xs : List (K × ℕ))
        → lookup dec e.0 xs ≡ none
        → Distinct dec xs
        → Distinct dec (insert_by_time e xs)
    unfolding insert_by_time lookup
    insert_by_time-Distinct e [] h d = ground arith
    insert_by_time-Distinct e (x ∷ xs) h d =
        ground (arith, insert_by_time-Distinct e xs, lookup-insert_by_time e x.0 xs)

    pub lookup-sort_by_time :
        (q : K) (es : List (K × ℕ))
        → Distinct dec es
        → lookup dec q (sort_by_time es) ≡ lookup dec q es
    unfolding sort_by_time lookup
    lookup-sort_by_time q [] d = refl
    lookup-sort_by_time q (e ∷ es) d = ground (
      arith,
      lookup-insert_by_time e q (sort_by_time es),
      lookup-sort_by_time q es d.1,
      lookup-sort_by_time e.0 es d.1,
    )

    pub sort_by_time-Distinct :
        (es : List (K × ℕ)) → Distinct dec es → Distinct dec (sort_by_time es)
    unfolding sort_by_time
    sort_by_time-Distinct [] d = d
    sort_by_time-Distinct (e ∷ es) d =
        insert_by_time-Distinct e (sort_by_time es) (lookup-sort_by_time e.0 es d.1 ∙ d.0)
          (sort_by_time-Distinct es d.1)

    Since-lookup :
        (u n : ℕ) (es : List (K × ℕ)) (q : K) (t : ℕ)
        → Since u es
        → lookup dec q (drop n es) ≡ some t
        → u ≤ t
    unfolding lookup
    Since-lookup u zero [] q t s h = cc
    Since-lookup u (suc n) [] q t s h = cc
    Since-lookup u zero (e ∷ es) q t s h = ground (arith, Since-lookup u zero es q t s.1)
    Since-lookup u (suc n) (e ∷ es) q t s h = Since-lookup u n es q t s.1 h

    -- In a sorted list, what is taken from the front is not newer than what stays behind.
    pub take-drop-IsSorted :
        (n : ℕ) (es : List (K × ℕ)) (q : K) (t : ℕ)
        → IsSorted es
        → lookup dec q (drop n es) ≡ some t
        → All (λ e. e.1 ≤ t) (take n es)
    take-drop-IsSorted zero es q t s h = tt
    take-drop-IsSorted (suc n) [] q t s h = tt
    take-drop-IsSorted (suc n) (e ∷ es) q t s h =
        (Since-lookup e.1 n es q t s.0 h, take-drop-IsSorted n es q t s.1 h)

    -- A key that is not among the first `n` is found behind them.
    pub lookup-drop :
        (n : ℕ) (es : List (K × ℕ)) (q : K)
        → All (λ k. q ≢ k) (keys (take n es))
        → lookup dec q (drop n es) ≡ lookup dec q es
    unfolding lookup
    lookup-drop zero es q h = refl
    lookup-drop (suc n) [] q h = refl
    lookup-drop (suc n) (e ∷ es) q h = ground (arith, lookup-drop n es q h.1, h.0)

    lookup-take-none :
        (n : ℕ) (es : List (K × ℕ)) (q : K)
        → lookup dec q es ≡ none
        → lookup dec q (take n es) ≡ none
    unfolding lookup
    lookup-take-none zero es q h = refl
    lookup-take-none (suc n) [] q h = refl
    lookup-take-none (suc n) (e ∷ es) q h = ground (arith, lookup-take-none n es q)

    pub take-Distinct : (n : ℕ) (es : List (K × ℕ)) → Distinct dec es → Distinct dec (take n es)
    take-Distinct zero es d = tt
    take-Distinct (suc n) [] d = d
    take-Distinct (suc n) (e ∷ es) d = (lookup-take-none n es e.0 d.0, take-Distinct n es d.1)

    pub lookup-take-some :
        (n : ℕ) (es : List (K × ℕ)) (q : K) (t : ℕ)
        → lookup dec q (take n es) ≡ some t
        → lookup dec q es ≡ some t
    unfolding lookup
    lookup-take-some zero es q t h = cc
    lookup-take-some (suc n) [] q t h = cc
    lookup-take-some (suc n) (e ∷ es) q t h = ground (arith, lookup-take-some n es q t)
