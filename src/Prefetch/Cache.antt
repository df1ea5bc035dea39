-- ===== src/Prefetch/Cache.antt =====
-- `PrefetchCache`: its bound, its queue, and the loop that makes room.
use omega_fusion_core_proxmo.Prelude.{
  ℕ, zero, suc, ◌≤◌, ◌<◌, ◌≡◌, ◌⊎◌, refl, ap, Bool, Option-cases, true, false, not, ◌||◌, none,
  some, List, [], ◌∷◌, ◌++◌, arith, leb, ◌==◌, if◌then◌else◌, length, length-append, lookup,
  ℕ_discrete, Bool-cases, inl, inr, select,
}
use mathlib.Core.Path.{subst}
use omega_fusion_core_proxmo.Prelude.Assoc
use omega_fusion_core_proxmo.Prelude.Assoc.{
  contains_key, Distinct, lookup-remove, lookup-insert, lookup-insert_self, insert-Distinct,
  remove-Distinct, length-remove_if,
}
use omega_fusion_core_proxmo.Prefetch.{PrefetchCache, pop_oldest, make_room, insert_page, take_page}

abbrev pub queued : ℕ → List ℕ → Bool
queued k [] = false
queued k (x ∷ xs) = (x == k) || queued k xs

queued-append : (k x : ℕ) (q : List ℕ) → queued k (q ++ x ∷ []) ≡ (queued k q || (x == k))
queued-append k x [] = ground arith
queued-append k x (y ∷ q) = ground (arith, queued-append k x q)

List-cases : (q : List ℕ) → (q ≡ []) ⊎ ((x : ℕ) × (r : List ℕ) × (q ≡ x ∷ r))
List-cases [] = inl refl
List-cases (x ∷ q) = inr (x, q, refl)

queued-select :
    (k page : ℕ) (q : List ℕ)
    → queued k (select (λ id. not (id == page)) q) ≡ (if page == k then false else queued k q)
queued-select k page [] = ground arith
queued-select k page (x ∷ q) = ground (arith, queued-select k page q)

module _ {D : Type 0} where
  abbrev pub IsCovered : List ℕ → List (ℕ × D) → Type 0
  IsCovered q m = (k : ℕ) → contains_key ℕ_discrete k m ≡ true → queued k q ≡ true

  -- One entry for a page, and every page of the cache in the queue.
  pub record IsFiled (c : PrefetchCache D) : Type 0 where
    pub distinct : Distinct ℕ_discrete c.cache
    pub covered : IsCovered c.insertion c.cache

  remove-IsCovered :
      (x : ℕ) (q : List ℕ) (m : List (ℕ × D))
      → IsCovered (x ∷ q) m
      → IsCovered q (Assoc.remove ℕ_discrete x m)
  unfolding contains_key
  remove-IsCovered x q m h k e = ground (arith, h k, lookup-remove ℕ_discrete x k m)

  covered-le :
      (q : List ℕ) (m : List (ℕ × D)) → Distinct ℕ_discrete m → IsCovered q m → length m ≤ length q
  unfolding contains_key lookup ℕ_discrete
  covered-le [] [] d h = omega arith
  covered-le [] ((k, v) ∷ m) d h = ground (arith, h k)
  covered-le (x ∷ q) m d h = ground (
    arith,
    covered-le q (Assoc.remove ℕ_discrete x m) (remove-Distinct ℕ_discrete x m d)
        (remove-IsCovered x q m h),
    length-remove_if ℕ_discrete x m d,
  )

  pop_oldest-IsFiled :
      (x : ℕ) (q : List ℕ) (c : PrefetchCache D)
      → Distinct ℕ_discrete c.cache
      → IsCovered (x ∷ q) c.cache
      → IsFiled (pop_oldest c (x ∷ q))
  unfolding pop_oldest
  pop_oldest-IsFiled x q c d h = record {
    distinct = remove-Distinct ℕ_discrete x c.cache d;
    covered = remove-IsCovered x q c.cache h;
  }

  -- With more rounds than pages in the queue and a positive bound, there is room in the end.
  make_room-IsFiled :
      (rounds : ℕ) (c : PrefetchCache D)
      → length c.insertion < rounds
      → 0 < c.max_cached
      → IsFiled c
      → (d : PrefetchCache D) × (make_room rounds c ≡ some d)
        × IsFiled d
        × (length d.insertion < c.max_cached)
        × (d.max_cached ≡ c.max_cached)
  unfolding make_room pop_oldest
  make_room-IsFiled zero c enough bound f = absurd (omega (arith, enough))
  make_room-IsFiled (suc rounds) c enough bound f =
      elim (Bool-cases (leb c.max_cached (length c.insertion))) [
        | inr roomy ↦ rw roomy (c, refl, f, ground arith, refl)
        | inl full ↦ rw full (elim (List-cases c.insertion) [
          | inl empty ↦ absurd (ground (arith, full, bound, empty))
          | inr (x, q, e) ↦ rw e (
              make_room-IsFiled rounds (pop_oldest c (x ∷ q)) (omega (arith, enough, ap length e))
                bound
                (pop_oldest-IsFiled x q c f.distinct
                  (subst (λ t. IsCovered t c.cache) e f.covered)))
        ])
      ]

  insert-IsFiled :
      (page : ℕ) (bytes : D) (c : PrefetchCache D)
      → IsFiled c
      → IsFiled record c {
        cache = Assoc.insert ℕ_discrete page bytes c.cache;
        insertion = c.insertion ++ page ∷ [];
      }
  unfolding contains_key
  insert-IsFiled page bytes c f = record {
    distinct = insert-Distinct ℕ_discrete page bytes c.cache f.distinct;
    covered = λ k h. ground (
      arith,
      queued-append k page c.insertion,
      lookup-insert ℕ_discrete page k bytes c.cache,
      f.covered k,
    );
  }

  -- With a positive bound, in a cache with one entry per page whose pages all stand in its queue,
  -- an insertion ends within one round more than the queue has entries; the cache then has the new
  -- page with its bytes, at most as many pages as its bound, one entry per page, and all its pages
  -- in its queue.
  pub insert_page-IsFiled :
      (rounds page : ℕ) (bytes : D) (c : PrefetchCache D)
      → length c.insertion < rounds
      → 0 < c.max_cached
      → IsFiled c
      → (d : PrefetchCache D) × (insert_page rounds page bytes c ≡ some d)
        × IsFiled d
        × (lookup ℕ_discrete page d.cache ≡ some bytes)
        × (length d.cache ≤ c.max_cached)
  unfolding insert_page
  insert_page-IsFiled rounds page bytes c enough bound f =
      let (r, found, filed, roomy, same) = make_room-IsFiled rounds c enough bound f in
      let d : PrefetchCache D = record r {
        cache = Assoc.insert ℕ_discrete page bytes r.cache;
        insertion = r.insertion ++ page ∷ [];
      } in
      let kept = insert-IsFiled page bytes r filed in
      (
        d,
        rw found refl,
        kept,
        lookup-insert_self ℕ_discrete page bytes r.cache,
        omega (
          arith,
          covered-le d.insertion d.cache kept.distinct kept.covered,
          length-append r.insertion (page ∷ []),
          roomy,
        ),
      )

  pop_oldest-max : (c : PrefetchCache D) (q : List ℕ) → (pop_oldest c q).max_cached ≡ c.max_cached
  unfolding pop_oldest
  pop_oldest-max c [] = refl
  pop_oldest-max c (x ∷ q) = refl

  -- With a bound of 0 an insertion does not end within any number of rounds.
  pub insert_page-stuck :
      (rounds page : ℕ) (bytes : D) (c : PrefetchCache D)
      → c.max_cached ≡ 0
      → insert_page rounds page bytes c ≡ none
  unfolding insert_page make_room
  insert_page-stuck rounds page bytes c e = rw (stuck rounds c e) refl
    where
      stuck : (n : ℕ) (d : PrefetchCache D) → d.max_cached ≡ 0 → make_room n d ≡ none
      stuck zero d e = refl
      stuck (suc n) d e =
          ground (arith, stuck n (pop_oldest d d.insertion), pop_oldest-max d d.insertion)

  -- A page is taken once.
  pub take_page-IsFiled :
      (page : ℕ) (c : PrefetchCache D) → IsFiled c → IsFiled (take_page page c).0
  unfolding take_page contains_key
  take_page-IsFiled page c f = elim (Option-cases (lookup ℕ_discrete page c.cache)) [
    | inl absent ↦ rw (absent, take_page) f
    | inr (bytes, there) ↦
        rw (there, take_page)
          record {
            distinct = remove-Distinct ℕ_discrete page c.cache f.distinct;
            covered = λ k h. ground (
              arith,
              queued-select k page c.insertion,
              lookup-remove ℕ_discrete page k c.cache,
              f.covered k,
            );
          }
  ]
