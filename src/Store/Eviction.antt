-- ===== src/Store/Eviction.antt =====
-- Lemmas on `evict_lru` (node-bc-store/src/store.rs): the pages taken, the pages kept, the counter.
use mathlib.Core.Option
use omega_fusion_core_proxmo.Prelude.{
  ℕ, suc, ◌+◌, ◌^◌, ◌≤◌, ◌<◌, ◌≡◌, ◌≢◌, refl, ◌∙◌, min, List, [], ◌∷◌, arith, length, length-take,
  All, some, lookup, map, ap,
}
use omega_fusion_core_proxmo.Prelude.Assoc.{Distinct, keys}
use omega_fusion_core_proxmo.Store.Map.{
  Present, length-remove_all, keys-Present, lookup-remove_all-some,
}
use omega_fusion_core_proxmo.Store.Order.{
  sort_by_time, sort_by_time-IsSorted, length-sort_by_time, lookup-sort_by_time,
  sort_by_time-Distinct, take-drop-IsSorted, lookup-drop, take-Distinct, lookup-take-some,
}
use omega_fusion_core_proxmo.Store.{
  PageKey, PageKey-discrete, PageStore, Pages, find, len, lru_victims, evict_lru,
}
use omega_fusion_core_proxmo.Store.Gauge.{IsConsistent}

abbrev times : Pages → List (PageKey × ℕ)
times = map (λ e. (e.0, e.1.1))

lookup-times :
    (q : PageKey) (m : Pages)
    → lookup PageKey-discrete q (times m) ≡ Option.map (λ e. e.1) (find q m)
unfolding lookup
lookup-times q [] = refl
lookup-times q (e ∷ m) = ground (arith, lookup-times q m)

times-Distinct : (m : Pages) → Distinct PageKey-discrete m → Distinct PageKey-discrete (times m)
times-Distinct [] d = d
times-Distinct (e ∷ m) d = (ground (arith, lookup-times e.0 m, d.0), times-Distinct m d.1)

length-times : (m : Pages) → length (times m) ≡ length m
length-times [] = refl
length-times (e ∷ m) = ap suc (length-times m)

length-keys : (es : List (PageKey × ℕ)) → length (keys es) ≡ length es
length-keys [] = refl
length-keys (e ∷ es) = ap suc (length-keys es)

module _ (m : Pages) (d : Distinct PageKey-discrete m) where
  lookup-victims :
      (n : ℕ) (k : PageKey) (t : ℕ)
      → lookup PageKey-discrete k (lru_victims m n) ≡ some t
      → (w : List ℕ × ℕ) × (find k m ≡ some w)
  unfolding lru_victims
  lookup-victims n k t h =
      let found = lookup-take-some PageKey-discrete n (sort_by_time (times m)) k t h in
      let same = lookup-sort_by_time PageKey-discrete k (times m) (times-Distinct m d) in
      ground (arith, found, same, lookup-times k m)

  victims-Present : (n : ℕ) → Present PageKey-discrete (keys (lru_victims m n)) m
  victims-Present n =
      keys-Present PageKey-discrete (lru_victims m n) m
        (unfold lru_victims in
          take-Distinct PageKey-discrete n _
            (sort_by_time-Distinct PageKey-discrete (times m) (times-Distinct m d)))
        (lookup-victims n)

  victims-older :
      (n : ℕ) (q : PageKey) (bytes : List ℕ) (t : ℕ)
      → All (λ k. q ≢ k) (keys (lru_victims m n))
      → find q m ≡ some (bytes, t)
      → All (λ e. e.1 ≤ t) (lru_victims m n)
  unfolding lru_victims
  victims-older n q bytes t others f =
      take-drop-IsSorted PageKey-discrete n (sort_by_time (times m)) q t
        (sort_by_time-IsSorted (times m))
        (lookup-drop PageKey-discrete n (sort_by_time (times m)) q others
          ∙ lookup-sort_by_time PageKey-discrete q (times m) (times-Distinct m d)
          ∙ rw (lookup-times q m, f))

  length-victims : (n : ℕ) → length (lru_victims m n) ≡ min n (length m)
  unfolding lru_victims
  length-victims n =
      omega (
        arith,
        length-take n (sort_by_time (times m)),
        length-sort_by_time (times m),
        length-times m,
      )

both :
    (q : PageKey) (t : ℕ) (es : List (PageKey × ℕ))
    → All (λ k. q ≢ k) (keys es)
    → All (λ e. e.1 ≤ t) es
    → All (λ e. (q ≢ e.0) × (e.1 ≤ t)) es
both q t [] a b = tt
both q t (e ∷ es) a b = ((a.0, b.0), both q t es a.1 b.1)

-- In a consistent store, `evict_lru` takes away the number of pages that it returns, which is the
-- smaller of `count` and the number of pages.
pub length-evict_lru :
    (s : PageStore) (count : ℕ)
    → IsConsistent s
    → ((evict_lru s count).1 ≡ min count (len s))
      × (len (evict_lru s count).0 + (evict_lru s count).1 ≡ len s)
unfolding evict_lru
length-evict_lru s count v =
    let size = length-victims s.pages v.distinct count in
    (
      size,
      omega (
        arith,
        size,
        length-keys (lru_victims s.pages count),
        length-remove_all PageKey-discrete (keys (lru_victims s.pages count)) s.pages v.distinct
            (victims-Present s.pages v.distinct count),
      ),
    )

-- In a consistent store, a page that `evict_lru` keeps was there before with the same bytes and
-- time, is not among the evicted ones, and no evicted page was used later than it.
pub evict_lru_oldest :
    (s : PageStore) (count : ℕ) (q : PageKey) (bytes : List ℕ) (t : ℕ)
    → IsConsistent s
    → find q (evict_lru s count).0.pages ≡ some (bytes, t)
    → (find q s.pages ≡ some (bytes, t))
      × All (λ e. (q ≢ e.0) × (e.1 ≤ t)) (lru_victims s.pages count)
unfolding evict_lru
evict_lru_oldest s count q bytes t v h =
    let (before, others) =
      lookup-remove_all-some PageKey-discrete (keys (lru_victims s.pages count)) q (bytes, t)
        s.pages h in
    (before, both q t _ others (victims-older s.pages v.distinct count q bytes t others before))

-- After `evict_lru` with a positive count on a consistent store with at least one and fewer than
-- 2^64 pages, `pages_stored` is greater than the number of pages.
pub evict_lru_gauge :
    (s : PageStore) (count : ℕ)
    → IsConsistent s
    → 0 < count
    → 0 < len s
    → len s < 2 ^ 64
    → len (evict_lru s count).0 < (evict_lru s count).0.metrics.pages_stored
unfolding evict_lru
evict_lru_gauge s count v some_wanted some_held fits =
    omega (arith, length-evict_lru s count v, v.gauge)
