-- ===== src/Prefetch.antt =====
-- node-a-agent/src/prefetch.rs: the history of page faults, the cache of the pages fetched ahead, and
-- the engine that finds a stride. Page ids are the numbers of a `u64`; what the code computes in `i64`
-- wraps around, as in a release build. The bytes of a page are a parameter type.
pub mod Stride
pub mod Cache
use omega_fusion_core_proxmo.Prelude.{
  ℕ, zero, suc, ◌+◌, ◌≡◌, Bool, true, false, not, ◌&&◌, Option, none, some, List, [], ◌∷◌, ◌++◌,
  lookup, leb, ltb, ◌==◌, if◌then◌else◌, length, drop, select, ℕ_discrete,
}
use mathlib.Core.Option
use omega_fusion_core_proxmo.Prelude.Int.{
  ℤ, pos, negsuc, pos_part, neg_part, ◌+ℤ◌, ◌-ℤ◌, ◌*ℤ◌, wrap_i64,
}
use omega_fusion_core_proxmo.Prelude.Assoc
use omega_fusion_core_proxmo.Prelude.Assoc.{contains_key}

pub record AccessHistory : Type 0 where
  pub window : List ℕ
  pub capacity : ℕ

unfoldable pub new_history : ℕ → AccessHistory
new_history n = record { window = []; capacity = n }

unfoldable pub push : ℕ → AccessHistory → AccessHistory
push page h =
    let kept = if leb h.capacity (length h.window) then drop 1 h.window else h.window in
    record h { window = kept ++ page ∷ [] }

abbrev pub ==_ℤ : ℤ → ℤ → Bool
==_ℤ a b = pos_part a + neg_part b == pos_part b + neg_part a

-- `y as i64 - x as i64`.
unfoldable pub step_between : ℕ → ℕ → ℤ
step_between x y = wrap_i64 (wrap_i64 (pos y) -ℤ wrap_i64 (pos x))

-- `windows(2).all(|w| (w[1] as i64 - w[0] as i64) == stride)`.
unfoldable pub all_equal : ℤ → List ℕ → Bool
unfolding step_between
all_equal stride [] = true
all_equal stride (x ∷ []) = true
all_equal stride (x ∷ y ∷ ys) = ==_ℤ (step_between x y) stride && all_equal stride (y ∷ ys)

-- The window from its first page on.
unfoldable pub stride_of : List ℕ → Option ℤ
unfolding all_equal step_between
stride_of (x ∷ y ∷ ys) =
    let stride = step_between x y in
    if all_equal stride (x ∷ y ∷ ys) && not (==_ℤ stride (pos 0)) then some stride else none
stride_of _ = none

unfoldable pub detect_stride : AccessHistory → Option ℤ
unfolding stride_of
detect_stride h = if ltb (length h.window) 3 then none else stride_of h.window

-- `page_id as i64 + stride * k as i64`.
unfoldable pub page_ahead : ℕ → ℤ → ℕ → ℤ
page_ahead page stride k = wrap_i64 (wrap_i64 (pos page) +ℤ wrap_i64 (stride *ℤ wrap_i64 (pos k)))

pub record PrefetchCache (D : Type 0) : Type 0 where
  pub cache : List (ℕ × D)
  pub insertion : List ℕ
  pub max_cached : ℕ

pub record PrefetchEngine (D : Type 0) : Type 0 where
  pub history : AccessHistory
  pub ahead : PrefetchCache D
  pub lookahead : ℕ
  pub min_history : ℕ
  pub num_pages : ℕ

module _ {D : Type 0} where
  unfoldable pub new_cache : ℕ → PrefetchCache D
  new_cache n = record { cache = []; insertion = []; max_cached = n }

  -- `if let Some(old_id) = ins.pop_front()`.
  unfoldable pub pop_oldest : PrefetchCache D → List ℕ → PrefetchCache D
  pop_oldest c [] = c
  pop_oldest c (old ∷ ids) = record c {
    cache = Assoc.remove ℕ_discrete old c.cache;
    insertion = ids;
  }

  -- The loop that makes room, in rounds; `none` when they run out.
  unfoldable pub make_room : ℕ → PrefetchCache D → Option (PrefetchCache D)
  unfolding pop_oldest
  make_room zero c = none
  make_room (suc rounds) c =
      let rest = make_room rounds (pop_oldest c c.insertion) in
      if leb c.max_cached (length c.insertion) then rest else some c

  unfoldable pub insert_page : ℕ → ℕ → D → PrefetchCache D → Option (PrefetchCache D)
  unfolding make_room
  insert_page rounds page bytes c =
      Option.map {A = PrefetchCache D}
        (λ r. record r {
          cache = Assoc.insert ℕ_discrete page bytes r.cache;
          insertion = r.insertion ++ page ∷ [];
        })
        (make_room rounds c)

  unfoldable pub take_page : ℕ → PrefetchCache D → PrefetchCache D × Option D
  take_page page c = elim (lookup ℕ_discrete page c.cache) [
    | none ↦ (c, none)
    | some bytes ↦ (
      record c {
        cache = Assoc.remove ℕ_discrete page c.cache;
        insertion = select (λ id. not (id == page)) c.insertion;
      },
      some bytes,
    )
  ]

  unfoldable pub new_engine : ℕ → ℕ → ℕ → PrefetchEngine D
  unfolding new_history new_cache
  new_engine num_pages lookahead max_cached = record {
    history = new_history 8;
    ahead = new_cache max_cached;
    lookahead = lookahead;
    min_history = 3;
    num_pages = num_pages;
  }

  -- One candidate, where it is a page of the region that is not in the cache.
  unfoldable pub candidate : ℤ → PrefetchEngine D → List ℕ
  candidate (negsuc n) e = []
  candidate (pos n) e =
      if ltb n e.num_pages && not (contains_key ℕ_discrete n e.ahead.cache) then n ∷ [] else []

  -- For `k` in a range that starts at `k` and has the given length.
  unfoldable pub candidates : ℕ → ℕ → ℕ → ℤ → PrefetchEngine D → List ℕ
  unfolding candidate page_ahead
  candidates zero k page stride e = []
  candidates (suc n) k page stride e =
      candidate (page_ahead page stride k) e ++ candidates n (suc k) page stride e

  unfoldable pub with_stride : ℕ → Option ℤ → PrefetchEngine D → List ℕ
  unfolding candidates
  with_stride page none e = []
  with_stride page (some stride) e = candidates e.lookahead 1 page stride e

  unfoldable pub record_access : ℕ → PrefetchEngine D → PrefetchEngine D × List ℕ
  unfolding push detect_stride with_stride
  record_access page e =
      let h = push page e.history in
      (
        record e { history = h },
        if ltb (length h.window) e.min_history then [] else with_stride page (detect_stride h) e,
      )
