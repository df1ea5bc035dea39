-- ===== src/Tests/OnPrefetch.antt =====
-- A sequence of faults with a stride of two, and a small cache.
use omega_fusion_core_proxmo.Prelude.{
  ℕ, ◌≡◌, ◌≢◌, ◌≤◌, ◌↔◌, refl, some, [], ◌∷◌, arith, All, length, lookup, ℕ_discrete,
}
use omega_fusion_core_proxmo.Prelude.Assoc
use omega_fusion_core_proxmo.Prelude.Int.{pos, ◌-ℤ◌, wrap_i64}
use omega_fusion_core_proxmo.Prefetch.{
  AccessHistory, PrefetchCache, PrefetchEngine, push, detect_stride, record_access, insert_page,
}
use omega_fusion_core_proxmo.Prefetch.Stride.{
  ProgressesBy, IsAhead, detect_stride_iff, record_access-IsAhead,
}
use omega_fusion_core_proxmo.Prefetch.Cache.{IsFiled, insert_page-IsFiled}

abbrev even_faults : AccessHistory
even_faults = record { window = 4 ∷ 6 ∷ 8 ∷ []; capacity = 8 }

detect_stride_iff_example :
    (detect_stride even_faults ≡ some (pos 2))
    ↔ ((3 ≤ 3) × (pos 2 ≢ pos 0) × ProgressesBy (pos 2) (4 ∷ 6 ∷ 8 ∷ []))
detect_stride_iff_example =
    detect_stride_iff even_faults (pos 2) (omega arith, (omega arith, (omega arith, tt)))

abbrev two_held : PrefetchCache ℕ
two_held = record { cache = (12, 70) ∷ (5, 80) ∷ []; insertion = 12 ∷ 5 ∷ []; max_cached = 2 }

abbrev engine : PrefetchEngine ℕ
engine = record {
  history = even_faults;
  ahead = two_held;
  lookahead = 4;
  min_history = 3;
  num_pages = 16;
}

record_access-IsAhead_example : All (IsAhead engine 10 (pos 2) 4) (record_access 10 engine).1
unfolding detect_stride push ◌-ℤ◌ wrap_i64
record_access-IsAhead_example =
    record_access-IsAhead 10 engine (pos 2) (omega arith) (omega arith) (omega arith) (omega arith)
      refl

two_held-IsFiled : IsFiled two_held
unfolding lookup ℕ_discrete Assoc.contains_key
two_held-IsFiled = record { distinct = (refl, (refl, tt)); covered = λ k h. ground arith }

insert_page-IsFiled_example :
    (d : PrefetchCache ℕ) × (insert_page 3 9 90 two_held ≡ some d)
    × IsFiled d
    × (lookup ℕ_discrete 9 d.cache ≡ some 90)
    × (length d.cache ≤ 2)
insert_page-IsFiled_example =
    insert_page-IsFiled 3 9 90 two_held (omega arith) (omega arith) two_held-IsFiled
