-- ===== src/Prefetch/Stride.antt =====
-- `detect_stride` beside arithmetic progressions, and the pages that `record_access` asks for.
use omega_fusion_core_proxmo.Prelude.{
  ℕ, zero, suc, ◌+◌, ◌≤◌, ◌<◌, ◌*◌, ◌^◌, ◌≡◌, ◌≢◌, ◌↔◌, refl, sym, ◌∙◌, ap, Bool, true, false, not,
  ◌&&◌, none, some, List, [], ◌∷◌, arith, ltb, if◌then◌else◌, length, All, All-append, ℕ_discrete,
  Bool-cases, inl, inr,
}
use mathlib.Core.Path.{subst}
use omega_fusion_core_proxmo.Prelude.Int.{
  ℤ, pos, negsuc, pos_part, neg_part, ◌+ℤ◌, ◌-ℤ◌, ◌*ℤ◌, int_laws, eq_of_parts, wrap_i64_small,
  *ℤ-pos,
}
use omega_fusion_core_proxmo.Prelude.Assoc.{contains_key}
use omega_fusion_core_proxmo.Prefetch.{
  AccessHistory, ==_ℤ, step_between, page_ahead, all_equal, stride_of, detect_stride,
  PrefetchEngine, candidate, candidates, with_stride, record_access, push,
}

-- The pages `a`, `a + r`, `a + 2 r`, and so on.
abbrev pub IsProgression : ℤ → ℤ → List ℕ → Type 0
IsProgression a r [] = Unit {0}
IsProgression a r (x ∷ xs) = (pos x ≡ a) × IsProgression (a +ℤ r) r xs

-- Ids that are the same number as an `i64`.
abbrev pub AllIds : List ℕ → Type 0
AllIds = All (λ x. x < 2 ^ 63)

==_ℤ_iff : (a b : ℤ) → (==_ℤ a b ≡ true) ↔ (a ≡ b)
==_ℤ_iff a b = (λ h. eq_of_parts a b (ground arith), λ e. rw e (ground arith))

&&-parts : (a b : Bool) → (a && b) ≡ true → (a ≡ true) × (b ≡ true)
&&-parts a b h = ground arith

diff_small :
    (x y : ℕ)
    → x < 2 ^ 63
    → y < 2 ^ 63
    → (pos_part (pos y -ℤ pos x) < 2 ^ 63) × (neg_part (pos y -ℤ pos x) ≤ 2 ^ 63)
unfolding ◌-ℤ◌
diff_small x y h k = ground arith

-- Below 2^63 a difference of two ids does not wrap.
step_between_small : (x y : ℕ) → x < 2 ^ 63 → y < 2 ^ 63 → step_between x y ≡ pos y -ℤ pos x
unfolding step_between
step_between_small x y h k =
    rw (wrap_i64_small (pos x) h (omega arith), wrap_i64_small (pos y) k (omega arith))
      (wrap_i64_small (pos y -ℤ pos x) (diff_small x y h k).0 (diff_small x y h k).1)

-- The next page of a progression, by its distance.
next_page : (x y : ℕ) (r : ℤ) → (pos y -ℤ pos x ≡ r) ↔ (pos y ≡ pos x +ℤ r)
next_page x y r = (
  λ h. eq_of_parts (pos y) (pos x +ℤ r) (omega (int_laws, ap pos_part h, ap neg_part h)),
  λ h. eq_of_parts (pos y -ℤ pos x) r (omega (int_laws, ap pos_part h, ap neg_part h)),
)

all_equal-IsProgression :
    (r : ℤ) (x : ℕ) (xs : List ℕ)
    → AllIds (x ∷ xs)
    → all_equal r (x ∷ xs) ≡ true
    → IsProgression (pos x) r (x ∷ xs)
unfolding all_equal
all_equal-IsProgression r x [] s h = (refl, tt)
all_equal-IsProgression r x (y ∷ ys) s h =
    let (first, others) = &&-parts (==_ℤ (step_between x y) r) (all_equal r (y ∷ ys)) h in
    let next : pos y ≡ pos x +ℤ r =
      (next_page x y r).0
        (sym (step_between_small x y s.0 s.1.0) ∙ (==_ℤ_iff (step_between x y) r).0 first) in
    (refl, rw (← next) (all_equal-IsProgression r y ys s.1 others))

IsProgression-all_equal :
    (r : ℤ) (x : ℕ) (xs : List ℕ)
    → AllIds (x ∷ xs)
    → IsProgression (pos x) r (x ∷ xs)
    → all_equal r (x ∷ xs) ≡ true
unfolding all_equal
IsProgression-all_equal r x [] s h = refl
IsProgression-all_equal r x (y ∷ ys) s (_, (next, others)) =
    let first : ==_ℤ (step_between x y) r ≡ true =
      (==_ℤ_iff (step_between x y) r).1
        (step_between_small x y s.0 s.1.0 ∙ (next_page x y r).1 next) in
    rw first (IsProgression-all_equal r y ys s.1 (refl, rw next others))

abbrev pub ProgressesBy : ℤ → List ℕ → Type 0
ProgressesBy r [] = Unit {0}
ProgressesBy r (x ∷ xs) = IsProgression (pos x) r (x ∷ xs)

guarded_iff :
    (b : Bool) (d r : ℤ) → ((if b then some d else none) ≡ some r) ↔ ((b ≡ true) × (d ≡ r))
guarded_iff b d r = (λ h. ground arith, λ h. ground (arith, h.0, h.1))

-- The window of two pages or more, by its first two.
stride_of_iff :
    (x y : ℕ) (ys : List ℕ) (r : ℤ)
    → AllIds (x ∷ y ∷ ys)
    → (stride_of (x ∷ y ∷ ys) ≡ some r) ↔ ((r ≢ pos 0) × ProgressesBy r (x ∷ y ∷ ys))
unfolding stride_of
stride_of_iff x y ys r s =
    let d = step_between x y in
    let exact : d ≡ pos y -ℤ pos x = step_between_small x y s.0 s.1.0 in
    let equal = all_equal d (x ∷ y ∷ ys) in
    let moving = not (==_ℤ d (pos 0)) in
    (
      λ h.
          let (both, same) = (guarded_iff (equal && moving) d r).0 h in
          let (steps, moves) = &&-parts equal moving both in
          (
            λ zero_step. ground (arith, moves, (==_ℤ_iff d (pos 0)).1 (same ∙ zero_step)),
            all_equal-IsProgression r x (y ∷ ys) s
                (subst (λ t. all_equal t (x ∷ y ∷ ys) ≡ true) same steps),
          ),
      λ (moves, steps).
          let same : d ≡ r = exact ∙ (next_page x y r).1 steps.1.0 in
          let even = IsProgression-all_equal r x (y ∷ ys) s steps in
          let turns : ==_ℤ d (pos 0) ≡ false = elim (Bool-cases (==_ℤ d (pos 0))) [
            | inl still ↦ absurd (moves (sym same ∙ (==_ℤ_iff d (pos 0)).0 still))
            | inr e ↦ e
          ] in
          (guarded_iff (equal && moving) d r).1
            (rw (subst (λ t. all_equal t (x ∷ y ∷ ys) ≡ true) (sym same) even, turns) refl, same),
    )

-- Where the page ids of the window are below 2^63, a stride is detected in a history exactly when
-- the window has three pages or more, the stride is not 0, and the pages are the arithmetic
-- progression that starts at the first page and has that difference.
pub detect_stride_iff :
    (h : AccessHistory) (r : ℤ)
    → AllIds h.window
    → (detect_stride h ≡ some r) ↔ ((3 ≤ length h.window) × (r ≢ pos 0) × ProgressesBy r h.window)
unfolding detect_stride
detect_stride_iff h r s = by_window h.window s
  where
    by_window :
        (w : List ℕ)
        → AllIds w
        → ((if ltb (length w) 3 then none else stride_of w) ≡ some r)
          ↔ ((3 ≤ length w) × (r ≢ pos 0) × ProgressesBy r w)
    by_window [] s = (λ e. ground arith, λ e. ground arith)
    by_window (x ∷ []) s = (λ e. ground arith, λ e. ground arith)
    by_window (x ∷ y ∷ []) s = (λ e. ground arith, λ e. ground arith)
    by_window (x ∷ y ∷ z ∷ zs) s =
        let w = x ∷ y ∷ z ∷ zs in
        let long : (if ltb (length w) 3 then none else stride_of w) ≡ stride_of w = ground arith in
        (
          λ e.
              let (moves, steps) = (stride_of_iff x y (z ∷ zs) r s).0 (sym long ∙ e) in
              (omega arith, moves, steps),
          λ (_, moves, steps). long ∙ (stride_of_iff x y (z ∷ zs) r s).1 (moves, steps),
        )

sum_small :
    (x : ℕ) (z : ℤ)
    → x < 2 ^ 62
    → pos_part z < 2 ^ 62
    → neg_part z < 2 ^ 62
    → (pos_part (pos x +ℤ z) < 2 ^ 63) × (neg_part (pos x +ℤ z) ≤ 2 ^ 63)
unfolding ◌+ℤ◌
sum_small x (pos n) h k l = ground arith
sum_small x (negsuc n) h k l = ground arith

mul_le_mul : (a k n : ℕ) → k ≤ n → a * k ≤ a * n
mul_le_mul zero k n h = omega arith
mul_le_mul (suc a) k n h = omega (arith, mul_le_mul a k n h)

-- Where the page and the last of the products fit in 62 bits, no page ahead wraps.
page_ahead_small :
    (page : ℕ) (r : ℤ) (n k : ℕ)
    → page < 2 ^ 62
    → n < 2 ^ 62
    → pos_part r * n < 2 ^ 62
    → neg_part r * n < 2 ^ 62
    → k ≤ n
    → page_ahead page r k ≡ pos page +ℤ r *ℤ pos k
unfolding page_ahead
page_ahead_small page r n k p m h j low =
    let up : pos_part r * k ≤ pos_part r * n = mul_le_mul (pos_part r) k n low in
    let down : neg_part r * k ≤ neg_part r * n = mul_le_mul (neg_part r) k n low in
    let (above, below) = *ℤ-pos r k in
    let fits =
      sum_small page (r *ℤ pos k) p (omega (arith, above, up, h)) (omega (arith, below, down, j)) in
    rw
      (
        wrap_i64_small (pos page) (omega arith) (omega arith),
        wrap_i64_small (pos k) (omega arith) (omega arith),
        wrap_i64_small (r *ℤ pos k) (omega (arith, above, below)) (omega (arith, above, below)),
      )
      (wrap_i64_small (pos page +ℤ r *ℤ pos k) fits.0 fits.1)

module _ {D : Type 0} where
  -- A page of the region that is not there yet and continues the stride by at most `n` steps.
  abbrev pub IsAhead : PrefetchEngine D → ℕ → ℤ → ℕ → ℕ → Type 0
  IsAhead e page r n q =
      (q < e.num_pages)
      × (contains_key ℕ_discrete q e.ahead.cache ≡ false)
      × ((k : ℕ) × (1 ≤ k) × (k ≤ n) × (pos q ≡ pos page +ℤ r *ℤ pos k))

  candidate-IsAhead :
      (e : PrefetchEngine D) (page : ℕ) (r : ℤ) (n k : ℕ) (c : ℤ)
      → 1 ≤ k
      → k ≤ n
      → c ≡ pos page +ℤ r *ℤ pos k
      → All (IsAhead e page r n) (candidate c e)
  unfolding candidate
  candidate-IsAhead e page r n k (negsuc m) low high c = tt
  candidate-IsAhead e page r n k (pos m) low high c =
      elim (Bool-cases (ltb m e.num_pages && not (contains_key ℕ_discrete m e.ahead.cache))) [
        | inl kept ↦ rw kept ((ground arith, ground arith, (k, low, high, c)), tt)
        | inr left ↦ rw left tt
      ]

  candidates-IsAhead :
      (e : PrefetchEngine D) (page : ℕ) (r : ℤ) (n m k : ℕ)
      → 1 ≤ k
      → m + k ≤ n + 1
      → page < 2 ^ 62
      → n < 2 ^ 62
      → pos_part r * n < 2 ^ 62
      → neg_part r * n < 2 ^ 62
      → All (IsAhead e page r n) (candidates m k page r e)
  unfolding candidates
  candidates-IsAhead e page r n zero k low high p l u d = tt
  candidates-IsAhead e page r n (suc m) k low high p l u d =
      All-append (IsAhead e page r n) (candidate (page_ahead page r k) e)
        (candidates m (suc k) page r e)
        (candidate-IsAhead e page r n k _ low (omega arith)
          (page_ahead_small page r n k p l u d (omega arith)))
        (candidates-IsAhead e page r n m (suc k) (omega arith) (omega arith) p l u d)

  -- When the accessed page, `lookahead` and the product of `lookahead` with the absolute value of
  -- the stride are below 2^62 and the history with the new access has this stride, every page that
  -- `record_access` asks for lies in the region, is not in the cache, and is the accessed page plus
  -- one to `lookahead` times the stride.
  pub record_access-IsAhead :
      (page : ℕ) (e : PrefetchEngine D) (r : ℤ)
      → page < 2 ^ 62
      → e.lookahead < 2 ^ 62
      → pos_part r * e.lookahead < 2 ^ 62
      → neg_part r * e.lookahead < 2 ^ 62
      → detect_stride (push page e.history) ≡ some r
      → All (IsAhead e page r e.lookahead) (record_access page e).1
  unfolding record_access with_stride
  record_access-IsAhead page e r p l u d found =
      let ahead =
        candidates-IsAhead e page r e.lookahead e.lookahead 1 (omega arith) (omega arith) p l u d in
      elim (Bool-cases (ltb (length (push page e.history).window) e.min_history)) [
        | inl few ↦ rw few tt
        | inr enough ↦ rw (enough, found) ahead
      ]
