-- ===== src/Clock/Selection.antt =====
-- Which pages `select_victims` takes from the ring.
use omega_fusion_core_proxmo.Prelude.{
  ℕ, zero, suc, ◌+◌, ◌≡◌, ◌≤◌, ◌<◌, refl, ap, true, false, List, [], ◌∷◌, arith, ◌==◌,
  if◌then◌else◌, length, length-append, All, some, Option-cases, inl, inr,
}
use omega_fusion_core_proxmo.Clock.Count.{count, count-append}
use omega_fusion_core_proxmo.Clock.{
  PageMeta, Ring, ClockEvictor, Sweep, pop_front, is_evictable, sweep_page, sweep, select_victims,
}

-- No page stands twice in the list.
abbrev pub NoRepeat : List ℕ → Type 0
NoRepeat [] = Unit {0}
NoRepeat (x ∷ xs) = (count x xs ≡ 0) × NoRepeat xs

pub pop_front_cons :
    (r : Ring) (page : ℕ) (rest : List ℕ)
    → r.deque ≡ page ∷ rest
    → pop_front r
      ≡ some
          (page, record { deque = rest; present = λ x. if x == page then false else r.present x })
unfolding pop_front
pop_front_cons r page rest e = rw (e, pop_front)

pop_front-some :
    (r : Ring) (page : ℕ) (popped : Ring)
    → pop_front r ≡ some (page, popped)
    → r.deque ≡ page ∷ popped.deque
unfolding pop_front
pop_front-some r page popped e = ground arith

module _ (now min_age wanted : ℕ) where
  -- One round keeps every page: it stands in the ring or among the victims.
  sweep_page_conserves :
      (x page : ℕ) (popped : Ring) (w : Sweep)
      → w.ring.deque ≡ page ∷ popped.deque
      → let w' = sweep_page now min_age page popped w in
        count x w'.ring.deque + count x w'.victims ≡ count x w.ring.deque + count x w.victims
  unfolding sweep_page
  sweep_page_conserves x page popped w e = ground (
    arith,
    ap (count x) e,
    count-append x popped.deque (page ∷ []),
    count-append x w.victims (page ∷ []),
  )

  sweep_conserves :
      (left x : ℕ) (w : Sweep)
      → let w' = sweep left now min_age wanted w in
        count x w'.ring.deque + count x w'.victims ≡ count x w.ring.deque + count x w.victims
  unfolding sweep
  sweep_conserves zero x w = refl
  sweep_conserves (suc left) x w = elim (Option-cases (pop_front w.ring)) [
    | inl none' ↦ ground (arith, none')
    | inr ((page, popped), found) ↦
        let later = sweep_conserves left x (sweep_page now min_age page popped w) in
        let here = sweep_page_conserves x page popped w (pop_front-some w.ring page popped found) in
        ground (arith, found, later, here)
  ]

  sweep_bounded :
      (left : ℕ) (w : Sweep)
      → length w.victims ≤ wanted
      → length (sweep left now min_age wanted w).victims ≤ wanted
  unfolding sweep
  sweep_bounded zero w h = h
  sweep_bounded (suc left) w h = elim (Option-cases (pop_front w.ring)) [
    | inl nothing ↦ ground (arith, nothing)
    | inr ((page, popped), found) ↦ ground (
      arith,
      found,
      λ (room : length w.victims < wanted).
          sweep_bounded left (sweep_page now min_age page popped w)
            (sweep_page_grows page popped w room),
    )
  ]
    where
      sweep_page_grows :
          (page : ℕ) (popped : Ring) (w : Sweep)
          → length w.victims < wanted
          → length (sweep_page now min_age page popped w).victims ≤ wanted
      sweep_page_grows page popped w room =
          unfold sweep_page in ground (arith, length-append w.victims (page ∷ []))

  -- The pages that the hand has not reached are judged by the metadata of the start.
  abbrev AsAtStart : List (ℕ × PageMeta) → List (ℕ × PageMeta) → List ℕ → Type 0
  AsAtStart start meta =
      All (λ x. is_evictable now min_age meta x ≡ is_evictable now min_age start x)

  abbrev Evictable : List (ℕ × PageMeta) → List ℕ → Type 0
  Evictable start = All (λ x. is_evictable now min_age start x ≡ true)

-- `select_victims` returns at most as many pages as asked for, and every page stands in the ring
-- and among the victims together as often as it stood in the ring.
pub select_victims_conserves :
    (now wanted : ℕ) (c : ClockEvictor) (x : ℕ)
    → (length (select_victims now wanted c).1 ≤ wanted)
      × (count x (select_victims now wanted c).0.ring.deque
            + count x (select_victims now wanted c).1
          ≡ count x c.ring.deque)
unfolding select_victims
select_victims_conserves now wanted c x =
    let w : Sweep = record { meta = c.meta; ring = c.ring; victims = [] } in
    let left = length c.ring.deque in
    let kept = sweep_conserves now c.min_age wanted left x w in
    let bound = sweep_bounded now c.min_age wanted left w (omega arith) in
    (ground (arith, bound), ground (arith, kept))
