-- ===== src/Clock/Presence.antt =====
-- The set `present` beside the ring (node-a-agent/src/clock_eviction.rs).
use mathlib.Core.List.{append_assoc, append-nil}
use omega_fusion_core_proxmo.Prelude.{
  ℕ, ◌+◌, ◌≡◌, ◌<◌, refl, sym, ap, true, false, ◌||◌, List, [], ◌∷◌, ◌++◌, arith, ◌==◌, ltb,
  if◌then◌else◌, length, Bool-cases, inl, inr,
}
use omega_fusion_core_proxmo.Clock.Count.{count, count-append, count-select_ne}
use omega_fusion_core_proxmo.Clock.Selection.{pop_front_cons}
use omega_fusion_core_proxmo.Clock.{
  Ring, ClockEvictor, Sweep, is_evictable, sweep_page, sweep, select_victims, mark_present,
  mark_accessed, mark_remote, push_back,
}

-- The set holds exactly the pages of the ring, and each stands there once.
abbrev pub IsSynced : ClockEvictor → Type 0
IsSynced c = (x : ℕ) → count x c.ring.deque ≡ (if c.ring.present x then 1 else 0)

pub data Event : Type 0 where
  presents : ℕ → Event
  accesses : ℕ → Event
  remotes : ℕ → Event

pub mark : ℕ → Event → ClockEvictor → ClockEvictor
unfolding mark_present mark_accessed mark_remote
mark now (presents page) c = mark_present now page c
mark now (accesses page) c = mark_accessed now page c
mark now (remotes page) c = mark_remote page c

-- `mark_present`, `mark_accessed` and `mark_remote` keep the set of the ring equal to the pages of
-- its queue, each of which stands there once.
pub mark-IsSynced : (now : ℕ) (e : Event) (c : ClockEvictor) → IsSynced c → IsSynced (mark now e c)
unfolding mark
mark-IsSynced now (presents page) c s x =
    ground (arith, s x, s page, count-append x c.ring.deque (page ∷ []))
mark-IsSynced now (accesses page) c s x = s x
mark-IsSynced now (remotes page) c s x = ground (arith, s x, count-select_ne x page c.ring.deque)

module _ (now min_age wanted : ℕ) where
  -- Of the pages that the hand has passed, none is in the set.
  sweep_forgets :
      (ahead behind : List ℕ) (w : Sweep) (x : ℕ)
      → w.ring.deque ≡ ahead ++ behind
      → (0 < count x behind → w.ring.present x ≡ false)
      → let w' = sweep (length ahead) now min_age wanted w in
        length w'.victims < wanted → 0 < count x w'.ring.deque → w'.ring.present x ≡ false
  unfolding sweep
  sweep_forgets [] behind w x e passed =
      λ short there. passed (omega (arith, ap (count x) e, there))
  sweep_forgets (page ∷ ahead) behind w x e passed =
      let popped : Ring = record {
        deque = ahead ++ behind;
        present = λ y. if y == page then false else w.ring.present y;
      } in
      elim (Bool-cases (ltb (length w.victims) wanted)) [
        | inr full ↦ rw full (λ short there. absurd (ground arith))
        | inl room ↦
            rw (room, pop_front_cons w.ring page (ahead ++ behind) e)
              (elim (Bool-cases (is_evictable now min_age w.meta page)) [
                | inl cold ↦
                    sweep_forgets ahead behind (sweep_page now min_age page popped w) x
                      (unfold sweep_page in rw cold refl)
                      (unfold sweep_page in rw cold (λ p. ground (arith, passed p)))
                | inr hot ↦
                    sweep_forgets ahead (behind ++ page ∷ []) (sweep_page now min_age page popped w)
                      x (unfold sweep_page in rw hot (append_assoc ahead behind (page ∷ [])))
                      (unfold sweep_page in
                        rw hot (λ p. ground (arith, passed, count-append x behind (page ∷ []))))
              ])
      ]

empty_count : (x : ℕ) (ys : List ℕ) → length ys ≡ 0 → count x ys ≡ 0
empty_count x [] h = refl
empty_count x (y ∷ ys) h = absurd (omega arith)

empty_or_zero :
    (wanted x : ℕ) (c : ClockEvictor)
    → (length c.ring.deque == 0 || wanted == 0) ≡ true
    → 0 < wanted
    → 0 < count x c.ring.deque
    → c.ring.present x ≡ false
empty_or_zero wanted x c h w there = absurd (ground (arith, empty_count x c.ring.deque))

-- When `select_victims` returns fewer pages than it was asked for, no page that is still in the
-- queue is in the set.
pub select_victims_forgets :
    (now wanted : ℕ) (c : ClockEvictor) (x : ℕ)
    → length (select_victims now wanted c).1 < wanted
    → 0 < count x (select_victims now wanted c).0.ring.deque
    → (select_victims now wanted c).0.ring.present x ≡ false
unfolding select_victims
select_victims_forgets now wanted c x =
    elim (Bool-cases (length c.ring.deque == 0 || wanted == 0)) [
      | inl nothing ↦ rw nothing (λ short there. empty_or_zero wanted x c nothing short there)
      | inr some_wanted ↦ rw some_wanted (
          sweep_forgets now c.min_age wanted c.ring.deque []
            (record { meta = c.meta; ring = c.ring; victims = [] }) x
            (sym (append-nil c.ring.deque)) (λ p. absurd (omega arith)))
    ]

-- A page that is in the queue after a call of `select_victims` that returned fewer pages than it
-- was asked for is queued once more by `mark_present`.
pub mark_present_duplicates :
    (now later wanted : ℕ) (c : ClockEvictor) (x : ℕ)
    → let (d, victims) = select_victims now wanted c in
      length victims < wanted
      → 0 < count x d.ring.deque
      → count x (mark_present later x d).ring.deque ≡ count x d.ring.deque + 1
unfolding mark_present push_back
mark_present_duplicates now later wanted c x short there =
    let lost = select_victims_forgets now wanted c x short there in
    ground (arith, lost, count-append x (select_victims now wanted c).0.ring.deque (x ∷ []))
