-- ===== src/Tests/OfClock.antt =====
-- The ring with three pages.
use omega_fusion_core_proxmo.Prelude.{◌+◌, ◌≡◌, ◌≤◌, refl, false, [], ◌∷◌, length, ◌==◌, ◌||◌}
use omega_fusion_core_proxmo.Clock.{ClockEvictor, default_meta, new_evictor, select_victims}
use omega_fusion_core_proxmo.Clock.Count.{count}
use omega_fusion_core_proxmo.Clock.Selection.{select_victims_conserves}
use omega_fusion_core_proxmo.Clock.Presence.{IsSynced, presents, mark, mark-IsSynced}

-- Page 1 is cold, the pages 2 and 3 were used of late.
abbrev three_pages : ClockEvictor
three_pages = record {
  meta =
      (1, record (default_meta 0) { access_bit = false })
      ∷ (2, default_meta 50)
      ∷ (3, default_meta 60)
      ∷ [];
  ring = record { deque = 1 ∷ 2 ∷ 3 ∷ []; present = λ x. x == 1 || x == 2 || x == 3 };
  min_age = 30;
}

select_victims_conserves_example :
    (length (select_victims 100 2 three_pages).1 ≤ 2)
    × (count 1 (select_victims 100 2 three_pages).0.ring.deque
          + count 1 (select_victims 100 2 three_pages).1
        ≡ 1)
select_victims_conserves_example = select_victims_conserves 100 2 three_pages 1

mark-IsSynced_example : IsSynced (mark 100 (presents 4) (new_evictor 30))
mark-IsSynced_example = mark-IsSynced 100 (presents 4) (new_evictor 30) (λ x. refl)
