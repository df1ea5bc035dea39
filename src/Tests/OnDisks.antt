-- ===== src/Tests/OnDisks.antt =====
-- The disk scheduler through a measurement, a change of weight and a failure.
use omega_fusion_core_proxmo.Prelude.{ℕ, List, true, [], ◌∷◌}
use omega_fusion_core_proxmo.Prelude.Int.{pos}
use omega_fusion_core_proxmo.Disk.{new_disk_scheduler}
use omega_fusion_core_proxmo.Disk.Shares.{
  DiskEvent, measured, weighted, failed, AllSane, after, after-AllSane,
}

abbrev busy_day : List (ℕ × DiskEvent)
busy_day =
    (10, measured 7 (pos 9000000) (pos 0))
    ∷ (20, weighted 7 20000 true)
    ∷ (30, failed 8 1)
    ∷ (40, measured 7 (pos 100) (pos 0))
    ∷ []

after-AllSane_example : AllSane (after new_disk_scheduler busy_day)
after-AllSane_example = after-AllSane busy_day
