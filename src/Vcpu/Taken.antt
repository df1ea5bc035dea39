-- ===== src/Vcpu/Taken.antt =====
-- How many slots `admit_vm` takes and `try_downscale` leaves (omega-daemon/src/vcpu_scheduler.rs).
use omega_fusion_core_proxmo.Prelude.{
  ℕ, zero, suc, ◌+◌, ◌-◌, ◌≡◌, ◌≤◌, arith, some, List, [], ◌∷◌, length, length-append, Option-cases,
  inl, inr,
}
use omega_fusion_core_proxmo.Vcpu.Grid.{SlotId, Slots, PcpuSlot, alloc_row, alloc_rows}
use omega_fusion_core_proxmo.Vcpu.Rollback.{pop-none}
use omega_fusion_core_proxmo.Vcpu.{pop}

length-alloc_row-le :
    (vm need p i : ℕ) (row : List PcpuSlot) → length (alloc_row vm need p i row).1 ≤ need
unfolding alloc_row
length-alloc_row-le vm need p i [] = omega arith
length-alloc_row-le vm zero p i (s ∷ row) = omega arith
length-alloc_row-le vm (suc need) p i (s ∷ row) = ground (
  arith,
  length-alloc_row-le vm need p (i + 1) row,
  length-alloc_row-le vm (suc need) p (i + 1) row,
)

pub length-alloc_rows-le :
    (vm need p : ℕ) (rows : Slots) → length (alloc_rows vm need p rows).1 ≤ need
unfolding alloc_rows
length-alloc_rows-le vm need p [] = omega arith
length-alloc_rows-le vm need p (row ∷ rows) =
    let ids = (alloc_row vm need p 0 row).1 in
    omega (
      arith,
      length-append ids (alloc_rows vm (need - length ids) (p + 1) rows).1,
      length-alloc_row-le vm need p 0 row,
      length-alloc_rows-le vm (need - length ids) (p + 1) rows,
    )

pub length-pop :
    (xs left : List SlotId) (sid : SlotId) → pop xs ≡ some (sid, left) → length left + 1 ≡ length xs
unfolding pop
length-pop [] left sid e = cc
length-pop (x ∷ xs) left sid e = elim (Option-cases (pop xs)) [
  | inl h ↦ ground (arith, h, pop-none xs h)
  | inr ((y, ys), h) ↦ ground (arith, h, length-pop xs ys y h)
]
