-- ===== src/Vcpu/SameSlot.antt =====
-- A hotplug onto a slot that the machine holds already (omega-daemon/src/vcpu_scheduler.rs).
use omega_fusion_core_proxmo.Prelude.{
  arith, ℕ, zero, suc, ◌+◌, ◌≡◌, refl, ap, true, false, some, List, [], ◌∷◌,
}
use omega_fusion_core_proxmo.Vcpu.Load.{VmVcpuState, at_max_vcpus}
use omega_fusion_core_proxmo.Vcpu.Grid.{
  SlotId, Slots, PcpuSlot, add_vm, contains_vm, at_cell, at_index, find_slot, row_of,
}
use omega_fusion_core_proxmo.Vcpu.{VcpuScheduler, hotplugged, vm_of, try_hotplug, hotplug}

-- The machines of a slot; none outside the row.
unfoldable pub slot_of : ℕ → List PcpuSlot → PcpuSlot
slot_of i [] = []
slot_of zero (s ∷ row) = s
slot_of (suc i) (s ∷ row) = slot_of i row

at_index_held :
    (vm i : ℕ) (row : List PcpuSlot)
    → contains_vm vm (slot_of i row) ≡ true
    → at_index i (add_vm vm) row ≡ row
unfolding at_index slot_of add_vm
at_index_held vm i [] h = refl
at_index_held vm zero (s ∷ row) h = rw h refl
at_index_held vm (suc i) (s ∷ row) h = ap (◌∷◌ s) (at_index_held vm i row h)

at_cell_held :
    (vm p i : ℕ) (rows : Slots)
    → contains_vm vm (slot_of i (row_of p rows)) ≡ true
    → at_cell p i (add_vm vm) rows ≡ rows
unfolding at_cell row_of
at_cell_held vm p i [] h = refl
at_cell_held vm zero i (row ∷ rows) h = ap (λ r. r ∷ rows) (at_index_held vm i row h)
at_cell_held vm (suc p) i (row ∷ rows) h = ap (◌∷◌ row) (at_cell_held vm p i rows h)

-- When a registered machine is below its maximum and the slot that the search finds holds it
-- already, `try_hotplug` reports one more vCPU on that slot and leaves every slot of the grid as it
-- was.
pub try_hotplug_same_slot :
    (now : ℕ) (order : List ℕ) (vm : ℕ) (sid : SlotId) (st : VmVcpuState) (s : VcpuScheduler)
    → vm_of s vm ≡ some st
    → at_max_vcpus st ≡ false
    → find_slot order s.slots ≡ some sid
    → contains_vm vm (slot_of sid.slot (row_of sid.pcpu s.slots)) ≡ true
    → ((try_hotplug now order vm s).1 ≡ hotplugged vm (st.current_vcpus + 1) sid)
      × ((try_hotplug now order vm s).0.slots ≡ s.slots)
unfolding try_hotplug hotplug
try_hotplug_same_slot now order vm sid st s there room found held =
    let same = at_cell_held vm sid.pcpu sid.slot s.slots held in
    ground (arith, there, room, found, same)
