-- ===== src/Tests/OnVcpus.antt =====
-- A node with one pCPU and one machine.
use omega_fusion_core_proxmo.Prelude.{◌≡◌, refl, arith, true, some, [], ◌∷◌, lookup, ℕ_discrete}
use omega_fusion_core_proxmo.Vcpu.Load.{VmVcpuState, new_state, at_max_vcpus}
use omega_fusion_core_proxmo.Vcpu.Grid.{SlotId, find_slot, find_in_row, row_of, can_accept}
use omega_fusion_core_proxmo.Vcpu.{
  VcpuScheduler, hotplugged, downscaled, vm_of, try_hotplug, hotplug, try_downscale, downscale, pop,
}
use omega_fusion_core_proxmo.Vcpu.Rollback.{
  rollback_hotplug, rollback_downscale, rollback_hotplug-try_hotplug,
  rollback_downscale-try_downscale,
}
use omega_fusion_core_proxmo.Vcpu.Profile.{AllInBounds, hotplugs, step, step-AllInBounds}

abbrev first_slot : SlotId
first_slot = record { pcpu = 0; slot = 0 }

-- Two of four vCPUs, on the first two slots.
abbrev machine : VmVcpuState
machine = record (new_state 10 7 1 4) {
  current_vcpus = 2;
  slots = first_slot ∷ record { pcpu = 0; slot = 1 } ∷ [];
}

abbrev node : VcpuScheduler
node = record {
  num_pcpus = 1;
  slots = ((7 ∷ []) ∷ (7 ∷ []) ∷ [] ∷ []) ∷ [];
  vms = (7, machine) ∷ [];
}

node-AllInBounds : AllInBounds node
unfolding new_state
node-AllInBounds = (record { above = omega arith; below = omega arith; slotted = refl }, tt)

node_has : vm_of node 7 ≡ some machine
unfolding lookup ℕ_discrete
node_has = refl

step-AllInBounds_example : AllInBounds (step 20 (hotplugs (0 ∷ []) 7) node)
step-AllInBounds_example = step-AllInBounds 20 (hotplugs (0 ∷ []) 7) node tt node-AllInBounds

try_hotplug-node : (try_hotplug 20 (0 ∷ []) 7 node).1 ≡ hotplugged 7 3 first_slot
unfolding try_hotplug hotplug at_max_vcpus new_state find_slot find_in_row row_of can_accept lookup
    ℕ_discrete
try_hotplug-node = refl

rollback_hotplug-try_hotplug_example :
    let r = rollback_hotplug 30 7 first_slot (try_hotplug 20 (0 ∷ []) 7 node).0 in
    (r.1 ≡ true) × (vm_of r.0 7 ≡ some (record machine { updated_at = 30 }))
rollback_hotplug-try_hotplug_example =
    rollback_hotplug-try_hotplug 20 30 (0 ∷ []) 7 3 first_slot machine node node_has
      try_hotplug-node

try_downscale-node :
    (try_downscale 20 true 7 node).1 ≡ downscaled 7 1 (record { pcpu = 0; slot = 1 })
unfolding try_downscale downscale pop new_state lookup ℕ_discrete
try_downscale-node = refl

rollback_downscale-try_downscale_example :
    let r =
      rollback_downscale 30 7 (record { pcpu = 0; slot = 1 }) (try_downscale 20 true 7 node).0 in
    (r.1 ≡ true)
    × ((m : VmVcpuState) × (vm_of r.0 7 ≡ some m)
        × (m.slots ≡ machine.slots)
        × (m.current_vcpus ≡ machine.current_vcpus))
rollback_downscale-try_downscale_example =
    rollback_downscale-try_downscale 20 30 true 7 1 (record { pcpu = 0; slot = 1 }) machine node
      node_has try_downscale-node
