-- ===== src/Vcpu.antt =====
-- omega-daemon/src/vcpu_scheduler.rs: the vCPU slots of a node and the elasticity of its machines.
-- A percentage is a number of hundredths of a percent, and a quotient is compared by
-- cross-multiplication; `now_secs()` is an argument; a hash set of machines is a list without
-- repetition; log texts are left out.
pub mod Load
pub mod Grid
pub mod Metrics
pub mod Rollback
pub mod Taken
pub mod SameSlot
pub mod Profile
use omega_fusion_core_proxmo.Prelude.{
  ℕ, zero, suc, ◌+◌, ◌-◌, ◌*◌, min, max, Bool, true, false, not, ◌&&◌, ◌||◌, Option, none, some,
  List, [], ◌∷◌, ◌++◌, lookup, ltb, leb, ◌==◌, if◌then◌else◌, length, select, map, ℕ_discrete,
}
use omega_fusion_core_proxmo.Prelude.Assoc
use omega_fusion_core_proxmo.Prelude.Assoc.{values}
use Load.{VmVcpuState, new_state, at_max_vcpus, can_downscale, needs_more_vcpus, has_steal_pressure}
use Grid.{
  SlotId, Slots, add_vm, drop_vm, at_slot, alloc_rows, drop_all, find_slot, empty_slots, can_accept,
}

pub record VcpuScheduler : Type 0 where
  pub num_pcpus : ℕ
  pub slots : Slots
  pub vms : List (ℕ × VmVcpuState)

pub data Reason : Type 0 where
  node_saturated : ℕ → ℕ → Reason
  unknown_vm : Reason
  no_free_slot : ℕ → ℕ → Reason

pub data VcpuDecision : Type 0 where
  allocated : ℕ → List SlotId → VcpuDecision
  hotplugged : ℕ → ℕ → SlotId → VcpuDecision
  migrate_required : ℕ → Reason → VcpuDecision
  at_max : ℕ → VcpuDecision
  at_min : ℕ → VcpuDecision
  downscaled : ℕ → ℕ → SlotId → VcpuDecision

abbrev pub vm_of : VcpuScheduler → ℕ → Option VmVcpuState
vm_of s vm = lookup ℕ_discrete vm s.vms

abbrev pub set_vm : ℕ → VmVcpuState → VcpuScheduler → List (ℕ × VmVcpuState)
set_vm vm st s = Assoc.modify ℕ_discrete vm (λ _. st) s.vms

-- `VcpuScheduler::new`.
unfoldable pub new_scheduler : ℕ → VcpuScheduler
new_scheduler n = record { num_pcpus = n; slots = empty_slots n; vms = [] }

unfoldable pub admit_vm : ℕ → ℕ → ℕ → ℕ → VcpuScheduler → VcpuScheduler × VcpuDecision
admit_vm now vm min_vcpus max_vcpus s =
    let (rows, ids) = alloc_rows vm min_vcpus 0 s.slots in
    let st = record (new_state now vm min_vcpus max_vcpus) { slots = ids } in
    if ltb (length ids) min_vcpus
    then (
      record s { slots = drop_all vm ids rows },
      migrate_required vm (node_saturated (length ids) min_vcpus),
    )
    else (record s { slots = rows; vms = Assoc.insert ℕ_discrete vm st s.vms }, allocated vm ids)

unfoldable pub release_vm : ℕ → VcpuScheduler → VcpuScheduler
release_vm vm s = elim (vm_of s vm) [
  | none ↦ s
  | some st ↦ record s {
    slots = drop_all vm st.slots s.slots;
    vms = Assoc.remove ℕ_discrete vm s.vms;
  }
]

pub data ProfileError : Type 0 where
  zero_min max_below_min vm_missing max_below_current min_above_current : ProfileError

-- The last two checks, and the new profile.
unfoldable pub apply_profile :
    ℕ → ℕ → ℕ → ℕ → VmVcpuState → VcpuScheduler → VcpuScheduler × Option ProfileError
apply_profile now vm min_vcpus max_vcpus st s =
    if ltb max_vcpus st.current_vcpus
    then (s, some max_below_current)
    else if ltb st.current_vcpus min_vcpus
    then (s, some min_above_current)
    else (
      record s {
        vms =
            set_vm vm (record st { min_vcpus = min_vcpus; max_vcpus = max_vcpus; updated_at = now })
              s;
      },
      none,
    )

-- `none` is `Ok(())`.
unfoldable pub update_profile : ℕ → ℕ → ℕ → ℕ → VcpuScheduler → VcpuScheduler × Option ProfileError
update_profile now vm min_vcpus max_vcpus s =
    if min_vcpus == 0
    then (s, some zero_min)
    else if ltb max_vcpus min_vcpus
    then (s, some max_below_min)
    else (elim (vm_of s vm) [
      | none ↦ (s, some vm_missing)
      | some st ↦ apply_profile now vm min_vcpus max_vcpus st s
    ])

unfoldable pub total_vslots : VcpuScheduler → ℕ
total_vslots s = s.num_pcpus * 3

-- `order` is the sequence in which the hash set of pCPUs is walked.
unfoldable pub hotplug : ℕ → List ℕ → ℕ → VmVcpuState → VcpuScheduler → VcpuScheduler × VcpuDecision
hotplug now order vm st s =
    if at_max_vcpus st then (s, at_max vm) else (elim (find_slot order s.slots) [
      | none ↦ (s, migrate_required vm (no_free_slot st.current_vcpus st.max_vcpus))
      | some sid ↦ (
        record s {
          slots = at_slot sid (add_vm vm) s.slots;
          vms =
              set_vm vm
                (record st {
                  slots = st.slots ++ sid ∷ [];
                  current_vcpus = st.current_vcpus + 1;
                  updated_at = now;
                })
                s;
        },
        hotplugged vm (st.current_vcpus + 1) sid,
      )
    ])

unfoldable pub try_hotplug : ℕ → List ℕ → ℕ → VcpuScheduler → VcpuScheduler × VcpuDecision
try_hotplug now order vm s = elim (vm_of s vm) [
  | none ↦ (s, migrate_required vm unknown_vm)
  | some st ↦ hotplug now order vm st s
]

-- `Vec::pop`: the last entry and the others.
unfoldable pub pop : List SlotId → Option (SlotId × List SlotId)
pop [] = none
pop (x ∷ xs) = elim (pop xs) [ none ↦ some (x, []) | some (y, ys) ↦ some (y, x ∷ ys) ]

unfoldable pub downscale : ℕ → Bool → ℕ → VmVcpuState → VcpuScheduler → VcpuScheduler × VcpuDecision
downscale now force vm st s =
    let current = st.current_vcpus - 1 in
    if leb st.current_vcpus st.min_vcpus
    then (s, at_min vm)
    else if not force && not (can_downscale now st)
    then (s, at_min vm)
    else (elim (pop st.slots) [
      | none ↦ (s, at_min vm)
      | some (sid, left) ↦ (
        record s {
          slots = at_slot sid (drop_vm vm) s.slots;
          vms =
              set_vm vm
                (record st {
                  slots = left;
                  current_vcpus = current;
                  updated_at = now;
                  low_load_since = if leb current st.min_vcpus then none else st.low_load_since;
                })
                s;
        },
        downscaled vm current sid,
      )
    ])

unfoldable pub try_downscale : ℕ → Bool → ℕ → VcpuScheduler → VcpuScheduler × VcpuDecision
try_downscale now force vm s = elim (vm_of s vm) [
  | none ↦ (s, at_min vm)
  | some st ↦ downscale now force vm st s
]

-- `==` on `bool`.
unfoldable pub same : Bool → Bool → Bool
same true b = b
same false b = not b

unfoldable pub set_cpu_weight : ℕ → ℕ → ℕ → Bool → VcpuScheduler → VcpuScheduler × Bool
set_cpu_weight now vm weight share s = elim (vm_of s vm) [
  | none ↦ (s, false)
  | some st ↦
      if max 1 (min weight 10000) == st.cpu_weight && same share st.local_share_active
      then (s, false)
      else (
        record s {
          vms =
              set_vm vm
                (record st {
                  cpu_weight = max 1 (min weight 10000);
                  local_share_active = share;
                  updated_at = now;
                })
                s;
        },
        true,
      )
]

unfoldable pub vms_needing_hotplug : ℕ → VcpuScheduler → List ℕ
vms_needing_hotplug now s = map (λ st. st.vm_id) (select (needs_more_vcpus now) (values s.vms))

unfoldable pub vms_needing_downscale : ℕ → VcpuScheduler → List ℕ
vms_needing_downscale now s = map (λ st. st.vm_id) (select (can_downscale now) (values s.vms))

unfoldable pub vms_needing_migration : VcpuScheduler → List ℕ
vms_needing_migration s =
    map (λ st. st.vm_id) (select (λ st. has_steal_pressure st && at_max_vcpus st) (values s.vms))
