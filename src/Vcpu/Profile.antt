-- ===== src/Vcpu/Profile.antt =====
-- The profile of each machine, `min ≤ current ≤ max`, and one slot in its list for each of its vCPUs.
use omega_fusion_core_proxmo.Prelude.{
  ℕ, ◌≡◌, ◌≤◌, arith, Bool, not, ◌&&◌, some, List, [], ◌∷◌, ◌==◌, ℕ_discrete, leb, ltb, max, min,
  length, length-append, Option-cases, inl, inr, Bool-cases,
}
use omega_fusion_core_proxmo.Prelude.Assoc.{
  AllValues, modify-AllValues, insert-AllValues, remove-AllValues, lookup-AllValues,
}
use omega_fusion_core_proxmo.Vcpu.Load.{
  VmVcpuState, new_state, at_max_vcpus, can_downscale, update_metrics,
}
use omega_fusion_core_proxmo.Vcpu.Grid.{alloc_rows, find_slot}
use omega_fusion_core_proxmo.Vcpu.Taken.{length-alloc_rows-le, length-pop}
use omega_fusion_core_proxmo.Vcpu.Metrics.{update_vm_metrics}
use omega_fusion_core_proxmo.Vcpu.{
  same, VcpuScheduler, vm_of, set_vm, admit_vm, release_vm, apply_profile, update_profile, pop,
  try_hotplug, hotplug, try_downscale, downscale, set_cpu_weight,
}

pub record IsInBounds (st : VmVcpuState) : Type 0 where
  pub above : st.min_vcpus ≤ st.current_vcpus
  pub below : st.current_vcpus ≤ st.max_vcpus
  pub slotted : length st.slots ≡ st.current_vcpus

abbrev pub AllInBounds : VcpuScheduler → Type 0
AllInBounds s = AllValues ℕ_discrete IsInBounds s.vms

-- What the daemon asks of the scheduler.
pub data Request : Type 0 where
  admits : (vm min_vcpus max_vcpus : ℕ) → Request
  releases : (vm : ℕ) → Request
  profiles : (vm min_vcpus max_vcpus : ℕ) → Request
  hotplugs : (order : List ℕ) (vm : ℕ) → Request
  downscales : (force : Bool) (vm : ℕ) → Request
  measures : (vm usage steal : ℕ) → Request
  weighs : (vm weight : ℕ) (share : Bool) → Request

unfoldable pub step : ℕ → Request → VcpuScheduler → VcpuScheduler
step now (admits vm a b) s = (admit_vm now vm a b s).0
step now (releases vm) s = release_vm vm s
step now (profiles vm a b) s = (update_profile now vm a b s).0
step now (hotplugs order vm) s = (try_hotplug now order vm s).0
step now (downscales force vm) s = (try_downscale now force vm s).0
step now (measures vm usage steal) s = update_vm_metrics now vm usage steal s
step now (weighs vm weight share) s = (set_cpu_weight now vm weight share s).0

-- A machine that is admitted asks for no more than its maximum at the start.
abbrev pub IsOrdered : Request → Type 0
IsOrdered (admits vm a b) = a ≤ b
IsOrdered _ = Unit {0}

admit_vm-AllInBounds :
    (now vm a b : ℕ) (s : VcpuScheduler)
    → a ≤ b
    → AllInBounds s
    → AllInBounds (admit_vm now vm a b s).0
unfolding admit_vm new_state
admit_vm-AllInBounds now vm a b s h v =
    let ids = (alloc_rows vm a 0 s.slots).1 in
    elim (Bool-cases (ltb (length ids) a)) [
      | inl short ↦ rw short v
      | inr full ↦ rw full (
          insert-AllValues ℕ_discrete IsInBounds vm (record (new_state now vm a b) { slots = ids })
            s.vms
            (record {
              above = omega arith;
              below = omega (arith, h);
              slotted = ground (arith, full, length-alloc_rows-le vm a 0 s.slots);
            })
            v)
    ]

-- A machine that is there is within its profile, and may be changed to one that is.
module _ (s : VcpuScheduler) (v : AllInBounds s) where
  set_vm-AllInBounds :
      (vm : ℕ) (new : VmVcpuState)
      → IsInBounds new
      → AllValues ℕ_discrete IsInBounds (set_vm vm new s)
  set_vm-AllInBounds vm new h =
      modify-AllValues ℕ_discrete IsInBounds vm (λ _. new) s.vms (λ _ _. h) v

  machine-IsInBounds : (vm : ℕ) (st : VmVcpuState) → vm_of s vm ≡ some st → IsInBounds st
  machine-IsInBounds vm st there = lookup-AllValues ℕ_discrete IsInBounds vm st s.vms v there

  release_vm-AllInBounds : (vm : ℕ) → AllInBounds (release_vm vm s)
  unfolding release_vm
  release_vm-AllInBounds vm = elim (Option-cases (vm_of s vm)) [
    | inl h ↦ rw (h, release_vm) v
    | inr (st, h) ↦ rw (h, release_vm) (remove-AllValues ℕ_discrete IsInBounds vm s.vms v)
  ]

  apply_profile-AllInBounds :
      (now vm a b : ℕ) (st : VmVcpuState)
      → IsInBounds st
      → AllInBounds (apply_profile now vm a b st s).0
  unfolding apply_profile
  apply_profile-AllInBounds now vm a b st h = elim (Bool-cases (ltb b st.current_vcpus)) [
    | inl over ↦ rw over v
    | inr fits ↦ elim (Bool-cases (ltb st.current_vcpus a)) [
      | inl under ↦ rw (fits, under) v
      | inr enough ↦
          rw (fits, enough)
            (set_vm-AllInBounds vm _ (record {
              above = ground (arith, enough);
              below = ground (arith, fits);
              slotted = h.slotted;
            }))
    ]
  ]

  update_profile-AllInBounds : (now vm a b : ℕ) → AllInBounds (update_profile now vm a b s).0
  unfolding update_profile
  update_profile-AllInBounds now vm a b = elim (Bool-cases (a == 0)) [
    | inl zero_min ↦ rw zero_min v
    | inr positive ↦ elim (Bool-cases (ltb b a)) [
      | inl below ↦ rw (positive, below) v
      | inr ordered ↦ elim (Option-cases (vm_of s vm)) [
        | inl h ↦ rw (positive, ordered, h) v
        | inr (st, h) ↦
            rw (positive, ordered, h)
              (apply_profile-AllInBounds now vm a b st (machine-IsInBounds vm st h))
      ]
    ]
  ]

  hotplug-AllInBounds :
      (now : ℕ) (order : List ℕ) (vm : ℕ) (st : VmVcpuState)
      → IsInBounds st
      → AllInBounds (hotplug now order vm st s).0
  unfolding hotplug at_max_vcpus
  hotplug-AllInBounds now order vm st h = elim (Bool-cases (leb st.max_vcpus st.current_vcpus)) [
    | inl full ↦ rw full v
    | inr room ↦ elim (Option-cases (find_slot order s.slots)) [
      | inl none_free ↦ rw (room, none_free) v
      | inr (sid, found) ↦
          rw (room, found)
            (set_vm-AllInBounds vm _ (record {
              above = omega (arith, h.above);
              below = ground (arith, room);
              slotted = omega (arith, h.slotted, length-append st.slots (sid ∷ []));
            }))
    ]
  ]

  try_hotplug-AllInBounds :
      (now : ℕ) (order : List ℕ) (vm : ℕ) → AllInBounds (try_hotplug now order vm s).0
  unfolding try_hotplug
  try_hotplug-AllInBounds now order vm = elim (Option-cases (vm_of s vm)) [
    | inl h ↦ rw (h, try_hotplug) v
    | inr (st, h) ↦
        rw (h, try_hotplug) (hotplug-AllInBounds now order vm st (machine-IsInBounds vm st h))
  ]

  downscale-AllInBounds :
      (now : ℕ) (force : Bool) (vm : ℕ) (st : VmVcpuState)
      → IsInBounds st
      → AllInBounds (downscale now force vm st s).0
  unfolding downscale
  downscale-AllInBounds now force vm st h = elim (Bool-cases (leb st.current_vcpus st.min_vcpus)) [
    | inl low ↦ rw low v
    | inr over ↦ elim (Bool-cases (not force && not (can_downscale now st))) [
      | inl busy ↦ rw (over, busy) v
      | inr may ↦ elim (Option-cases (pop st.slots)) [
        | inl no_slot ↦ rw (over, may, no_slot) v
        | inr ((sid, left), popped) ↦
            rw (over, may, popped)
              (set_vm-AllInBounds vm _ (record {
                above = ground (arith, over);
                below = omega (arith, h.below);
                slotted = omega (arith, h.slotted, length-pop st.slots left sid popped);
              }))
      ]
    ]
  ]

  try_downscale-AllInBounds :
      (now : ℕ) (force : Bool) (vm : ℕ) → AllInBounds (try_downscale now force vm s).0
  unfolding try_downscale
  try_downscale-AllInBounds now force vm = elim (Option-cases (vm_of s vm)) [
    | inl h ↦ rw (h, try_downscale) v
    | inr (st, h) ↦
        rw (h, try_downscale) (downscale-AllInBounds now force vm st (machine-IsInBounds vm st h))
  ]

  set_cpu_weight-AllInBounds :
      (now vm weight : ℕ) (share : Bool) → AllInBounds (set_cpu_weight now vm weight share s).0
  unfolding set_cpu_weight
  set_cpu_weight-AllInBounds now vm weight share = elim (Option-cases (vm_of s vm)) [
    | inl h ↦ rw (h, set_cpu_weight) v
    | inr (st, h) ↦
        elim (Bool-cases
          (max 1 (min weight 10000) == st.cpu_weight && same share st.local_share_active)) [
            | inl unchanged ↦ rw (h, set_cpu_weight, unchanged) v
            | inr changed ↦
                rw (h, set_cpu_weight, changed)
                  (set_vm-AllInBounds vm _ (
                    let b = machine-IsInBounds vm st h in
                    record { above = b.above; below = b.below; slotted = b.slotted }))
          ]
  ]

update_metrics-IsInBounds :
    (now usage steal : ℕ) (st : VmVcpuState)
    → IsInBounds st
    → IsInBounds (update_metrics now usage steal st)
unfolding update_metrics
update_metrics-IsInBounds now usage steal st h = record {
  above = h.above;
  below = h.below;
  slotted = h.slotted;
}

-- An admission that asks for at most its maximum, a release, a change of profile, a hotplug, a
-- downscale, a measurement or a change of weight keeps every machine between the minimum and the
-- maximum of its profile, with one slot in its list for each of its vCPUs.
pub step-AllInBounds :
    (now : ℕ) (c : Request) (s : VcpuScheduler)
    → IsOrdered c
    → AllInBounds s
    → AllInBounds (step now c s)
unfolding step update_vm_metrics
step-AllInBounds now (admits vm a b) s h v = admit_vm-AllInBounds now vm a b s h v
step-AllInBounds now (releases vm) s h v = release_vm-AllInBounds s v vm
step-AllInBounds now (profiles vm a b) s h v = update_profile-AllInBounds s v now vm a b
step-AllInBounds now (hotplugs order vm) s h v = try_hotplug-AllInBounds s v now order vm
step-AllInBounds now (downscales force vm) s h v = try_downscale-AllInBounds s v now force vm
step-AllInBounds now (measures vm usage steal) s h v =
    modify-AllValues ℕ_discrete IsInBounds vm (update_metrics now usage steal) s.vms
      (update_metrics-IsInBounds now usage steal) v
step-AllInBounds now (weighs vm weight share) s h v =
    set_cpu_weight-AllInBounds s v now vm weight share
