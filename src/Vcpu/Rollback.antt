-- ===== src/Vcpu/Rollback.antt =====
-- `rollback_hotplug` and `rollback_downscale` of omega-daemon/src/vcpu_scheduler.rs, for a slot
-- inside the grid (outside, the code panics).
use omega_fusion_core_proxmo.Prelude.{
  sym, inl, inr, ap, ◌∙◌, Option-cases, ℕ, ◌+◌, ◌-◌, ◌≡◌, refl, arith, Bool, true, false, ◌&&◌,
  Option, none, some, List, [], ◌∷◌, ◌++◌, lookup, ◌==◌, if◌then◌else◌, ℕ_discrete, leb,
}
use omega_fusion_core_proxmo.Prelude.Assoc.{lookup-modify}
use omega_fusion_core_proxmo.Vcpu.Load.{VmVcpuState}
use omega_fusion_core_proxmo.Vcpu.Grid.{SlotId, add_vm, drop_vm, at_slot}
use omega_fusion_core_proxmo.Vcpu.{
  VcpuScheduler, hotplugged, downscaled, vm_of, set_vm, pop, try_hotplug, hotplug, try_downscale,
  downscale,
}

unfoldable pub same_slot : SlotId → SlotId → Bool
same_slot a b = a.pcpu == b.pcpu && a.slot == b.slot

-- `rposition` and `remove`: the list without the last entry that is the slot.
unfoldable pub remove_last : SlotId → List SlotId → Option (List SlotId)
unfolding same_slot
remove_last sid [] = none
remove_last sid (x ∷ xs) = elim (remove_last sid xs) [
  | some ys ↦ some (x ∷ ys)
  | none ↦ if same_slot x sid then some xs else none
]

unfoldable pub rollback_hotplug : ℕ → ℕ → SlotId → VcpuScheduler → VcpuScheduler × Bool
rollback_hotplug now vm sid s = elim (vm_of s vm) [
  | none ↦ (s, false)
  | some st ↦ elim (remove_last sid st.slots) [
    | none ↦ (s, false)
    | some left ↦ (
      record s {
        slots = at_slot sid (drop_vm vm) s.slots;
        vms =
            set_vm vm
              (record st { slots = left; current_vcpus = st.current_vcpus - 1; updated_at = now })
              s;
      },
      true,
    )
  ]
]

unfoldable pub rollback_downscale : ℕ → ℕ → SlotId → VcpuScheduler → VcpuScheduler × Bool
rollback_downscale now vm sid s = elim (vm_of s vm) [
  | none ↦ (s, false)
  | some st ↦ (
    record s {
      slots = at_slot sid (add_vm vm) s.slots;
      vms =
          set_vm vm
            (record st {
              slots = st.slots ++ sid ∷ [];
              current_vcpus = st.current_vcpus + 1;
              updated_at = now;
            })
            s;
    },
    true,
  )
]

remove_last-append : (sid : SlotId) (xs : List SlotId) → remove_last sid (xs ++ sid ∷ []) ≡ some xs
unfolding remove_last same_slot
remove_last-append sid [] = ground arith
remove_last-append sid (x ∷ xs) = rw (remove_last-append sid xs)

pub pop-none : (xs : List SlotId) → pop xs ≡ none → xs ≡ []
unfolding pop
pop-none [] e = refl
pop-none (x ∷ xs) e = ground arith

pop_append :
    (xs left : List SlotId) (sid : SlotId) → pop xs ≡ some (sid, left) → left ++ sid ∷ [] ≡ xs
unfolding pop
pop_append [] left sid e = cc
pop_append (x ∷ xs) left sid e = elim (Option-cases (pop xs)) [
  | inl h ↦ ground (arith, h, pop-none xs h)
  | inr ((y, ys), h) ↦ ground (arith, h, pop_append xs ys y h)
]

set_vm_self :
    (vm : ℕ) (st new : VmVcpuState) (s : VcpuScheduler)
    → vm_of s vm ≡ some st
    → lookup ℕ_discrete vm (set_vm vm new s) ≡ some new
set_vm_self vm st new s there =
    ground (arith, there, lookup-modify ℕ_discrete vm vm (λ _. new) s.vms)

-- A hotplug that went through, on the machine.
hotplugged_machine :
    (now : ℕ) (order : List ℕ) (vm n : ℕ) (sid : SlotId) (st : VmVcpuState) (s : VcpuScheduler)
    → vm_of s vm ≡ some st
    → (try_hotplug now order vm s).1 ≡ hotplugged vm n sid
    → vm_of (try_hotplug now order vm s).0 vm
      ≡ some (record st {
        slots = st.slots ++ sid ∷ [];
        current_vcpus = st.current_vcpus + 1;
        updated_at = now;
      })
unfolding try_hotplug hotplug
hotplugged_machine now order vm n sid st s there e = ground (
  arith,
  there,
  e,
  set_vm_self vm st
      (record st {
        slots = st.slots ++ sid ∷ [];
        current_vcpus = st.current_vcpus + 1;
        updated_at = now;
      })
      s there,
)

downscaled_machine :
    (now : ℕ) (force : Bool) (vm n : ℕ) (sid : SlotId) (st : VmVcpuState) (s : VcpuScheduler)
    → vm_of s vm ≡ some st
    → (try_downscale now force vm s).1 ≡ downscaled vm n sid
    → (m : VmVcpuState) × (vm_of (try_downscale now force vm s).0 vm ≡ some m)
      × (m.slots ++ sid ∷ [] ≡ st.slots)
      × (m.current_vcpus + 1 ≡ st.current_vcpus)
unfolding try_downscale downscale
downscaled_machine now force vm n sid st s there e = elim (Option-cases (pop st.slots)) [
  | inl h ↦ ground (arith, there, e, h)
  | inr ((y, left), h) ↦
      let m : VmVcpuState = record st {
        slots = left;
        current_vcpus = st.current_vcpus - 1;
        updated_at = now;
        low_load_since =
            if leb (st.current_vcpus - 1) st.min_vcpus then none else st.low_load_since;
      } in
      let last : y ≡ sid = ground (arith, there, e, h) in
      (
        m,
        ground (arith, there, e, h, set_vm_self vm st m s there),
        ap (λ z. left ++ z ∷ []) (sym last) ∙ pop_append st.slots left y h,
        ground (arith, there, e, h),
      )
]

rolled_back_hotplug :
    (now vm : ℕ) (sid : SlotId) (st : VmVcpuState) (left : List SlotId) (s : VcpuScheduler)
    → vm_of s vm ≡ some st
    → remove_last sid st.slots ≡ some left
    → ((rollback_hotplug now vm sid s).1 ≡ true)
      × (vm_of (rollback_hotplug now vm sid s).0 vm
          ≡ some
              (record st { slots = left; current_vcpus = st.current_vcpus - 1; updated_at = now }))
unfolding rollback_hotplug
rolled_back_hotplug now vm sid st left s there e = ground (
  arith,
  there,
  e,
  set_vm_self vm st
      (record st { slots = left; current_vcpus = st.current_vcpus - 1; updated_at = now }) s there,
)

rolled_back_downscale :
    (now vm : ℕ) (sid : SlotId) (st : VmVcpuState) (s : VcpuScheduler)
    → vm_of s vm ≡ some st
    → ((rollback_downscale now vm sid s).1 ≡ true)
      × (vm_of (rollback_downscale now vm sid s).0 vm
          ≡ some (record st {
            slots = st.slots ++ sid ∷ [];
            current_vcpus = st.current_vcpus + 1;
            updated_at = now;
          }))
unfolding rollback_downscale
rolled_back_downscale now vm sid st s there = ground (
  arith,
  there,
  set_vm_self vm st
      (record st {
        slots = st.slots ++ sid ∷ [];
        current_vcpus = st.current_vcpus + 1;
        updated_at = now;
      })
      s there,
)

-- When a machine is registered and its hotplug goes through, the rollback of that hotplug succeeds
-- and leaves the machine's state as it was, but for the time of its last change.
pub rollback_hotplug-try_hotplug :
    (now later : ℕ) (order : List ℕ) (vm n : ℕ) (sid : SlotId) (st : VmVcpuState)
    (s : VcpuScheduler)
    → vm_of s vm ≡ some st
    → (try_hotplug now order vm s).1 ≡ hotplugged vm n sid
    → let r = rollback_hotplug later vm sid (try_hotplug now order vm s).0 in
      (r.1 ≡ true) × (vm_of r.0 vm ≡ some (record st { updated_at = later }))
rollback_hotplug-try_hotplug now later order vm n sid st s there e =
    let (done, now_there) =
      rolled_back_hotplug later vm sid _ st.slots (try_hotplug now order vm s).0
        (hotplugged_machine now order vm n sid st s there e) (remove_last-append sid st.slots) in
    let same_count : st.current_vcpus + 1 - 1 ≡ st.current_vcpus = omega arith in
    (
      done,
      now_there ∙ ap (λ c. some (record st { current_vcpus = c; updated_at = later })) same_count,
    )

-- When a machine is registered and its downscale goes through, the rollback of that downscale
-- succeeds and gives the machine back its slots, in their order, and its number of vCPUs.
pub rollback_downscale-try_downscale :
    (now later : ℕ) (force : Bool) (vm n : ℕ) (sid : SlotId) (st : VmVcpuState) (s : VcpuScheduler)
    → vm_of s vm ≡ some st
    → (try_downscale now force vm s).1 ≡ downscaled vm n sid
    → let r = rollback_downscale later vm sid (try_downscale now force vm s).0 in
      (r.1 ≡ true)
      × ((m : VmVcpuState) × (vm_of r.0 vm ≡ some m)
          × (m.slots ≡ st.slots)
          × (m.current_vcpus ≡ st.current_vcpus))
rollback_downscale-try_downscale now later force vm n sid st s there e =
    let (m, at, slots, count) = downscaled_machine now force vm n sid st s there e in
    let (done, now_there) =
      rolled_back_downscale later vm sid m (try_downscale now force vm s).0 at in
    (done, (_, now_there, slots, count))
