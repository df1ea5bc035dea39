-- ===== src/Disk.antt =====
-- omega-daemon/src/disk_io_scheduler.rs: the disk load of the machines and the weights of their I/O.
-- Rates are whole bytes per second, the pressure is in hundredths of a percent; `now_secs()` is an
-- argument.
pub mod Shares
use omega_fusion_core_proxmo.Prelude.{
  ℕ, ◌+◌, ◌-◌, ◌*◌, Bool, true, false, not, ◌&&◌, ◌||◌, Option, none, some, List, [], ◌∷◌, lookup,
  leb, ltb, ◌==◌, if◌then◌else◌, select, map, min, max, ℕ_discrete,
}
use mathlib.Core.Option
use omega_fusion_core_proxmo.Prelude.Int.{ℤ, pos_part}
use omega_fusion_core_proxmo.Prelude.Assoc
use omega_fusion_core_proxmo.Prelude.Assoc.{values}

abbrev pub default_io_weight : ℕ
default_io_weight = 100

abbrev pub disk_pressure_trigger : ℕ
disk_pressure_trigger = 500

abbrev pub disk_borrower_trigger_bps : ℕ
disk_borrower_trigger_bps = 8 * 1024 * 1024

abbrev pub disk_idle_bps : ℕ
disk_idle_bps = 512 * 1024

abbrev pub disk_idle_stable_secs : ℕ
disk_idle_stable_secs = 60

-- A reason is a number.
pub record VmDiskState : Type 0 where
  pub vm_id : ℕ
  pub read_bps : ℕ
  pub write_bps : ℕ
  pub io_weight : ℕ
  pub local_share_active : Bool
  pub io_control_supported : Bool
  pub io_control_reason : Option ℕ
  pub idle_since : Option ℕ
  pub updated_at : ℕ

unfoldable pub new_disk_state : ℕ → ℕ → VmDiskState
new_disk_state now vm = record {
  vm_id = vm;
  read_bps = 0;
  write_bps = 0;
  io_weight = default_io_weight;
  local_share_active = false;
  io_control_supported = true;
  io_control_reason = none;
  idle_since = some now;
  updated_at = now;
}

unfoldable pub total_bps : VmDiskState → ℕ
total_bps v = v.read_bps + v.write_bps

unfoldable pub idle_duration : ℕ → VmDiskState → ℕ
idle_duration now v = elim v.idle_since [ none ↦ 0 | some started ↦ now - started ]

unfoldable pub is_idle : ℕ → VmDiskState → Bool
unfolding total_bps idle_duration
is_idle now v = leb (total_bps v) disk_idle_bps && leb disk_idle_stable_secs (idle_duration now v)

unfoldable pub needs_priority : ℕ → VmDiskState → Bool
unfolding total_bps
needs_priority pressure v =
    leb disk_pressure_trigger pressure && leb disk_borrower_trigger_bps (total_bps v)

pub record DiskIoScheduler : Type 0 where
  pub node_pressure : ℕ
  pub vms : List (ℕ × VmDiskState)

unfoldable pub new_disk_scheduler : DiskIoScheduler
new_disk_scheduler = record { node_pressure = 0; vms = [] }

-- `entry(vm_id).or_insert_with(...)`, then a change in place.
unfoldable pub upsert : ℕ → ℕ → (VmDiskState → VmDiskState) → DiskIoScheduler → DiskIoScheduler
unfolding new_disk_state
upsert now vm f s = record s {
  vms =
      Assoc.insert ℕ_discrete vm
        (f (Option.get_or (lookup ℕ_discrete vm s.vms) (new_disk_state now vm))) s.vms;
}

unfoldable pub ensure_vm : ℕ → ℕ → DiskIoScheduler → DiskIoScheduler
unfolding upsert
ensure_vm now vm s = upsert now vm (λ v. v) s

unfoldable pub release_disk : ℕ → DiskIoScheduler → DiskIoScheduler
release_disk vm s = record s { vms = Assoc.remove ℕ_discrete vm s.vms }

-- The rates that were read, and the timer of a machine that is at rest.
unfoldable pub set_rates : ℕ → ℤ → ℤ → VmDiskState → VmDiskState
set_rates now read written v = record v {
  read_bps = pos_part read;
  write_bps = pos_part written;
  idle_since =
      if leb (pos_part read + pos_part written) disk_idle_bps
      then some (Option.get_or v.idle_since now)
      else none;
  updated_at = now;
}

unfoldable pub update_vm_io : ℕ → ℕ → ℤ → ℤ → DiskIoScheduler → DiskIoScheduler
unfolding upsert set_rates
update_vm_io now vm read written s = upsert now vm (set_rates now read written) s

unfoldable pub set_node_pressure : ℤ → DiskIoScheduler → DiskIoScheduler
set_node_pressure pressure s = record s { node_pressure = pos_part pressure }

unfoldable pub set_weight : ℕ → ℕ → Bool → VmDiskState → VmDiskState
set_weight now weight active v = record v {
  io_weight = min (max weight 1) 10000;
  local_share_active = active;
  io_control_supported = true;
  io_control_reason = none;
  updated_at = now;
}

unfoldable pub set_vm_weight : ℕ → ℕ → ℕ → Bool → DiskIoScheduler → DiskIoScheduler
unfolding set_weight
set_vm_weight now vm weight active s = record s {
  vms = Assoc.modify ℕ_discrete vm (set_weight now weight active) s.vms;
}

unfoldable pub set_unsupported : ℕ → ℕ → VmDiskState → VmDiskState
set_unsupported now reason v = record v {
  io_control_supported = false;
  io_control_reason = some reason;
  local_share_active = false;
  io_weight = default_io_weight;
  updated_at = now;
}

-- `true` when the machine was supported, or not for this reason.
unfoldable pub is_news : ℕ → VmDiskState → Bool
is_news reason v =
    v.io_control_supported
    || (elim v.io_control_reason [ none ↦ true | some r ↦ not (r == reason) ])

unfoldable pub mark_io_control_unsupported : ℕ → ℕ → ℕ → DiskIoScheduler → DiskIoScheduler × Bool
unfolding upsert set_unsupported is_news new_disk_state
mark_io_control_unsupported now vm reason s = (
  upsert now vm (set_unsupported now reason) s,
  is_news reason (Option.get_or (lookup ℕ_discrete vm s.vms) (new_disk_state now vm)),
)

-- A stable sort: `before a b` when `a` must stand before `b`.
unfoldable pub insert_vm :
    (VmDiskState → VmDiskState → Bool) → VmDiskState → List VmDiskState → List VmDiskState
insert_vm before v [] = v ∷ []
insert_vm before v (x ∷ xs) = if before x v then x ∷ insert_vm before v xs else v ∷ x ∷ xs

unfoldable pub sort_vms : (VmDiskState → VmDiskState → Bool) → List VmDiskState → List VmDiskState
unfolding insert_vm
sort_vms before [] = []
sort_vms before (v ∷ vs) = insert_vm before v (sort_vms before vs)

unfoldable pub busy_vms : DiskIoScheduler → List VmDiskState
unfolding needs_priority sort_vms total_bps
busy_vms s =
    sort_vms (λ a b. ltb (total_bps b) (total_bps a))
      (select (needs_priority s.node_pressure) (values s.vms))

unfoldable pub disk_borrowers : DiskIoScheduler → List ℕ
unfolding busy_vms
disk_borrowers s = map (λ v. v.vm_id) (busy_vms s)

unfoldable pub resting_vms : ℕ → DiskIoScheduler → List VmDiskState
unfolding is_idle sort_vms total_bps
resting_vms now s =
    sort_vms (λ a b. ltb (total_bps a) (total_bps b)) (select (is_idle now) (values s.vms))

unfoldable pub idle_peers : ℕ → DiskIoScheduler → List ℕ
unfolding resting_vms
idle_peers now s = map (λ v. v.vm_id) (resting_vms now s)
