-- ===== src/Migration/Choice.antt =====
-- omega-daemon/src/vm_migration.rs, `MigrationPolicy`: which machines should leave the node, and how.
-- Percentages are hundredths of a percent, quotients are compared by cross-multiplication; times
-- are milliseconds.
use omega_fusion_core_proxmo.Prelude.{
  ℕ, ◌+◌, ◌-◌, ◌*◌, ◌/◌, ◌%◌, ◌^◌, Bool, true, false, not, ◌&&◌, Option, none, some, List, [], ◌∷◌,
  ◌++◌, lookup, leb, ltb, ◌==◌, if◌then◌else◌, select, ℕ_discrete, map, ◌≡◌, ◌≤◌, arith,
}
use omega_fusion_core_proxmo.Prelude.Assoc
use omega_fusion_core_proxmo.Prelude.Assoc.{lookup-insert_self}
use omega_fusion_core_proxmo.Prelude.Assoc.{values}
use omega_fusion_core_proxmo.Tracker.{VmStatus, LocalVm, is_running}
use omega_fusion_core_proxmo.Migration.{
  MigrationType, live, cold, MigrationRequest, memory_pressure, cpu_saturation,
  excessive_remote_paging, auto,
}

pub record MigrationThresholds : Type 0 where
  pub ram_high_pct : ℕ
  pub ram_critical_pct : ℕ
  pub vcpu_throttle_trigger : ℕ
  pub remote_paging_pct : ℕ
  pub idle_cpu_pct : ℕ
  pub idle_duration_secs : ℕ

abbrev pub default_thresholds : MigrationThresholds
default_thresholds = record {
  ram_high_pct = 8500;
  ram_critical_pct = 9500;
  vcpu_throttle_trigger = 3000;
  remote_paging_pct = 6000;
  idle_cpu_pct = 500;
  idle_duration_secs = 60;
}

pub record MigrationPolicy : Type 0 where
  pub thresholds : MigrationThresholds
  pub node_id : List ℕ
  pub cpu_cache : List (ℕ × (ℕ × ℕ))

unfoldable pub new_policy : List ℕ → MigrationThresholds → MigrationPolicy
new_policy node t = record { thresholds = t; node_id = node; cpu_cache = [] }

unfoldable pub update_cpu_usage : ℕ → ℕ → ℕ → MigrationPolicy → MigrationPolicy
update_cpu_usage now vm pct p = record p {
  cpu_cache = Assoc.insert ℕ_discrete vm (pct, now) p.cpu_cache;
}

unfoldable pub is_vm_idle : ℕ → ℕ → MigrationPolicy → Bool
is_vm_idle now vm p = elim (lookup ℕ_discrete vm p.cpu_cache) [
  | none ↦ false
  | some (pct, seen) ↦
      ltb pct p.thresholds.idle_cpu_pct
      && ltb ((now - seen) / 1000) (p.thresholds.idle_duration_secs + 5)
]

unfoldable pub pick_migration_type : ℕ → ℕ → Bool → Bool → MigrationPolicy → MigrationType
unfolding is_vm_idle
pick_migration_type now vm is_up is_critical p =
    if not is_up
    then cold
    else if is_critical
    then cold
    else if is_vm_idle now vm p
    then cold
    else live

-- `max_mem_mib * 256`.
unfoldable pub total_pages : LocalVm → ℕ
total_pages vm = vm.max_mem_mib * 256 % 2 ^ 64

-- `remote_pct() > pct`.
unfoldable pub remote_pct_gt : ℕ → LocalVm → Bool
unfolding total_pages
remote_pct_gt pct vm =
    if total_pages vm == 0 then false else ltb (pct * total_pages vm) (vm.remote_pages * 10000)

-- `usage_pct >= pct`, for the memory used and in all.
unfoldable pub usage_ge : ℕ → ℕ → ℕ → Bool
usage_ge pct used total = leb (pct * total) (used * 10000)

-- `max_by_key(|v| v.rss_kb)`: the last of the largest.
unfoldable pub heaviest : List LocalVm → Option LocalVm
heaviest [] = none
heaviest (v ∷ vs) = elim (heaviest vs) [
  | none ↦ some v
  | some w ↦ if leb v.rss_kb w.rss_kb then some w else some v
]

unfoldable pub is_up_or_stopped : VmStatus → Bool
is_up_or_stopped VmStatus.running = true
is_up_or_stopped VmStatus.stopped = true
is_up_or_stopped VmStatus.unknown = false

-- A throttle above 150 %, with what it has above 100 %.
unfoldable pub high_throttle : ℕ → Option (ℕ × ℕ) → List (ℕ × ℕ)
high_throttle vm none = []
high_throttle vm (some (pct, seen)) = if ltb 15000 pct then (vm, pct - 10000) ∷ [] else []

unfoldable pub vms_with_high_throttle : MigrationPolicy → List LocalVm → List (ℕ × ℕ)
unfolding high_throttle is_running
vms_with_high_throttle p [] = []
vms_with_high_throttle p (v ∷ vs) =
    (if is_running v.status
      then high_throttle v.vmid (lookup ℕ_discrete v.vmid p.cpu_cache)
      else [])
    ++ vms_with_high_throttle p vs

-- What the evaluation reads: the time, the lines of `/proc/meminfo`, and the free vCPU slots.
pub record Reading : Type 0 where
  pub now : ℕ
  pub mem_total : ℕ
  pub mem_available : ℕ
  pub free_slots : ℕ

abbrev pub mem_used : Reading → ℕ
mem_used r = (r.mem_total + 2 ^ 64 - r.mem_available) % 2 ^ 64

module _ (p : MigrationPolicy) (r : Reading) where
  unfoldable pub paging_request : LocalVm → MigrationRequest
  unfolding pick_migration_type is_running total_pages
  paging_request vm = record {
    vm_id = vm.vmid;
    source = p.node_id;
    target = auto;
    mtype = pick_migration_type r.now vm.vmid (is_running vm.status) false p;
    reason = excessive_remote_paging vm.remote_pages (total_pages vm);
    with_local_disks = false;
  }

  unfoldable pub pressure_request : Bool → Option LocalVm → List MigrationRequest
  unfolding pick_migration_type is_running
  pressure_request is_critical none = []
  pressure_request is_critical (some vm) =
      record {
        vm_id = vm.vmid;
        source = p.node_id;
        target = auto;
        mtype = pick_migration_type r.now vm.vmid (is_running vm.status) is_critical p;
        reason = memory_pressure (mem_used r) r.mem_total;
        with_local_disks = false;
      }
      ∷ []

  unfoldable pub throttle_request : ℕ × ℕ → MigrationRequest
  throttle_request (vm, above) = record {
    vm_id = vm;
    source = p.node_id;
    target = auto;
    mtype = live;
    reason = cpu_saturation above r.free_slots;
    with_local_disks = false;
  }

  unfoldable pub pressure_requests : List LocalVm → List MigrationRequest
  unfolding pressure_request usage_ge heaviest is_up_or_stopped is_running
  pressure_requests vms =
      if usage_ge p.thresholds.ram_critical_pct (mem_used r) r.mem_total
      then pressure_request true (heaviest (select (λ v. is_up_or_stopped v.status) vms))
      else if usage_ge p.thresholds.ram_high_pct (mem_used r) r.mem_total
      then pressure_request false (heaviest (select (λ v. is_running v.status) vms))
      else []

  unfoldable pub evaluate : List LocalVm → List MigrationRequest
  unfolding paging_request pressure_requests throttle_request remote_pct_gt vms_with_high_throttle
  evaluate vms =
      if r.mem_total == 0
      then []
      else map paging_request (select (remote_pct_gt p.thresholds.remote_paging_pct) vms)
        ++ pressure_requests vms
        ++ (if r.free_slots == 0 then map throttle_request (vms_with_high_throttle p vms) else [])

-- After one measurement of a running machine that is not in a critical state, the choice at a later
-- time is a cold migration exactly when that one measurement is below the idle limit and less than
-- the idle duration and 5 seconds old, whatever was measured before.
pub pick_migration_type-update_cpu_usage :
    (now later vm pct : ℕ) (p : MigrationPolicy)
    → now ≤ later
    → pick_migration_type later vm true false (update_cpu_usage now vm pct p) ≡ (
        if ltb pct p.thresholds.idle_cpu_pct
          && ltb (later - now) ((p.thresholds.idle_duration_secs + 5) * 1000)
        then cold
        else live)
unfolding pick_migration_type is_vm_idle update_cpu_usage
pick_migration_type-update_cpu_usage now later vm pct p h =
    ground (arith, lookup-insert_self ℕ_discrete vm (pct, now) p.cpu_cache)
