-- ===== src/Tracker.antt =====
-- omega-daemon/src/vm_tracker.rs: the local machines and the pages that this node stores for each
-- machine. What the scan of the file system finds is an argument.
pub mod Handlers
pub mod Counts
pub mod Synced
use omega_fusion_core_proxmo.Prelude.{
  ℕ, suc, ◌+◌, ◌-◌, ◌*◌, ◌/◌, ◌%◌, ◌^◌, min, Bool, true, false, ◌&&◌, Option, none, some, List, [],
  ◌∷◌, lookup, leb, ltb, ◌==◌, if◌then◌else◌, select, ℕ_discrete,
}
use mathlib.Core.Option
use omega_fusion_core_proxmo.Prelude.Int.{ℤ, pos, negsuc}
use omega_fusion_core_proxmo.Prelude.Assoc
use omega_fusion_core_proxmo.Prelude.Assoc.{values}

pub data VmStatus : Type 0 where
  running stopped unknown : VmStatus

pub record LocalVm : Type 0 where
  pub vmid : ℕ
  pub pid : Option ℕ
  pub max_mem_mib : ℕ
  pub rss_kb : ℕ
  pub local_stored_pages : ℕ
  pub remote_pages : ℕ
  pub status : VmStatus

unfoldable pub max_mem_kb : LocalVm → ℕ
max_mem_kb vm = vm.max_mem_mib * 1024 % 2 ^ 64

unfoldable pub remote_mem_mib : LocalVm → ℕ
remote_mem_mib vm = vm.remote_pages * 4 % 2 ^ 64 / 1024

pub record VmTracker : Type 0 where
  pub local_vms : List (ℕ × LocalVm)
  pub pages_stored_per_vm : List (ℕ × ℕ)

unfoldable pub new_tracker : VmTracker
new_tracker = record { local_vms = []; pages_stored_per_vm = [] }

-- `get(&vm_id).map(|v| *v).unwrap_or(0)`.
unfoldable pub pages_stored_for : VmTracker → ℕ → ℕ
pages_stored_for t vm = Option.get_or (lookup ℕ_discrete vm t.pages_stored_per_vm) 0

-- `saturating_add` and `saturating_sub` of `u64`, by the sign of the delta.
unfoldable pub add_delta : ℤ → ℕ → ℕ
add_delta (pos d) n = min (n + d) (2 ^ 64 - 1)
add_delta (negsuc d) n = n - suc d

-- `entry(vm_id).or_insert(0)`, then the change in place.
unfoldable pub record_page_stored : ℕ → ℤ → VmTracker → VmTracker
unfolding pages_stored_for
record_page_stored vm delta t = record t {
  pages_stored_per_vm =
      Assoc.insert ℕ_discrete vm (add_delta delta (pages_stored_for t vm)) t.pages_stored_per_vm;
}

-- A file `{vmid}.pid`: its content, and what `/etc/pve` and `/proc` say of the machine.
pub record PidFile : Type 0 where
  pub vmid : ℕ
  pub pid : Option ℕ
  pub conf_max_mem : Option ℕ
  pub proc_rss : ℕ → Option ℕ

unfoldable pub is_some : Option ℕ → Bool
is_some none = false
is_some (some _) = true

unfoldable pub discovered : VmTracker → PidFile → LocalVm
unfolding is_some pages_stored_for
discovered t f = record {
  vmid = f.vmid;
  pid = f.pid;
  max_mem_mib = Option.get_or f.conf_max_mem 0;
  rss_kb = elim f.pid [ none ↦ 0 | some p ↦ Option.get_or (f.proc_rss p) 0 ];
  local_stored_pages = pages_stored_for t f.vmid;
  remote_pages = 0;
  status = if is_some f.pid then running else stopped;
}

unfoldable pub add_discovered : VmTracker → List PidFile → List (ℕ × LocalVm) → List (ℕ × LocalVm)
unfolding discovered
add_discovered t [] vms = vms
add_discovered t (f ∷ files) vms =
    add_discovered t files (Assoc.insert ℕ_discrete f.vmid (discovered t f) vms)

-- The old entries are dropped first; `none` is a missing directory.
unfoldable pub refresh_local_vms : Option (List PidFile) → VmTracker → VmTracker
unfolding add_discovered
refresh_local_vms none t = record t { local_vms = [] }
refresh_local_vms (some files) t = record t { local_vms = add_discovered t files [] }

unfoldable pub update_remote_pages : ℕ → ℕ → VmTracker → VmTracker
update_remote_pages vm count t = record t {
  local_vms = Assoc.modify ℕ_discrete vm (λ v. record v { remote_pages = count }) t.local_vms;
}

unfoldable pub is_running : VmStatus → Bool
is_running running = true
is_running _ = false

unfoldable pub local_running_vms : VmTracker → List LocalVm
unfolding is_running
local_running_vms t = select (λ vm. is_running vm.status) (values t.local_vms)

unfoldable pub migration_candidates : ℕ → VmTracker → List LocalVm
unfolding is_running
migration_candidates threshold t =
    select (λ vm. is_running vm.status && leb threshold vm.remote_pages) (values t.local_vms)
