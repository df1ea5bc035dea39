-- ===== src/Quota.antt =====
-- omega-daemon/src/quota.rs: the memory quota of each virtual machine. `SystemTime::now()` is an
-- argument, `u64` sums and products wrap, and percentages (`f64`) are left out. The `f64` quotient
-- that `record_put` and `record_delete` round up is exact for sizes below 2^53.
pub mod Budget
pub mod Balloon
pub mod PageCost
use omega_fusion_core_proxmo.Prelude.{
  ℕ, ◌+◌, ◌-◌, ◌*◌, ◌/◌, ◌%◌, ◌^◌, min, max, Bool, true, false, not, Option, none, some, List, [],
  ◌∷◌, lookup, ltb, leb, ◌==◌, if◌then◌else◌, length, select, ℕ_discrete,
}
use omega_fusion_core_proxmo.Prelude.Assoc
use omega_fusion_core_proxmo.Prelude.Assoc.{values}

abbrev pub page_size_bytes : ℕ
page_size_bytes = 4096

abbrev pub mib : ℕ
mib = 1024 * 1024

pub record VmQuota : Type 0 where
  pub vm_id : ℕ
  pub max_mem_mib : ℕ
  pub local_budget_mib : ℕ
  pub remote_budget_mib : ℕ
  pub remote_used_mib : ℕ
  pub created_at : ℕ
  pub updated_at : ℕ

-- `VmQuota::new`.
unfoldable pub new_quota : ℕ → ℕ → ℕ → ℕ → VmQuota
new_quota now vm max_mem local = record {
  vm_id = vm;
  max_mem_mib = max_mem;
  local_budget_mib = local;
  remote_budget_mib = max_mem - local;
  remote_used_mib = 0;
  created_at = now;
  updated_at = now;
}

unfoldable pub max_remote_pages : VmQuota → ℕ
max_remote_pages q = q.remote_budget_mib * 1024 % 2 ^ 64 * 1024 % 2 ^ 64 / page_size_bytes

unfoldable pub used_remote_pages : VmQuota → ℕ
used_remote_pages q = q.remote_used_mib * 1024 % 2 ^ 64 * 1024 % 2 ^ 64 / page_size_bytes

unfoldable pub remaining_remote_pages : VmQuota → ℕ
unfolding max_remote_pages used_remote_pages
remaining_remote_pages q = max_remote_pages q - used_remote_pages q

unfoldable pub is_remote_full : VmQuota → Bool
is_remote_full q = leb q.remote_budget_mib q.remote_used_mib

unfoldable pub adjust_for_balloon : ℕ → ℕ → VmQuota → VmQuota
adjust_for_balloon now actual q =
    let new_local = min actual q.max_mem_mib in
    let new_remote = q.max_mem_mib - new_local in
    if new_remote == q.remote_budget_mib then q else (record q {
      remote_budget_mib = new_remote;
      local_budget_mib = new_local;
      updated_at = now;
    })

pub data QuotaCheck : Type 0 where
  allowed no_quota : QuotaCheck
  exceeded : ℕ → ℕ → ℕ → QuotaCheck

unfoldable pub is_allowed : QuotaCheck → Bool
is_allowed allowed = true
is_allowed no_quota = true
is_allowed (exceeded _ _ _) = false

-- `QuotaRegistry`: the map under its lock.
abbrev pub Registry : Type 0
Registry = List (ℕ × VmQuota)

abbrev pub quota_of : Registry → ℕ → Option VmQuota
quota_of r vm = lookup ℕ_discrete vm r

unfoldable pub set : VmQuota → Registry → Registry
set q r = Assoc.insert ℕ_discrete q.vm_id q r

unfoldable pub remove_quota : ℕ → Registry → Registry
remove_quota vm r = Assoc.remove ℕ_discrete vm r

-- `page_size_bytes.div_ceil(1024 * 1024).max(1)`.
unfoldable pub extra_mib : ℕ → ℕ
extra_mib size = max ((size + (mib - 1)) / mib) 1

unfoldable pub check_quota : VmQuota → ℕ → QuotaCheck
unfolding extra_mib
check_quota q size =
    if ltb q.remote_budget_mib ((q.remote_used_mib + extra_mib size) % 2 ^ 64)
    then exceeded q.vm_id q.remote_used_mib q.remote_budget_mib
    else allowed

unfoldable pub check_put : Registry → ℕ → ℕ → QuotaCheck
check_put r vm size = elim (quota_of r vm) [ none ↦ no_quota | some q ↦ check_quota q size ]

-- `(page_size_bytes as f64 / (1024.0 * 1024.0)).ceil() as u64`.
unfoldable pub ceil_mib : ℕ → ℕ
ceil_mib size = (size + (mib - 1)) / mib

unfoldable pub add_used : ℕ → ℕ → VmQuota → VmQuota
unfolding ceil_mib
add_used now size q = record q {
  remote_used_mib = (q.remote_used_mib + ceil_mib size) % 2 ^ 64;
  updated_at = now;
}

unfoldable pub record_put : ℕ → ℕ → ℕ → Registry → Registry
record_put now vm size r = Assoc.modify ℕ_discrete vm (add_used now size) r

unfoldable pub sub_used : ℕ → VmQuota → VmQuota
unfolding ceil_mib
sub_used size q = record q { remote_used_mib = q.remote_used_mib - ceil_mib size }

unfoldable pub record_delete : ℕ → ℕ → Registry → Registry
record_delete vm size r = Assoc.modify ℕ_discrete vm (sub_used size) r

unfoldable pub clear_used : VmQuota → VmQuota
clear_used q = record q { remote_used_mib = 0 }

unfoldable pub record_delete_vm : ℕ → Registry → Registry
record_delete_vm vm r = Assoc.modify ℕ_discrete vm clear_used r

unfoldable pub apply_balloon_update : ℕ → ℕ → ℕ → Registry → Registry
apply_balloon_update now vm actual r = Assoc.modify ℕ_discrete vm (adjust_for_balloon now actual) r

pub record QuotaSummary : Type 0 where
  pub vm_count : ℕ
  pub total_budget_mib : ℕ
  pub total_used_mib : ℕ
  pub vms_at_quota : ℕ

abbrev total : (VmQuota → ℕ) → List VmQuota → ℕ
total f [] = 0
total f (q ∷ qs) = (f q + total f qs) % 2 ^ 64

unfoldable pub summary : Registry → QuotaSummary
unfolding is_remote_full
summary r = record {
  vm_count = length r % 2 ^ 32;
  total_budget_mib = total (λ q. q.remote_budget_mib) (values r);
  total_used_mib = total (λ q. q.remote_used_mib) (values r);
  vms_at_quota = length (select is_remote_full (values r)) % 2 ^ 32;
}
