-- ===== src/Quota/Balloon.antt =====
-- What a balloon update does to a quota.
use omega_fusion_core_proxmo.Prelude.{ℕ, ◌-◌, ◌^◌, ◌≤◌, ◌<◌, ◌≡◌, ◌↔◌, min, arith, ℕ_discrete, some}
use omega_fusion_core_proxmo.Prelude.Assoc.{lookup-modify}
use omega_fusion_core_proxmo.Quota.{
  VmQuota, Registry, quota_of, adjust_for_balloon, apply_balloon_update,
}
use omega_fusion_core_proxmo.Quota.Budget.{IsWithin}

-- `adjust_for_balloon` keeps a quota of less than 2^63 MiB that is within its budget within it
-- exactly when what is used fits the memory beside the balloon.
pub adjust_for_balloon-IsWithin_iff :
    (now actual : ℕ) (q : VmQuota)
    → IsWithin q
    → q.max_mem_mib < 2 ^ 63
    → (IsWithin (adjust_for_balloon now actual q)
        ↔ (q.remote_used_mib ≤ q.max_mem_mib - min actual q.max_mem_mib))
unfolding adjust_for_balloon
adjust_for_balloon-IsWithin_iff now actual q v m =
    ((λ w. ground (arith, w.used)), λ h. record { small = ground (arith, m); used = ground arith })

-- Where the machine has a quota and uses more remote memory than is left beside the balloon,
-- `apply_balloon_update` leaves it registered with the same use and a remote budget below that use.
pub apply_balloon_update_overshoot :
    (now vm actual : ℕ) (r : Registry) (q : VmQuota)
    → quota_of r vm ≡ some q
    → q.max_mem_mib - min actual q.max_mem_mib < q.remote_used_mib
    → (w : VmQuota) × (quota_of (apply_balloon_update now vm actual r) vm ≡ some w)
      × (w.remote_used_mib ≡ q.remote_used_mib)
      × (w.remote_budget_mib < w.remote_used_mib)
unfolding apply_balloon_update
apply_balloon_update_overshoot now vm actual r q found over = (
  adjust_for_balloon now actual q,
  ground (arith, lookup-modify ℕ_discrete vm vm (adjust_for_balloon now actual) r),
  unfold adjust_for_balloon in ground arith,
  unfold adjust_for_balloon in ground arith,
)
