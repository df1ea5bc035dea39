-- ===== src/Tests/OfQuotas.antt =====
-- Quotas of one machine.
use omega_fusion_core_proxmo.Prelude.{
  lookup, ℕ_discrete, ℕ, ◌≡◌, ◌≤◌, refl, none, some, List, [], ◌∷◌, arith,
}
use omega_fusion_core_proxmo.Prelude.Assoc.{insert, modify}
use omega_fusion_core_proxmo.Quota.{
  VmQuota, new_quota, quota_of, set, check_put, check_quota, is_allowed, record_put, add_used,
  record_delete, sub_used, extra_mib, ceil_mib,
}
use omega_fusion_core_proxmo.Quota.Budget.{
  Request, configure, store_page, delete_page, handle, requested_quota, run, last_setting,
  setting_of, run-AllWithin,
}

abbrev requests : List (ℕ × Request)
requests =
    (0, configure 7 512 256 (some 64))
    ∷ (1, configure 7 2048 1024 none)
    ∷ (2, store_page 7 4096)
    ∷ (3, store_page 7 4096)
    ∷ (4, delete_page 7 4096)
    ∷ []

abbrev quota_then : VmQuota
quota_then = record (new_quota 1 7 2048 1024) { remote_used_mib = 1; updated_at = 3 }

quota_after_requests : quota_of (run requests []) 7 ≡ some quota_then
unfolding run handle requested_quota set record_put record_delete add_used sub_used ceil_mib
    check_put check_quota is_allowed extra_mib new_quota insert modify lookup ℕ_discrete
quota_after_requests = refl

run-AllWithin_example :
    (quota_then.remote_used_mib ≤ quota_then.remote_budget_mib)
    × (last_setting requests 7 none ≡ some (setting_of quota_then))
run-AllWithin_example =
    run-AllWithin requests 7 quota_then
      (omega arith, (omega arith, (omega arith, (omega arith, (tt, tt))))) quota_after_requests
