-- ===== src/Quota/PageCost.antt =====
-- What a page costs: `record_put` rounds each page up to a whole MiB.
use omega_fusion_core_proxmo.Prelude.{
  ℕ, zero, suc, ◌+◌, ◌-◌, ◌*◌, ◌^◌, ◌≤◌, ◌<◌, ◌≡◌, ◌∙◌, ap, refl, arith, false, if◌then◌else◌,
}
use omega_fusion_core_proxmo.Quota.{
  VmQuota, new_quota, page_size_bytes, add_used, check_quota, is_allowed, max_remote_pages,
}

-- One page, if the check lets it pass.
unfoldable pub store_page : ℕ → VmQuota → VmQuota
store_page now q =
    if is_allowed (check_quota q page_size_bytes) then add_used now page_size_bytes q else q

-- A quota after so many pages.
unfoldable pub store_pages : ℕ → ℕ → VmQuota → VmQuota
store_pages zero now q = q
store_pages (suc n) now q = store_pages n now (store_page now q)

store_page_lem :
    (now : ℕ) (q : VmQuota)
    → q.remote_budget_mib < 2 ^ 63
    → q.remote_used_mib < q.remote_budget_mib
    → store_page now q ≡ record q { remote_used_mib = q.remote_used_mib + 1; updated_at = now }
unfolding store_page add_used check_quota is_allowed
store_page_lem now q small room = ground arith

-- A machine with a remote budget of `b` MiB is granted `b` pages of 4 KiB.
used-store_pages :
    (n now : ℕ) (q : VmQuota)
    → q.remote_budget_mib < 2 ^ 63
    → q.remote_used_mib + n ≤ q.remote_budget_mib
    → ((store_pages n now q).remote_used_mib ≡ q.remote_used_mib + n)
      × ((store_pages n now q).remote_budget_mib ≡ q.remote_budget_mib)
unfolding store_pages
used-store_pages zero now q small room = (omega arith, refl)
used-store_pages (suc n) now q small room =
    let next = record q { remote_used_mib = q.remote_used_mib + 1; updated_at = now } in
    let same : store_page now q ≡ next = store_page_lem now q small (omega arith) in
    let (used, budget) = used-store_pages n now next small (omega arith) in
    (
      ap (λ p. (store_pages n now p).remote_used_mib) same ∙ used ∙ omega arith,
      ap (λ p. (store_pages n now p).remote_budget_mib) same ∙ budget,
    )

-- For a machine with less than 2^43 MiB and a local budget below its memory: when as many pages as
-- its remote budget has MiB have been checked and recorded, the next page is refused, although
-- `max_remote_pages` is 256 times as many.
pub page_quota_exhausted :
    (now vm max_mem local : ℕ)
    → max_mem < 2 ^ 43
    → local < max_mem
    → let q = new_quota now vm max_mem local in
      (is_allowed (check_quota (store_pages (max_mem - local) now q) page_size_bytes) ≡ false)
      × (max_remote_pages q ≡ 256 * (max_mem - local))
unfolding check_quota is_allowed max_remote_pages new_quota
page_quota_exhausted now vm max_mem local small below =
    let (used, budget) =
      used-store_pages (max_mem - local) now (new_quota now vm max_mem local) (omega arith)
        (omega arith) in
    (ground (arith, used, budget), omega arith)
