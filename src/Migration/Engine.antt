-- ===== src/Migration/Engine.antt =====
-- omega-daemon/src/eviction_engine.rs, `evaluate_eviction`: one cycle under memory pressure.
use omega_fusion_core_proxmo.Prelude.{
  ℕ, ◌+◌, ◌≡◌, refl, Bool, true, false, ◌||◌, List, [], ◌∷◌, ◌++◌, arith, leb, ◌==◌, if◌then◌else◌,
  select, length, map, Bool-cases, inl, inr, All, All-append, Option, none, some,
}
use omega_fusion_core_proxmo.Tracker.{LocalVm, is_running}
use omega_fusion_core_proxmo.Migration.{
  MigrationRequest, MigrationStatus, Executor, spawn, running_tasks, same_text, auto,
}
use omega_fusion_core_proxmo.Migration.Choice.{
  MigrationPolicy, Reading, mem_used, usage_ge, evaluate, paging_request, pressure_request,
  pressure_requests, throttle_request, remote_pct_gt, vms_with_high_throttle, heaviest,
  is_up_or_stopped,
}

-- Why a cycle was skipped, or the machines considered and the migrations started.
pub data EvictionResult : Type 0 where
  no_meminfo : EvictionResult
  below_threshold : EvictionResult
  no_running_vm : EvictionResult
  done : ℕ → ℕ → EvictionResult

unfoldable pub has_task : ℕ → List MigrationStatus → Bool
has_task vm [] = false
has_task vm (s ∷ ss) = (s.request.vm_id == vm) || has_task vm ss

-- The loop over the recommendations: at most one migration is started.
unfoldable pub trigger : List MigrationRequest → ℕ → Executor → Executor × ℕ
unfolding has_task running_tasks same_text spawn
trigger [] n x = (x, n)
trigger (req ∷ reqs) n x =
    let skip = trigger reqs n x in
    let go = trigger reqs (n + 1) (spawn req x).0 in
    if leb 1 n
    then (x, n)
    else if has_task req.vm_id (running_tasks x)
    then skip
    else if same_text req.target auto
    then skip
    else go

unfoldable pub evaluate_eviction :
    ℕ → MigrationPolicy → Reading → List LocalVm → Executor → Executor × EvictionResult
unfolding trigger evaluate usage_ge is_running
evaluate_eviction threshold p r vms x =
    let candidates = select (λ v. is_running v.status) vms in
    let (y, n) = trigger (evaluate p r vms) 0 x in
    if r.mem_total == 0
    then (x, no_meminfo)
    else if usage_ge threshold (mem_used r) r.mem_total
    then if length candidates == 0 then (x, no_running_vm) else (y, done (length candidates) n)
    else (x, below_threshold)

abbrev Unresolved : MigrationRequest → Type 0
Unresolved req = req.target ≡ auto

module _ {A : Type 0} (f : A → MigrationRequest) (h : (a : A) → Unresolved (f a)) where
  map-Unresolved : (xs : List A) → All Unresolved (map f xs)
  map-Unresolved [] = tt
  map-Unresolved (x ∷ xs) = (h x, map-Unresolved xs)

module _ (p : MigrationPolicy) (r : Reading) where
  pressure_request-Unresolved :
      (b : Bool) (o : Option LocalVm) → All Unresolved (pressure_request p r b o)
  unfolding pressure_request
  pressure_request-Unresolved b none = tt
  pressure_request-Unresolved b (some vm) = (refl, tt)

  pressure_requests-Unresolved : (vms : List LocalVm) → All Unresolved (pressure_requests p r vms)
  unfolding pressure_requests
  pressure_requests-Unresolved vms = ground (
    arith,
    pressure_request-Unresolved true (heaviest (select (λ v. is_up_or_stopped v.status) vms)),
    pressure_request-Unresolved false (heaviest (select (λ v. is_running v.status) vms)),
  )

  evaluate-Unresolved : (vms : List LocalVm) → All Unresolved (evaluate p r vms)
  unfolding evaluate paging_request throttle_request
  evaluate-Unresolved vms =
      let throttled =
        if r.free_slots == 0
        then map (throttle_request p r) (vms_with_high_throttle p vms)
        else [] in
      let all_throttled : All Unresolved throttled = elim (Bool-cases (r.free_slots == 0)) [
        | inl full ↦
            rw full
              (map-Unresolved (throttle_request p r) (λ _. refl) (vms_with_high_throttle p vms))
        | inr free ↦ rw free tt
      ] in
      let paged = select (remote_pct_gt p.thresholds.remote_paging_pct) vms in
      let requests = map (paging_request p r) paged in
      let all =
        All-append Unresolved (requests ++ pressure_requests p r vms) throttled
          (All-append Unresolved requests (pressure_requests p r vms)
            (map-Unresolved (paging_request p r) (λ _. refl) paged)
            (pressure_requests-Unresolved vms))
          all_throttled in
      elim (Bool-cases (r.mem_total == 0)) [ inl unread ↦ rw unread tt | inr read ↦ rw read all ]

trigger-Unresolved :
    (reqs : List MigrationRequest) (x : Executor) → All Unresolved reqs → trigger reqs 0 x ≡ (x, 0)
unfolding trigger same_text
trigger-Unresolved [] x u = refl
trigger-Unresolved (req ∷ reqs) x u = rw u.0 (ground (arith, trigger-Unresolved reqs x u.1))

-- One cycle of the eviction engine leaves the executor as it was, whatever the policy, the memory,
-- the machines and the threshold: every migration that the policy recommends has the target `auto`,
-- which the cycle passes over.
pub evaluate_eviction-spawns_none :
    (threshold : ℕ) (p : MigrationPolicy) (r : Reading) (vms : List LocalVm) (x : Executor)
    → (evaluate_eviction threshold p r vms x).0 ≡ x
unfolding evaluate_eviction
evaluate_eviction-spawns_none threshold p r vms x =
    ground (arith, trigger-Unresolved (evaluate p r vms) x (evaluate-Unresolved p r vms))
