-- ===== src/Policy/Rebalance.antt =====
-- omega-daemon/src/policy_engine.rs, the rebalancing of GPUs. Of a node's and a machine's payload the
-- fields that it reads are here; what the code computes in `i64` wraps around, as in a release build.
-- Ids are numbers. A time, an `f64`, has a parameter type; the comparison of times, the sort keys and
-- the comparison of loads, computed in `f64`, are parameters.
use omega_fusion_core_proxmo.Prelude.{
  ℕ, Bool, true, false, not, ◌&&◌, ◌||◌, Option, none, some, List, [], ◌∷◌, ◌++◌, lookup, leb, ◌==◌,
  if◌then◌else◌, select, ℕ_discrete,
}
use mathlib.Core.Option
use omega_fusion_core_proxmo.Prelude.Int.{ℤ, pos, ◌+ℤ◌, ◌-ℤ◌, ◌*ℤ◌, ltb_ℤ, leb_ℤ, wrap_i64}

pub record GpuVm : Type 0 where
  pub vm_id : ℕ
  pub max_mem_mib : ℤ
  pub gpu_vram_budget_mib : ℤ

pub record GpuNode : Type 0 where
  pub node_id : ℕ
  pub mem_total_kb : ℤ
  pub mem_available_kb : ℤ
  pub vcpu_total : ℤ
  pub vcpu_free : ℤ
  pub gpu_total_vram_mib : ℤ
  pub gpu_free_vram_mib : ℤ
  pub local_vms : List GpuVm

-- Thousandths of the percentages in use, whether the first node's GPU is busier than the second's by
-- at least `load_improvement_pct`, and the test `now - last < migration_cooldown_secs`.
pub record Loads (F : Type 0) : Type 0 where
  pub gpu_key : GpuNode → ℤ
  pub vcpu_key : GpuNode → ℤ
  pub ram_key : GpuNode → ℤ
  pub improves : GpuNode → GpuNode → Bool
  pub recent : (now last cooldown_secs : F) → Bool

pub record GpuRebalanceRequest (F : Type 0) : Type 0 where
  pub migration_cooldown_secs : F
  pub source_node : ℕ
  pub required_vcpus : ℤ
  pub gpu_budget_mib : ℤ
  pub now : F
  pub last_gpu_migrations : List (ℕ × F)
  pub vm : GpuVm
  pub nodes : List GpuNode

pub record GpuEviction : Type 0 where
  pub vm : GpuVm
  pub source : ℕ
  pub target : ℕ

-- The action with its node and its detail.
pub data GpuPlan : Type 0 where
  nothing : GpuPlan
  cooldown : GpuPlan
  direct_gpu_rebalance : ℕ → GpuPlan
  gpu_rebalance : ℕ → GpuPlan
  gpu_space_creation : ℕ → List GpuEviction → GpuPlan

unfoldable pub can_host : GpuNode → GpuVm → ℤ → ℤ → Bool
can_host n vm required_vcpus gpu_budget =
    if ltb_ℤ n.vcpu_free required_vcpus
    then false
    else if ltb_ℤ (pos 0) vm.max_mem_mib
        && ltb_ℤ n.mem_available_kb (wrap_i64 (vm.max_mem_mib *ℤ pos 1024))
    then false
    else if ltb_ℤ (pos 0) gpu_budget
        && (leb_ℤ n.gpu_total_vram_mib (pos 0) || ltb_ℤ n.gpu_free_vram_mib gpu_budget)
    then false
    else true

unfoldable pub node_named : ℕ → List GpuNode → Option GpuNode
node_named id [] = none
node_named id (n ∷ ns) = if n.node_id == id then some n else node_named id ns

unfoldable pub takes_evicted : ℕ → GpuVm → GpuNode → Bool
unfolding can_host
takes_evicted source_id vm n =
    not (n.node_id == source_id)
    && ltb_ℤ (pos 0) n.gpu_total_vram_mib
    && can_host n vm (pos 1) vm.gpu_vram_budget_mib

unfoldable pub first_id : List GpuNode → Option ℕ
first_id [] = none
first_id (n ∷ _) = some n.node_id

-- A resident with where it goes.
unfoldable pub movable_entry : ℕ → GpuVm → Option ℕ → List GpuEviction
movable_entry target_id resident none = []
movable_entry target_id resident (some t) =
    record { vm = resident; source = target_id; target = t } ∷ []

-- The largest budgets first, then the smaller ids.
unfoldable pub larger_first : GpuEviction → GpuEviction → Bool
larger_first a b =
    if ltb_ℤ b.vm.gpu_vram_budget_mib a.vm.gpu_vram_budget_mib
    then true
    else if ltb_ℤ a.vm.gpu_vram_budget_mib b.vm.gpu_vram_budget_mib
    then false
    else leb a.vm.vm_id b.vm.vm_id

unfoldable pub insert_by_budget : GpuEviction → List GpuEviction → List GpuEviction
unfolding larger_first
insert_by_budget e [] = e ∷ []
insert_by_budget e (x ∷ xs) = if larger_first e x then e ∷ x ∷ xs else x ∷ insert_by_budget e xs

unfoldable pub sort_by_budget : List GpuEviction → List GpuEviction
unfolding insert_by_budget
sort_by_budget [] = []
sort_by_budget (e ∷ es) = insert_by_budget e (sort_by_budget es)

-- The loop that selects, until enough is freed.
unfoldable pub free_enough : ℤ → ℤ → List GpuEviction → Option (List GpuEviction)
free_enough needed freed [] = none
free_enough needed freed (e ∷ es) =
    let freed' = wrap_i64 (freed +ℤ e.vm.gpu_vram_budget_mib) in
    let rest = free_enough needed freed' es in
    if leb_ℤ needed freed' then some (e ∷ []) else Option.map (λ s. e ∷ s) rest

-- A node that is large enough, were its GPU free.
unfoldable pub has_size : {F : Type 0} → GpuRebalanceRequest F → GpuNode → Bool
has_size req n =
    not (n.node_id == req.source_node)
    && leb_ℤ req.gpu_budget_mib n.gpu_total_vram_mib
    && leb_ℤ (wrap_i64 (req.vm.max_mem_mib *ℤ pos 1024)) n.mem_available_kb
    && leb_ℤ req.required_vcpus n.vcpu_free

unfoldable pub plan_of : Option (ℕ × List GpuEviction) → GpuPlan
plan_of none = nothing
plan_of (some (t, [])) = gpu_rebalance t
plan_of (some (t, e ∷ es)) = gpu_space_creation t (e ∷ es)

module _ {F : Type 0} (loads : Loads F) where
  unfoldable pub on_cooldown : GpuRebalanceRequest F → ℕ → Bool
  on_cooldown req vm = elim (lookup ℕ_discrete vm req.last_gpu_migrations) [
    | none ↦ false
    | some last ↦ loads.recent req.now last req.migration_cooldown_secs
  ]

  -- The key `-gpu_free_vram_mib`.
  unfoldable pub free_key : GpuNode → ℤ
  free_key n = wrap_i64 (pos 0 -ℤ n.gpu_free_vram_mib)

  -- The order of the keys of `sort_by_key`: a tie passes to the next key.
  unfoldable pub least_loaded : GpuNode → GpuNode → Bool
  unfolding free_key
  least_loaded a b =
      if ltb_ℤ (loads.gpu_key a) (loads.gpu_key b)
      then true
      else if ltb_ℤ (loads.gpu_key b) (loads.gpu_key a)
      then false
      else if ltb_ℤ (free_key a) (free_key b)
      then true
      else if ltb_ℤ (free_key b) (free_key a)
      then false
      else if ltb_ℤ (loads.vcpu_key a) (loads.vcpu_key b)
      then true
      else if ltb_ℤ (loads.vcpu_key b) (loads.vcpu_key a)
      then false
      else leb_ℤ (loads.ram_key a) (loads.ram_key b)

  unfoldable pub insert_by_load : GpuNode → List GpuNode → List GpuNode
  unfolding least_loaded
  insert_by_load n [] = n ∷ []
  insert_by_load n (x ∷ xs) = if least_loaded n x then n ∷ x ∷ xs else x ∷ insert_by_load n xs

  unfoldable pub sort_by_load : List GpuNode → List GpuNode
  unfolding insert_by_load
  sort_by_load [] = []
  sort_by_load (n ∷ ns) = insert_by_load n (sort_by_load ns)

  unfoldable pub accept_best : GpuRebalanceRequest F → GpuNode → List GpuNode → Option ℕ
  accept_best req source [] = none
  accept_best req source (best ∷ _) =
      if leb_ℤ source.gpu_total_vram_mib (pos 0)
        || ltb_ℤ source.gpu_free_vram_mib req.gpu_budget_mib
        || loads.improves source best
      then some best.node_id
      else none

  unfoldable pub gpu_candidate_target : GpuRebalanceRequest F → Option ℕ
  unfolding node_named accept_best sort_by_load can_host
  gpu_candidate_target req = elim (node_named req.source_node req.nodes) [
    | none ↦ none
    | some source ↦ accept_best req source (
        sort_by_load (
          select
            (λ n.
              not (n.node_id == req.source_node)
              && ltb_ℤ (pos 0) n.gpu_total_vram_mib
              && can_host n req.vm req.required_vcpus req.gpu_budget_mib)
            req.nodes))
  ]

  -- The blocked nodes are the one that is left, which is excluded already.
  unfoldable pub best_gpu_eviction_target : ℕ → GpuVm → List GpuNode → Option ℕ
  unfolding first_id sort_by_load takes_evicted
  best_gpu_eviction_target source_id vm nodes =
      first_id (sort_by_load (select (takes_evicted source_id vm) nodes))

  unfoldable pub movable : GpuRebalanceRequest F → ℕ → List GpuVm → List GpuEviction
  unfolding movable_entry best_gpu_eviction_target on_cooldown
  movable req target_id [] = []
  movable req target_id (r ∷ rs) =
      let rest = movable req target_id rs in
      if r.vm_id == req.vm.vm_id || leb_ℤ r.gpu_vram_budget_mib (pos 0)
      then rest
      else if on_cooldown req r.vm_id
      then rest
      else movable_entry target_id r (best_gpu_eviction_target target_id r req.nodes) ++ rest

  -- What is planned for one target; `none` passes to the next.
  unfoldable pub plan_for : GpuRebalanceRequest F → GpuNode → GpuNode → Option (List GpuEviction)
  unfolding movable sort_by_budget free_enough
  plan_for req source target =
      let needed = wrap_i64 (req.gpu_budget_mib -ℤ target.gpu_free_vram_mib) in
      if ltb_ℤ (pos 0) source.gpu_total_vram_mib
        && leb_ℤ req.gpu_budget_mib source.gpu_free_vram_mib
        && not (loads.improves source target)
      then none
      else if leb_ℤ needed (pos 0)
      then some []
      else free_enough needed (pos 0) (sort_by_budget (movable req target.node_id target.local_vms))

  unfoldable pub first_plan :
      GpuRebalanceRequest F → GpuNode → List GpuNode → Option (ℕ × List GpuEviction)
  unfolding plan_for
  first_plan req source [] = none
  first_plan req source (t ∷ ts) = elim (plan_for req source t) [
    | none ↦ first_plan req source ts
    | some es ↦ some (t.node_id, es)
  ]

  unfoldable pub find_gpu_space_creation_plan :
      GpuRebalanceRequest F → Option (ℕ × List GpuEviction)
  unfolding node_named first_plan sort_by_load has_size
  find_gpu_space_creation_plan req = elim (node_named req.source_node req.nodes) [
    | none ↦ none
    | some source ↦ first_plan req source (sort_by_load (select (has_size req) req.nodes))
  ]

  unfoldable pub evaluate_gpu_rebalance : GpuRebalanceRequest F → GpuPlan
  unfolding gpu_candidate_target find_gpu_space_creation_plan plan_of on_cooldown
  evaluate_gpu_rebalance req =
      if leb_ℤ req.gpu_budget_mib (pos 0)
      then nothing
      else if on_cooldown req req.vm.vm_id
      then cooldown
      else elim (gpu_candidate_target req) [
        | some t ↦ direct_gpu_rebalance t
        | none ↦ plan_of (find_gpu_space_creation_plan req)
      ]
