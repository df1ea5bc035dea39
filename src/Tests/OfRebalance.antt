-- ===== src/Tests/OfRebalance.antt =====
-- Two nodes with a GPU each: a resident of the second one makes room for a machine of the first.
use omega_fusion_core_proxmo.Prelude.{
  ℕ, ◌-◌, ltb, arith, ◌≡◌, refl, true, some, List, [], ◌∷◌, lookup, ℕ_discrete,
}
use omega_fusion_core_proxmo.Prelude.Int.{pos, ◌-ℤ◌, ◌*ℤ◌, ◌+ℤ◌, wrap_i64}
use omega_fusion_core_proxmo.Policy.Rebalance.{
  GpuVm, GpuNode, Loads, GpuRebalanceRequest, GpuEviction, has_size, find_gpu_space_creation_plan,
  node_named, first_plan, plan_for, sort_by_load, insert_by_load, least_loaded, free_key, movable,
  movable_entry, best_gpu_eviction_target, takes_evicted, can_host, first_id, on_cooldown,
  sort_by_budget, insert_by_budget, free_enough,
}
use omega_fusion_core_proxmo.Policy.Room.{
  IsSized, IsLargeEnough, MakesRoom, find_gpu_space_creation_plan-MakesRoom,
}

abbrev loads : Loads ℕ
loads = record {
  gpu_key = λ n. n.gpu_total_vram_mib -ℤ n.gpu_free_vram_mib;
  vcpu_key = λ n. pos 0;
  ram_key = λ n. pos 0;
  improves = λ a b. true;
  recent = λ now last cooldown. ltb (now - last) cooldown;
}

abbrev arriving : GpuVm
arriving = record { vm_id = 7; max_mem_mib = pos 8; gpu_vram_budget_mib = pos 60 }

abbrev leaving : GpuVm
leaving = record { vm_id = 9; max_mem_mib = pos 4; gpu_vram_budget_mib = pos 40 }

abbrev full_node : GpuNode
full_node = record {
  node_id = 1;
  mem_total_kb = pos 90000;
  mem_available_kb = pos 50000;
  vcpu_total = pos 8;
  vcpu_free = pos 8;
  gpu_total_vram_mib = pos 50;
  gpu_free_vram_mib = pos 45;
  local_vms = arriving ∷ [];
}

abbrev next_node : GpuNode
next_node = record full_node {
  node_id = 2;
  gpu_total_vram_mib = pos 80;
  gpu_free_vram_mib = pos 30;
  local_vms = leaving ∷ [];
}

abbrev request : GpuRebalanceRequest ℕ
request = record {
  migration_cooldown_secs = 120;
  source_node = 1;
  required_vcpus = pos 2;
  gpu_budget_mib = pos 60;
  now = 1000;
  last_gpu_migrations = (9, 100) ∷ [];
  vm = arriving;
  nodes = full_node ∷ next_node ∷ [];
}

abbrev swap : List GpuEviction
swap = record { vm = leaving; source = 2; target = 1 } ∷ []

swap_planned : find_gpu_space_creation_plan loads request ≡ some (2, swap)
unfolding find_gpu_space_creation_plan node_named first_plan plan_for sort_by_load insert_by_load
    least_loaded movable movable_entry best_gpu_eviction_target takes_evicted can_host first_id
    on_cooldown sort_by_budget insert_by_budget free_enough has_size lookup ℕ_discrete ◌-ℤ◌ ◌*ℤ◌
    ◌+ℤ◌ wrap_i64 free_key
swap_planned = refl

request-IsSized : IsSized request
request-IsSized = ground arith

find_gpu_space_creation_plan-MakesRoom_example :
    (t : GpuNode) × IsLargeEnough request t × (t.node_id ≡ 2) × MakesRoom loads request t swap
find_gpu_space_creation_plan-MakesRoom_example =
    find_gpu_space_creation_plan-MakesRoom loads request 2 swap request-IsSized swap_planned
