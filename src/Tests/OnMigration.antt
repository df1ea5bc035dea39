-- ===== src/Tests/OnMigration.antt =====
-- A node under memory pressure, and a migration with its background task.
use omega_fusion_core_proxmo.Prelude.{
  ℕ, ◌≡◌, ◌≢◌, refl, false, none, some, [], ◌∷◌, arith, length, lookup, ℕ_discrete,
}
use omega_fusion_core_proxmo.Prelude.Assoc
use omega_fusion_core_proxmo.Store.{keys_for_vm}
use omega_fusion_core_proxmo.Tracker.{VmStatus, LocalVm, pages_stored_for}
use omega_fusion_core_proxmo.Vcpu.{new_scheduler, vm_of}
use omega_fusion_core_proxmo.Quota.{quota_of}
use omega_fusion_core_proxmo.Migration.{
  MigrationRequest, live, admin_request, MigrationStatus, success, new_executor, qm_error, status,
  is_under_way,
}
use omega_fusion_core_proxmo.Migration.Choice.{MigrationPolicy, Reading, default_thresholds}
use omega_fusion_core_proxmo.Migration.Engine.{evaluate_eviction, evaluate_eviction-spawns_none}
use omega_fusion_core_proxmo.Migration.Cleanup.{
  NodeState, cleanup_after_migration, cleanup_after_migration-counts,
}
use omega_fusion_core_proxmo.Migration.Tasks.{
  Background, IsAccounted, spawned, started, finished, Steps, stay, then_step, over, after_spawn,
  after_start, after_finish, Steps-status_over, phase_of,
}
use omega_fusion_core_proxmo.Tests.OnTracker.{node, node-IsTracked}
use omega_fusion_core_proxmo.Tests.OnGpu.{counting_gpu, one_machine, texts}

abbrev heavy : LocalVm
heavy = record {
  vmid = 7;
  pid = some 4711;
  max_mem_mib = 4096;
  rss_kb = 4000000;
  local_stored_pages = 0;
  remote_pages = 900000;
  status = VmStatus.running;
}

abbrev pressed : Reading
pressed = record { now = 5000; mem_total = 1000; mem_available = 20; free_slots = 0 }

abbrev policy : MigrationPolicy
policy = record {
  thresholds = default_thresholds;
  node_id = 65 ∷ [];
  cpu_cache = (7, (16000, 4000)) ∷ [];
}

evaluate_eviction-spawns_none_example :
    (evaluate_eviction 7500 policy pressed (heavy ∷ []) new_executor).0 ≡ new_executor
evaluate_eviction-spawns_none_example =
    evaluate_eviction-spawns_none 7500 policy pressed (heavy ∷ []) new_executor

abbrev source_node : NodeState ℕ
source_node = record {
  node = node;
  vcpu_scheduler = new_scheduler 2;
  quota_registry = [];
  gpu_runtime = some record { mux = one_machine; budgets = (7, 64) ∷ [] };
}

cleanup_after_migration-counts_example :
    (length (keys_for_vm (cleanup_after_migration counting_gpu texts 7 source_node).node.store 7)
      ≡ 0)
    × (pages_stored_for (cleanup_after_migration counting_gpu texts 7 source_node).node.tracker 7
        ≡ length (keys_for_vm node.store 7))
    × ((v : ℕ)
        → v ≢ 7
        → length
            (keys_for_vm (cleanup_after_migration counting_gpu texts 7 source_node).node.store v)
          ≡ pages_stored_for
              (cleanup_after_migration counting_gpu texts 7 source_node).node.tracker
              v)
    × (vm_of (cleanup_after_migration counting_gpu texts 7 source_node).vcpu_scheduler 7 ≡ none)
    × (quota_of (cleanup_after_migration counting_gpu texts 7 source_node).quota_registry 7 ≡ none)
cleanup_after_migration-counts_example =
    cleanup_after_migration-counts counting_gpu texts 7 source_node node-IsTracked

abbrev move_seven : MigrationRequest
move_seven = record {
  vm_id = 7;
  source = 65 ∷ [];
  target = 66 ∷ [];
  mtype = live;
  reason = admin_request;
  with_local_disks = false;
}

abbrev moved : MigrationStatus
moved = record { task_id = 1; request = move_seven; state = success; elapsed_ms = 90; error = none }

-- The first migration is over.
abbrev one_over : Background
one_over = record {
  executor = record { tasks = (1, moved) ∷ []; next_id = 2 };
  phases = (1, over) ∷ [];
}

one_over-IsAccounted : IsAccounted one_over
unfolding lookup ℕ_discrete phase_of
one_over-IsAccounted = record { agreed = λ id. ground arith; fresh = λ id h. ground arith }

abbrev second : Background
second = after_start 2 (after_spawn move_seven one_over)

second-Steps : Steps one_over (after_finish 2 (qm_error (1 ∷ [])) 40 second)
unfolding lookup ℕ_discrete after_spawn after_start Assoc.insert
second-Steps =
    then_step (then_step (then_step stay (spawned move_seven (omega arith))) (started 2 refl))
      (finished 2 (qm_error (1 ∷ [])) 40 refl)

Steps-status_over_example :
    status (after_finish 2 (qm_error (1 ∷ [])) 40 second).executor 1 ≡ some moved
unfolding lookup ℕ_discrete is_under_way
Steps-status_over_example = Steps-status_over second-Steps 1 moved one_over-IsAccounted refl refl
