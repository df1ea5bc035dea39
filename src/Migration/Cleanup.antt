-- ===== src/Migration/Cleanup.antt =====
-- omega-daemon/src/vm_migration.rs, `cleanup_after_migration`: what the source node gives up after a
-- migration, of its pages, vCPU slots, quotas and video memory.
use omega_fusion_core_proxmo.Prelude.{ℕ, ◌≡◌, ◌≢◌, Option, none, List, arith, length, ℕ_discrete}
use mathlib.Core.Option
use omega_fusion_core_proxmo.Prelude.Assoc
use omega_fusion_core_proxmo.Prelude.Assoc.{lookup-remove_self}
use omega_fusion_core_proxmo.Store.{keys_for_vm}
use omega_fusion_core_proxmo.Tracker.{pages_stored_for}
use omega_fusion_core_proxmo.Tracker.Handlers.{NodeStore, delete_keys}
use omega_fusion_core_proxmo.Tracker.Synced.{IsTracked, of_vm-delete_keys, length-keys_for_vm}
use omega_fusion_core_proxmo.Vcpu.{VcpuScheduler, vm_of, release_vm}
use omega_fusion_core_proxmo.Quota.{Registry, quota_of, remove_quota}
use omega_fusion_core_proxmo.Gpu.Mux.{GpuBackend, GpuMux, release_gpu}

pub record GpuRuntime (B : Type 0) : Type 0 where
  pub mux : GpuMux B
  pub budgets : List (ℕ × ℕ)

pub record NodeState (B : Type 0) : Type 0 where
  pub node : NodeStore
  pub vcpu_scheduler : VcpuScheduler
  pub quota_registry : Registry
  pub gpu_runtime : Option (GpuRuntime B)

module _ {B : Type 0} (backend : GpuBackend B) (text : ℕ → List ℕ) where
  -- `GpuRuntime::release_vm`.
  unfoldable pub release_runtime : ℕ → GpuRuntime B → GpuRuntime B
  unfolding release_gpu
  release_runtime vm g = record {
    mux = release_gpu backend text vm g.mux;
    budgets = Assoc.remove ℕ_discrete vm g.budgets;
  }

  unfoldable pub cleanup_after_migration : ℕ → NodeState B → NodeState B
  unfolding release_runtime delete_keys
  cleanup_after_migration vm s = record {
    node = record s.node { store = delete_keys (keys_for_vm s.node.store vm) s.node.store };
    vcpu_scheduler = release_vm vm s.vcpu_scheduler;
    quota_registry = remove_quota vm s.quota_registry;
    gpu_runtime = Option.map (release_runtime vm) s.gpu_runtime;
  }

  release_vm-vm_of : (vm : ℕ) (s : VcpuScheduler) → vm_of (release_vm vm s) vm ≡ none
  unfolding release_vm
  release_vm-vm_of vm s = ground (arith, lookup-remove_self ℕ_discrete vm s.vms)

  -- Where the tracker of the source node counts each machine's pages in a consistent store, the
  -- cleanup after a migration leaves no page of the machine, as many of every other machine as the
  -- tracker has for it, and neither a vCPU state nor a quota of the machine, while the tracker
  -- still has for it the number of pages that were there.
  pub cleanup_after_migration-counts :
      (vm : ℕ) (s : NodeState B)
      → IsTracked s.node
      → (length (keys_for_vm (cleanup_after_migration vm s).node.store vm) ≡ 0)
        × (pages_stored_for (cleanup_after_migration vm s).node.tracker vm
            ≡ length (keys_for_vm s.node.store vm))
        × ((v : ℕ)
            → v ≢ vm
            → length (keys_for_vm (cleanup_after_migration vm s).node.store v)
              ≡ pages_stored_for (cleanup_after_migration vm s).node.tracker v)
        × (vm_of (cleanup_after_migration vm s).vcpu_scheduler vm ≡ none)
        × (quota_of (cleanup_after_migration vm s).quota_registry vm ≡ none)
  unfolding cleanup_after_migration remove_quota
  cleanup_after_migration-counts vm s t =
      let pages = s.node.store in
      let left = delete_keys (keys_for_vm pages vm) pages in
      (
        ground (arith, of_vm-delete_keys pages vm vm, length-keys_for_vm left vm),
        t.synced vm,
        λ v other. ground (
          arith,
          of_vm-delete_keys pages vm v,
          length-keys_for_vm left v,
          length-keys_for_vm pages v,
          t.synced v,
        ),
        release_vm-vm_of vm s.vcpu_scheduler,
        lookup-remove_self ℕ_discrete vm s.quota_registry,
      )
