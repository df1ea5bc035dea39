-- ===== src/Tests/OnTracker.antt =====
-- The daemon's store with two pages and its tracker.
use omega_fusion_core_proxmo.Prelude.{◌≡◌, [], ◌∷◌, lookup, ℕ_discrete, arith, ℕ, length}
use omega_fusion_core_proxmo.Wire.{Opcode, message}
use omega_fusion_core_proxmo.Store.{keys_for_vm}
use omega_fusion_core_proxmo.Tracker.{pages_stored_for}
use omega_fusion_core_proxmo.Tracker.Handlers.{NodeStore, dispatch_with_tracking, delete_vm_pages}
use omega_fusion_core_proxmo.Tracker.Synced.{
  IsTracked, dispatch_with_tracking-IsTracked, delete_vm_pages-IsTracked,
}
use omega_fusion_core_proxmo.Tests.Samples.{texts, page_of}
use omega_fusion_core_proxmo.Tests.InStore.{two_pages, two_pages-IsConsistent}

abbrev pub node : NodeStore
node = record {
  store = two_pages;
  tracker = record { local_vms = []; pages_stored_per_vm = (7, 1) ∷ (8, 1) ∷ [] };
}

node-synced : (vm : ℕ) → pages_stored_for node.tracker vm ≡ length (keys_for_vm node.store vm)
unfolding pages_stored_for keys_for_vm lookup
node-synced vm = ground arith

pub node-IsTracked : IsTracked node
node-IsTracked = record { consistent = two_pages-IsConsistent; synced = node-synced }

dispatch_with_tracking-IsTracked_example :
    IsTracked (dispatch_with_tracking texts (message Opcode.put_page 7 5 (page_of 4)) 10 30 node).0
dispatch_with_tracking-IsTracked_example =
    dispatch_with_tracking-IsTracked texts (message Opcode.put_page 7 5 (page_of 4)) 10 30 node
      node-IsTracked (omega arith)

delete_vm_pages-IsTracked_example :
    IsTracked (delete_vm_pages 7 node).0
    × ((delete_vm_pages 7 node).1 ≡ 1)
    × (pages_stored_for (delete_vm_pages 7 node).0.tracker 7 ≡ 0)
unfolding pages_stored_for lookup ℕ_discrete
delete_vm_pages-IsTracked_example = delete_vm_pages-IsTracked 7 node node-IsTracked
