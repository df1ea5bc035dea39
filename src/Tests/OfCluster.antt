-- ===== src/Tests/OfCluster.antt =====
-- Three stores: one has not answered, and one has got a page since its answer.
use omega_fusion_core_proxmo.Prelude.{none, some, false, [], ◌∷◌}
use omega_fusion_core_proxmo.Cluster.{
  NodeStatus, ClusterState, new_cluster, refresh, track_eviction,
}

abbrev small : NodeStatus
small = record {
  node_id = [];
  available_mib = 16;
  total_mib = 64;
  cpu_count = 4;
  has_gpu = false;
  gpu_count = 0;
  disk_available_mib = 0;
  disk_total_mib = 0;
  ceph_enabled = false;
  vcpu_total = 0;
  vcpu_free = 0;
}

abbrev three_stores : ClusterState
three_stores = track_eviction 0 (
    refresh ((0, some small) ∷ (1, none) ∷ (2, some record small { available_mib = 32 }) ∷ [])
      (new_cluster ([] ∷ [] ∷ [] ∷ []) ([] ∷ [] ∷ [] ∷ [])))
