-- ===== src/Cluster/Targets.antt =====
-- `select_eviction_targets`: the order of the stores and their pages.
use omega_fusion_core_proxmo.Prelude.{ℕ, ◌≤◌, ◌<◌, ◌≡◌, some, List, [], ◌∷◌, All, Member}
use omega_fusion_core_proxmo.Cluster.{NodeStatus, NodeSnapshot, ClusterState, delta_at, free_pages}

abbrev pub IsFalling : List (ℕ × ℕ) → Type 0
IsFalling [] = Unit {0}
IsFalling (x ∷ xs) = All (λ t. t.1 ≤ x.1) xs × IsFalling xs

-- A node that has answered, with a positive number of pages left.
pub record IsTarget (c : ClusterState) (t : ℕ × ℕ) : Type 0 where
  pub node : NodeSnapshot
  pub known : Member node c.nodes
  pub last : NodeStatus
  pub answered : node.last_status ≡ some last
  pub index : t.0 ≡ node.store_idx
  pub pages : t.1 ≡ free_pages last (delta_at node.store_idx c.local_delta)
  pub room : 0 < t.1
