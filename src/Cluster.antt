-- ===== src/Cluster.antt =====
-- node-a-agent/src/cluster.rs: what the agent knows of the stores, and the order in which it sends
-- pages to them. The HTTP answers are arguments; addresses are texts, as lists of bytes.
pub mod Targets
use omega_fusion_core_proxmo.Prelude.{
  ℕ, zero, suc, ◌++◌, ◌*◌, ◌/◌, ◌^◌, ◌-◌, min, Bool, true, false, ◌&&◌, Option, none, some, List,
  [], ◌∷◌, ltb, ◌==◌, if◌then◌else◌,
}
use omega_fusion_core_proxmo.Prelude.Int.{ℤ, pos, negsuc, ◌+ℤ◌, pos_part}

pub record NodeStatus : Type 0 where
  pub node_id : List ℕ
  pub available_mib : ℕ
  pub total_mib : ℕ
  pub cpu_count : ℕ
  pub has_gpu : Bool
  pub gpu_count : ℕ
  pub disk_available_mib : ℕ
  pub disk_total_mib : ℕ
  pub ceph_enabled : Bool
  pub vcpu_total : ℕ
  pub vcpu_free : ℕ

pub record NodeSnapshot : Type 0 where
  pub store_idx : ℕ
  pub store_addr : List ℕ
  pub status_addr : List ℕ
  pub last_status : Option NodeStatus

pub record ClusterState : Type 0 where
  pub nodes : List NodeSnapshot
  pub local_delta : List ℤ

-- The stores with their status addresses, from an index on; a store without one has no node.
unfoldable pub snapshots : ℕ → List (List ℕ) → List (List ℕ) → List NodeSnapshot
snapshots i [] ss = []
snapshots i (a ∷ rest) [] = []
snapshots i (a ∷ rest) (s ∷ ss) =
    record { store_idx = i; store_addr = a; status_addr = s; last_status = none }
    ∷ snapshots (suc i) rest ss

unfoldable pub no_deltas : List (List ℕ) → List ℤ
no_deltas [] = []
no_deltas (a ∷ rest) = pos 0 ∷ no_deltas rest

unfoldable pub new_cluster : List (List ℕ) → List (List ℕ) → ClusterState
unfolding snapshots no_deltas
new_cluster store_addrs status_addrs = record {
  nodes = snapshots 0 store_addrs status_addrs;
  local_delta = no_deltas store_addrs;
}

-- `get(i)`, with a change in place; nothing happens out of range.
unfoldable pub at_delta : ℕ → (ℤ → ℤ) → List ℤ → List ℤ
at_delta i f [] = []
at_delta zero f (d ∷ ds) = f d ∷ ds
at_delta (suc i) f (d ∷ ds) = d ∷ at_delta i f ds

-- `.map(|d| d.load(...)).unwrap_or(0)`.
unfoldable pub delta_at : ℕ → List ℤ → ℤ
delta_at i [] = pos 0
delta_at zero (d ∷ ds) = d
delta_at (suc i) (d ∷ ds) = delta_at i ds

unfoldable pub track_eviction : ℕ → ClusterState → ClusterState
unfolding at_delta
track_eviction i c = record c { local_delta = at_delta i (λ d. d +ℤ negsuc 0) c.local_delta }

unfoldable pub track_recall : ℕ → ClusterState → ClusterState
unfolding at_delta
track_recall i c = record c { local_delta = at_delta i (λ d. d +ℤ pos 1) c.local_delta }

unfoldable pub has_node : ℕ → List NodeSnapshot → Bool
has_node i [] = false
has_node i (n ∷ ns) = if n.store_idx == i then true else has_node i ns

-- The status goes to the first node of the index.
unfoldable pub set_last_status : ℕ → NodeStatus → List NodeSnapshot → List NodeSnapshot
set_last_status i s [] = []
set_last_status i s (n ∷ ns) =
    if n.store_idx == i then record n { last_status = some s } ∷ ns else n ∷ set_last_status i s ns

-- The answers in the order of the nodes; `none` is a store that did not answer.
unfoldable pub refresh : List (ℕ × Option NodeStatus) → ClusterState → ClusterState
unfolding has_node set_last_status at_delta
refresh [] c = c
refresh ((i, none) ∷ rs) c = refresh rs c
refresh ((i, some s) ∷ rs) c =
    if has_node i c.nodes
    then refresh rs record {
      nodes = set_last_status i s c.nodes;
      local_delta = at_delta i (λ _. pos 0) c.local_delta;
    }
    else refresh rs c

-- `(base + delta).max(0)`; `base` is a quarter of a product that stays at 2^64 - 1.
unfoldable pub free_pages : NodeStatus → ℤ → ℕ
free_pages s delta = pos_part (pos (min (s.available_mib * 1024) (2 ^ 64 - 1) / 4) +ℤ delta)

-- `sort_by(|a, b| b.1.cmp(&a.1))`, as a stable insertion sort.
unfoldable pub insert_by_pages : ℕ × ℕ → List (ℕ × ℕ) → List (ℕ × ℕ)
insert_by_pages t [] = t ∷ []
insert_by_pages t (x ∷ xs) = if ltb t.1 x.1 then x ∷ insert_by_pages t xs else t ∷ x ∷ xs

unfoldable pub sort_by_pages : List (ℕ × ℕ) → List (ℕ × ℕ)
unfolding insert_by_pages
sort_by_pages [] = []
sort_by_pages (t ∷ ts) = insert_by_pages t (sort_by_pages ts)

-- A node with a status and pages left.
unfoldable pub target_of : List ℤ → NodeSnapshot → Option NodeStatus → List (ℕ × ℕ)
unfolding free_pages delta_at
target_of ds n none = []
target_of ds n (some s) =
    let pages = free_pages s (delta_at n.store_idx ds) in
    if ltb 0 pages then (n.store_idx, pages) ∷ [] else []

unfoldable pub targets : List ℤ → List NodeSnapshot → List (ℕ × ℕ)
unfolding target_of
targets ds [] = []
targets ds (n ∷ ns) = target_of ds n n.last_status ++ targets ds ns

unfoldable pub select_eviction_targets : ClusterState → List (ℕ × ℕ)
unfolding targets sort_by_pages
select_eviction_targets c = sort_by_pages (targets c.local_delta c.nodes)

-- The statuses that were reported.
unfoldable pub reported : List NodeSnapshot → List NodeStatus
reported [] = []
reported (n ∷ ns) = elim n.last_status [ none ↦ reported ns | some s ↦ s ∷ reported ns ]

unfoldable pub every_ceph : List NodeStatus → Bool
every_ceph [] = true
every_ceph (s ∷ ss) = s.ceph_enabled && every_ceph ss

unfoldable pub any_reported : List NodeStatus → Bool
unfolding every_ceph
any_reported [] = false
any_reported (s ∷ ss) = every_ceph (s ∷ ss)

unfoldable pub all_ceph_enabled : ClusterState → Bool
unfolding any_reported reported every_ceph
all_ceph_enabled c = any_reported (reported c.nodes)

unfoldable pub shows_gpu : Option NodeStatus → Bool
shows_gpu none = false
shows_gpu (some s) = s.has_gpu

unfoldable pub gpu_nodes : List NodeSnapshot → List NodeSnapshot
unfolding shows_gpu
gpu_nodes [] = []
gpu_nodes (n ∷ ns) = if shows_gpu n.last_status then n ∷ gpu_nodes ns else gpu_nodes ns
