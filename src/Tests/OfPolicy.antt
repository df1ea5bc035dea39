-- ===== src/Tests/OfPolicy.antt =====
-- Admissions on two nodes.
use omega_fusion_core_proxmo.Prelude.{
  ◌≡◌, sym, ap, ◌*◌, ◌/◌, true, ℕ, List, none, [], ◌∷◌, arith, inl, inr,
}
use omega_fusion_core_proxmo.Prelude.Int.{pos, negsuc, ◌*ℤ◌, ◌≤ℤ◌}
use omega_fusion_core_proxmo.Policy.{NodeInfo, AdmissionVm, AdmissionConfig, Admitted}
use omega_fusion_core_proxmo.Policy.Admission.{admit_batch}
use omega_fusion_core_proxmo.Policy.Placement.{Has}
use omega_fusion_core_proxmo.Policy.Reservations.{promised_on, admit_batch-fits}

-- A margin of a quarter.
abbrev config : AdmissionConfig
config = record {
  keep = λ n. elim n [ pos k ↦ pos (k * 3 / 4) | negsuc k ↦ negsuc k ];
  half = λ n. elim n [ pos k ↦ pos (k / 2) | negsuc k ↦ negsuc (k / 2) ];
  prefer_local = true;
  min_remote_node_free = pos 512;
}

abbrev small_node : NodeInfo
small_node = record {
  node_id = 1;
  mem_total_kb = pos 8388608;
  mem_available_kb = pos 4194304;
  reachable = true;
}

abbrev large_node : NodeInfo
large_node = record {
  node_id = 2;
  mem_total_kb = pos 16777216;
  mem_available_kb = pos 8388608;
  reachable = true;
}

abbrev nodes : List NodeInfo
nodes = small_node ∷ large_node ∷ []

abbrev vm_of : ℕ → AdmissionVm
vm_of n = record { vmid = pos 7; max_mem_mib = pos n; preferred_node = none; forbidden_nodes = [] }

abbrev large_share : Admitted
large_share = record {
  placement_node = 2;
  local_budget_mib = pos 6144;
  remote_budget_mib = pos 1856;
  remote_nodes = 1 ∷ [];
}

keep_le : (k : ℕ) → config.keep (pos k) ≤ℤ pos k
keep_le k = omega arith

only_large : (m : NodeInfo) → Has m nodes → m.node_id ≡ 2 → m ≡ large_node
only_large m (inl e) h = absurd (ground (arith, ap (λ o. o.node_id) e))
only_large m (inr (inl e)) h = sym e
only_large m (inr (inr i)) h = elim i [ ]

admit_batch-fits_example :
    promised_on 2 (admit_batch config nodes (vm_of 5000 ∷ vm_of 3000 ∷ [])) *ℤ pos 1024
    ≤ℤ pos 8388608
admit_batch-fits_example =
    admit_batch-fits config keep_le nodes large_node (omega arith) only_large
      (vm_of 5000 ∷ vm_of 3000 ∷ [])
