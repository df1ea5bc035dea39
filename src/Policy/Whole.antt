-- ===== src/Policy/Whole.antt =====
-- A machine that fits one node is placed there as a whole.
use omega_fusion_core_proxmo.Prelude.{ℕ, []}
use omega_fusion_core_proxmo.Prelude.Int.{pos}
use omega_fusion_core_proxmo.Policy.{AdmissionVm, Admitted}

-- The machine's whole memory on one node.
abbrev pub all_local : AdmissionVm → ℕ → Admitted
all_local vm id = record {
  placement_node = id;
  local_budget_mib = vm.max_mem_mib;
  remote_budget_mib = pos 0;
  remote_nodes = [];
}
