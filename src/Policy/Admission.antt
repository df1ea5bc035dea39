-- ===== src/Policy/Admission.antt =====
-- omega-daemon/src/policy_engine.rs: `admit_vm` and `admit_batch` over the choice of the node.
use omega_fusion_core_proxmo.Prelude.{
  ℕ, not, Option, none, some, List, [], ◌∷◌, ◌++◌, ◌==◌, if◌then◌else◌, select, map,
}
use omega_fusion_core_proxmo.Prelude.Int.{ℤ, pos, ◌+ℤ◌, ◌-ℤ◌, ◌*ℤ◌, ltb_ℤ}
use omega_fusion_core_proxmo.Policy.{
  NodeInfo, AdmissionVm, AdmissionConfig, Refused, no_reachable, all_forbidden, no_capacity,
  no_remote, Admitted, admitted, refused, Decision, min_ℤ, max_ℤ, is_in, effective_free, total_free,
  select_placement_node, check_remote_availability,
}

unfoldable pub refuse : AdmissionVm → ℤ → Refused → Decision
refuse vm free why = record {
  vmid = vm.vmid;
  max_mem_mib = vm.max_mem_mib;
  verdict = refused why;
  cluster_free_mib = free;
}

unfoldable pub accept : AdmissionVm → ℤ → Admitted → Decision
accept vm free a = record {
  vmid = vm.vmid;
  max_mem_mib = vm.max_mem_mib;
  verdict = admitted a;
  cluster_free_mib = free;
}

-- The nodes of the remote part: none when it is empty.
unfoldable pub remote_part : AdmissionConfig → List NodeInfo → ℕ → ℤ → Option (List ℕ)
unfolding check_remote_availability
remote_part config candidates placement_id remote_budget =
    if ltb_ℤ (pos 0) remote_budget
    then check_remote_availability config candidates placement_id remote_budget
    else some []

-- `none` when the other nodes cannot keep the remote part.
unfoldable pub conclude : AdmissionVm → ℤ → ℕ → ℤ → ℤ → Option (List ℕ) → Decision
unfolding refuse accept
conclude vm free id local_budget remote_budget none = refuse vm free no_remote
conclude vm free id local_budget remote_budget (some nodes) = accept vm free record {
  placement_node = id;
  local_budget_mib = local_budget;
  remote_budget_mib = remote_budget;
  remote_nodes = nodes;
}

-- From the choice of the node on.
unfoldable pub admit_on : AdmissionConfig → List NodeInfo → NodeInfo → AdmissionVm → Decision
unfolding effective_free total_free conclude remote_part
admit_on config candidates placement vm =
    let local_budget = min_ℤ (effective_free config placement) vm.max_mem_mib in
    let remote_budget = vm.max_mem_mib -ℤ local_budget in
    conclude vm (total_free config candidates) placement.node_id local_budget remote_budget
      (remote_part config candidates placement.node_id remote_budget)

unfoldable pub admit_among : AdmissionConfig → List NodeInfo → AdmissionVm → Decision
unfolding refuse total_free select_placement_node admit_on
admit_among config [] vm = refuse vm (pos 0) all_forbidden
admit_among config (first ∷ others) vm =
    let free = total_free config (first ∷ others) in
    if ltb_ℤ free vm.max_mem_mib
    then refuse vm free no_capacity
    else admit_on config (first ∷ others) (select_placement_node config first others vm) vm

unfoldable pub candidates_of : List NodeInfo → AdmissionVm → List NodeInfo
candidates_of nodes vm = select (λ n. not (is_in n.node_id vm.forbidden_nodes)) nodes

unfoldable pub admit_reachable : AdmissionConfig → List NodeInfo → AdmissionVm → Decision
unfolding refuse candidates_of admit_among
admit_reachable config [] vm = refuse vm (pos 0) no_reachable
admit_reachable config (n ∷ ns) vm = admit_among config (candidates_of (n ∷ ns) vm) vm

unfoldable pub admit_vm : AdmissionConfig → List NodeInfo → AdmissionVm → Decision
unfolding admit_reachable
admit_vm config nodes vm = admit_reachable config (select (λ n. n.reachable) nodes) vm

-- The local budgets that the batch has given away, by node.
unfoldable pub reserved_on : ℕ → List (ℕ × ℤ) → ℤ
reserved_on id [] = pos 0
reserved_on id (r ∷ rs) = let rest = reserved_on id rs in if r.0 == id then r.1 +ℤ rest else rest

unfoldable pub reserve : List (ℕ × ℤ) → NodeInfo → NodeInfo
unfolding reserved_on
reserve reservations node =
    let reserved_mib = reserved_on node.node_id reservations in
    if ltb_ℤ (pos 0) reserved_mib
    then record node {
      mem_available_kb = max_ℤ (node.mem_available_kb -ℤ reserved_mib *ℤ pos 1024) (pos 0);
    }
    else node

abbrev pub apply_reservations : List NodeInfo → List (ℕ × ℤ) → List NodeInfo
apply_reservations nodes reservations = map (reserve reservations) nodes

-- An admitted machine adds its local budget.
unfoldable pub note_decision : Decision → List (ℕ × ℤ) → List (ℕ × ℤ)
note_decision d reservations = elim d.verdict [
  | admitted a ↦ reservations ++ (a.placement_node, a.local_budget_mib) ∷ []
  | refused _ ↦ reservations
]

unfoldable pub admit_next :
    AdmissionConfig → List NodeInfo → List (ℕ × ℤ) → List AdmissionVm → List Decision
unfolding admit_vm reserve note_decision
admit_next config nodes reservations [] = []
admit_next config nodes reservations (vm ∷ vms) =
    let d = admit_vm config (apply_reservations nodes reservations) vm in
    d ∷ admit_next config nodes (note_decision d reservations) vms

unfoldable pub admit_batch : AdmissionConfig → List NodeInfo → List AdmissionVm → List Decision
unfolding admit_next
admit_batch config nodes vms = admit_next config nodes [] vms
