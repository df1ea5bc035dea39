-- ===== src/Policy/Budgets.antt =====
-- What an admission promises: the two parts of the machine's memory, the node that keeps the local
-- part, and the nodes that can keep the rest.
use omega_fusion_core_proxmo.Prelude.{
  ℕ, ◌≡◌, ◌⊎◌, refl, true, not, Option, none, some, List, [], ◌∷◌, arith, select, All, inl, inr,
  Bool-cases,
}
use mathlib.Core.Path.{subst}
use omega_fusion_core_proxmo.Prelude.Int.{
  ℤ, pos, ◌≤ℤ◌, ◌+ℤ◌, ◌-ℤ◌, ltb_ℤ, +ℤ_parts, -ℤ_parts, eq_of_parts,
}
use omega_fusion_core_proxmo.Policy.{
  NodeInfo, AdmissionVm, AdmissionConfig, Admitted, admitted, refused, no_capacity, min_ℤ, is_in,
  effective_free, total_free, select_placement_node, remote_candidates, check_remote_availability,
  offer,
}
use omega_fusion_core_proxmo.Policy.Admission.{
  refuse, accept, remote_part, conclude, admit_on, admit_among, candidates_of, admit_reachable,
  admit_vm,
}
use omega_fusion_core_proxmo.Policy.Placement.{Has, select-both, Has-All, select_placement_node-All}

-- The nodes that a machine may use.
abbrev pub open_to : AdmissionVm → List NodeInfo → List NodeInfo
open_to vm nodes = candidates_of (select (λ n. n.reachable) nodes) vm

pub record IsKept (config : AdmissionConfig) (ns : List NodeInfo) (vm : AdmissionVm) (a : Admitted)
    : Type 0 where
  pub node : NodeInfo
  pub named : node.node_id ≡ a.placement_node
  pub usable : Has node ns
  pub local_fits : a.local_budget_mib ≤ℤ effective_free config node
  pub local_needed : a.local_budget_mib ≤ℤ vm.max_mem_mib
  pub whole : a.local_budget_mib +ℤ a.remote_budget_mib ≡ vm.max_mem_mib
  pub remote_fits :
      (a.remote_budget_mib ≤ℤ pos 0)
      ⊎ (a.remote_budget_mib ≤ℤ total_free config (remote_candidates config ns a.placement_node))

module _ (config : AdmissionConfig) (vm : AdmissionVm) where
  offer-fits :
      (budget : ℤ) (rs : List NodeInfo) (ids : List ℕ)
      → offer config budget rs ≡ some ids
      → budget ≤ℤ total_free config rs
  unfolding offer
  offer-fits budget [] ids e = cc
  offer-fits budget (n ∷ rs) ids e = elim (Bool-cases (ltb_ℤ (total_free config (n ∷ rs)) budget)) [
    | inl less ↦ let f : none ≡ some ids = rw less at e in cc
    | inr more ↦ ground arith
  ]

  remote_part-fits :
      (ns : List NodeInfo) (id : ℕ) (budget : ℤ) (ids : List ℕ)
      → remote_part config ns id budget ≡ some ids
      → (budget ≤ℤ pos 0) ⊎ (budget ≤ℤ total_free config (remote_candidates config ns id))
  unfolding remote_part check_remote_availability
  remote_part-fits ns id budget ids e = elim (Bool-cases (ltb_ℤ (pos 0) budget)) [
    | inl positive ↦ inr (offer-fits budget (remote_candidates config ns id) ids (rw positive at e))
    | inr local ↦ inl (ground arith)
  ]

  conclude-IsKept :
      (ns : List NodeInfo) (node : NodeInfo) (a : Admitted) (free local_budget remote_budget : ℤ)
      → Has node ns
      → local_budget ≤ℤ effective_free config node
      → local_budget ≤ℤ vm.max_mem_mib
      → local_budget +ℤ remote_budget ≡ vm.max_mem_mib
      → (o : Option (List ℕ)) → remote_part config ns node.node_id remote_budget ≡ o
      → (conclude vm free node.node_id local_budget remote_budget o).verdict ≡ admitted a
      → IsKept config ns vm a
  unfolding conclude refuse accept
  conclude-IsKept ns node a free local_budget remote_budget i fits needed sum none r e = cc
  conclude-IsKept ns node a free local_budget remote_budget i fits needed sum (some ids) r e =
      let b : Admitted = record {
        placement_node = node.node_id;
        local_budget_mib = local_budget;
        remote_budget_mib = remote_budget;
        remote_nodes = ids;
      } in
      let f : admitted b ≡ admitted a = e in
      let same : b ≡ a = cc in
      subst (IsKept config ns vm) same record {
        node = node;
        named = refl;
        usable = i;
        local_fits = fits;
        local_needed = needed;
        whole = sum;
        remote_fits = remote_part-fits ns node.node_id remote_budget ids r;
      }

  -- The budgets of an admission on a node.
  admit_on-IsKept :
      (ns : List NodeInfo) (node : NodeInfo) (a : Admitted)
      → Has node ns
      → (admit_on config ns node vm).verdict ≡ admitted a
      → IsKept config ns vm a
  unfolding admit_on
  admit_on-IsKept ns node a i =
      let local_budget = min_ℤ (effective_free config node) vm.max_mem_mib in
      let remote_budget = vm.max_mem_mib -ℤ local_budget in
      conclude-IsKept ns node a (total_free config ns) local_budget remote_budget i (ground arith)
        (ground arith)
        (eq_of_parts (local_budget +ℤ remote_budget) vm.max_mem_mib (
          omega (arith, +ℤ_parts local_budget remote_budget, -ℤ_parts vm.max_mem_mib local_budget)))
        (remote_part config ns node.node_id remote_budget) refl

  admit_among-IsKept :
      (ns : List NodeInfo) (a : Admitted)
      → (admit_among config ns vm).verdict ≡ admitted a
      → IsKept config ns vm a
  unfolding admit_among refuse
  admit_among-IsKept [] a e = cc
  admit_among-IsKept (first ∷ others) a e =
      let placement = select_placement_node config first others vm in
      let placed : Has placement (first ∷ others) =
        select_placement_node-All config (λ n. Has n (first ∷ others)) first others vm
          (Has-All (λ n. Has n (first ∷ others)) (first ∷ others) (λ x i. i)) in
      elim (Bool-cases (ltb_ℤ (total_free config (first ∷ others)) vm.max_mem_mib)) [
        | inl less ↦ let f : refused no_capacity ≡ admitted a = rw less at e in cc
        | inr more ↦ admit_on-IsKept (first ∷ others) placement a placed (rw more at e)
      ]

  admit_reachable-IsKept :
      (ns : List NodeInfo) (a : Admitted)
      → (admit_reachable config ns vm).verdict ≡ admitted a
      → IsKept config (candidates_of ns vm) vm a
  unfolding admit_reachable refuse
  admit_reachable-IsKept [] a e = cc
  admit_reachable-IsKept (n ∷ ns) a e = admit_among-IsKept (candidates_of (n ∷ ns) vm) a e

  pub admit_vm-IsKept :
      (nodes : List NodeInfo) (a : Admitted)
      → (admit_vm config nodes vm).verdict ≡ admitted a
      → IsKept config (open_to vm nodes) vm a
        × All
            (λ n.
              (not (is_in n.node_id vm.forbidden_nodes) ≡ true)
              × ((n.reachable ≡ true) × Has n nodes))
            (open_to vm nodes)
  unfolding admit_vm candidates_of
  admit_vm-IsKept nodes a e = (
    admit_reachable-IsKept (select (λ n. n.reachable) nodes) a e,
    select-both (λ n. (n.reachable ≡ true) × Has n nodes)
        (λ n. not (is_in n.node_id vm.forbidden_nodes)) (select (λ n. n.reachable) nodes)
        (select-both (λ n. Has n nodes) (λ n. n.reachable) nodes
          (Has-All (λ n. Has n nodes) nodes (λ x i. i))),
  )
