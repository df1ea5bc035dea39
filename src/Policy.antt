-- ===== src/Policy.antt =====
-- omega-daemon/src/policy_engine.rs, the admission of machines: `admit_vm` and `admit_batch`.
-- Names are numbers. Sizes are `i64`, which the integers of the model stand for without a bound.
-- What the safety margin, an `f64`, leaves of a size and half of a size as `f64` rounds it are
-- parameters; the texts of the reasons are left out, an error is told by its kind.
pub mod Admission
pub mod Placement
pub mod Budgets
pub mod Whole
pub mod Reservations
pub mod Rebalance
pub mod Room
use omega_fusion_core_proxmo.Prelude.{
  ℕ, suc, ◌+◌, ◌-◌, ◌/◌, ◌≡◌, Bool, true, false, not, ◌&&◌, Option, none, some, List, [], ◌∷◌, ◌++◌,
  ◌==◌, if◌then◌else◌, select, map,
}
use mathlib.Core.Option
use omega_fusion_core_proxmo.Prelude.Int.{ℤ, pos, negsuc, ◌+ℤ◌, ◌-ℤ◌, ◌*ℤ◌, ltb_ℤ, leb_ℤ}

pub record NodeInfo : Type 0 where
  pub node_id : ℕ
  pub mem_total_kb : ℤ
  pub mem_available_kb : ℤ
  pub reachable : Bool

pub record AdmissionVm : Type 0 where
  pub vmid : ℤ
  pub max_mem_mib : ℤ
  pub preferred_node : Option ℕ
  pub forbidden_nodes : List ℕ

-- `keep n` is the floor of `n * (1 - safety_margin)`, `half n` is `n * 0.5` cut to an integer.
pub record AdmissionConfig : Type 0 where
  pub keep : ℤ → ℤ
  pub half : ℤ → ℤ
  pub prefer_local : Bool
  pub min_remote_node_free : ℤ

pub data Refused : Type 0 where
  no_reachable all_forbidden no_capacity no_remote : Refused

pub record Admitted : Type 0 where
  pub placement_node : ℕ
  pub local_budget_mib : ℤ
  pub remote_budget_mib : ℤ
  pub remote_nodes : List ℕ

-- `admitted`, with the fields that a refusal leaves at their defaults.
pub data Verdict : Type 0 where
  admitted : Admitted → Verdict
  refused : Refused → Verdict

pub record Decision : Type 0 where
  pub vmid : ℤ
  pub max_mem_mib : ℤ
  pub verdict : Verdict
  pub cluster_free_mib : ℤ

-- Division of `i64` by 1024 rounds towards 0.
abbrev pub mib : ℤ → ℤ
mib (pos n) = pos (n / 1024)
mib (negsuc n) = pos 0 -ℤ pos (suc n / 1024)

abbrev pub min_ℤ : ℤ → ℤ → ℤ
min_ℤ a b = if leb_ℤ a b then a else b

abbrev pub max_ℤ : ℤ → ℤ → ℤ
max_ℤ a b = if leb_ℤ a b then b else a

abbrev pub is_in : ℕ → List ℕ → Bool
is_in x [] = false
is_in x (y ∷ ys) = if y == x then true else is_in x ys

unfoldable pub effective_free : AdmissionConfig → NodeInfo → ℤ
effective_free config node = config.keep (mib node.mem_available_kb)

unfoldable pub total_free : AdmissionConfig → List NodeInfo → ℤ
unfolding effective_free
total_free config [] = pos 0
total_free config (n ∷ ns) = effective_free config n +ℤ total_free config ns

-- `min_by_key`: the first of the nodes with the least free memory.
unfoldable pub least_free : AdmissionConfig → NodeInfo → List NodeInfo → NodeInfo
unfolding effective_free
least_free config best [] = best
least_free config best (n ∷ ns) =
    let better = if ltb_ℤ (effective_free config n) (effective_free config best) then n else best in
    least_free config better ns

-- `max_by_key`: the last of the nodes with the most.
unfoldable pub most_free : AdmissionConfig → NodeInfo → List NodeInfo → NodeInfo
unfolding effective_free
most_free config best [] = best
most_free config best (n ∷ ns) =
    let better = if ltb_ℤ (effective_free config n) (effective_free config best) then best else n in
    most_free config better ns

abbrev pub find_node : (NodeInfo → Bool) → List NodeInfo → Option NodeInfo
find_node p [] = none
find_node p (n ∷ ns) = if p n then some n else find_node p ns

-- The preferred node, when it is a candidate that holds half of the machine.
unfoldable pub preferred : AdmissionConfig → List NodeInfo → AdmissionVm → Option NodeInfo
unfolding effective_free
preferred config candidates vm = elim vm.preferred_node [
  | none ↦ none
  | some id ↦
      find_node
        (λ n. (n.node_id == id) && leb_ℤ (config.half vm.max_mem_mib) (effective_free config n))
        candidates
]

-- The node that holds the whole machine and has the least left, else the one with the most.
unfoldable pub by_capacity : AdmissionConfig → NodeInfo → List NodeInfo → List NodeInfo → NodeInfo
unfolding least_free most_free
by_capacity config first others [] = most_free config first others
by_capacity config first others (f ∷ fs) =
    if config.prefer_local then least_free config f fs else most_free config first others

-- The candidates are `first ∷ others`: the caller has checked that there is one.
unfoldable pub select_placement_node :
    AdmissionConfig → NodeInfo → List NodeInfo → AdmissionVm → NodeInfo
unfolding preferred by_capacity
select_placement_node config first others vm =
    Option.get_or (preferred config (first ∷ others) vm) (
      by_capacity config first others
        (select (λ n. leb_ℤ vm.max_mem_mib (effective_free config n)) (first ∷ others)))

-- The stable sort by the free memory, the most first.
unfoldable pub insert_by_free : AdmissionConfig → NodeInfo → List NodeInfo → List NodeInfo
unfolding effective_free
insert_by_free config n [] = n ∷ []
insert_by_free config n (x ∷ xs) =
    if ltb_ℤ (effective_free config n) (effective_free config x)
    then x ∷ insert_by_free config n xs
    else n ∷ x ∷ xs

unfoldable pub sort_by_free : AdmissionConfig → List NodeInfo → List NodeInfo
unfolding insert_by_free
sort_by_free config [] = []
sort_by_free config (n ∷ ns) = insert_by_free config n (sort_by_free config ns)

unfoldable pub remote_candidates : AdmissionConfig → List NodeInfo → ℕ → List NodeInfo
unfolding effective_free
remote_candidates config candidates placement_id =
    select
      (λ n.
        not (n.node_id == placement_id)
        && leb_ℤ config.min_remote_node_free (effective_free config n))
      candidates

-- What the others offer: none of them, too little memory, or their names.
unfoldable pub offer : AdmissionConfig → ℤ → List NodeInfo → Option (List ℕ)
unfolding total_free sort_by_free
offer config remote_budget [] = none
offer config remote_budget (n ∷ ns) =
    if ltb_ℤ (total_free config (n ∷ ns)) remote_budget
    then none
    else some (map (λ n. n.node_id) (sort_by_free config (n ∷ ns)))

unfoldable pub check_remote_availability : AdmissionConfig → List NodeInfo → ℕ → ℤ → Option (List ℕ)
unfolding remote_candidates offer
check_remote_availability config candidates placement_id remote_budget =
    offer config remote_budget (remote_candidates config candidates placement_id)
