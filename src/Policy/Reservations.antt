-- ===== src/Policy/Reservations.antt =====
-- A batch of admissions: the local budgets that it promises on one node against the free memory.
use omega_fusion_core_proxmo.Prelude.{
  ℕ, ◌+◌, ◌*◌, ◌/◌, ◌≡◌, refl, sym, ap, ◌∙◌, List, [], ◌∷◌, ◌++◌, arith, map, ◌==◌, if◌then◌else◌,
  inl, inr, Bool-cases,
}
use mathlib.Core.Path.{subst}
use omega_fusion_core_proxmo.Prelude.Int.{
  ℤ, pos, negsuc, pos_part, neg_part, ◌+ℤ◌, ◌-ℤ◌, ◌*ℤ◌, ◌≤ℤ◌, ltb_ℤ, +ℤ_parts, -ℤ_parts,
  eq_of_parts,
}
use omega_fusion_core_proxmo.Policy.{
  NodeInfo, AdmissionVm, AdmissionConfig, Admitted, Verdict, admitted, refused, Decision, mib,
  max_ℤ, effective_free,
}
use omega_fusion_core_proxmo.Policy.Admission.{
  admit_vm, reserved_on, reserve, apply_reservations, note_decision, admit_next, admit_batch,
}
use omega_fusion_core_proxmo.Policy.Placement.{Has, All-Has}
use omega_fusion_core_proxmo.Policy.Budgets.{open_to, admit_vm-IsKept}

-- The memory in MiB that the decisions promise on a node.
abbrev pub promised_by : ℕ → Verdict → ℤ → ℤ
promised_by id (admitted a) rest =
    if a.placement_node == id then a.local_budget_mib +ℤ rest else rest
promised_by id (refused _) rest = rest

abbrev pub promised_on : ℕ → List Decision → ℤ
promised_on id [] = pos 0
promised_on id (d ∷ ds) = promised_by id d.verdict (promised_on id ds)

kib_parts :
    (a : ℤ)
    → pos_part (a *ℤ pos 1024) + neg_part a * 1024 ≡ neg_part (a *ℤ pos 1024) + pos_part a * 1024
unfolding ◌*ℤ◌
kib_parts a = ground arith

+ℤ_comm : (a b : ℤ) → a +ℤ b ≡ b +ℤ a
+ℤ_comm a b = eq_of_parts (a +ℤ b) (b +ℤ a) (omega (arith, +ℤ_parts a b, +ℤ_parts b a))

+ℤ_assoc : (a b c : ℤ) → a +ℤ (b +ℤ c) ≡ (a +ℤ b) +ℤ c
+ℤ_assoc a b c =
    eq_of_parts (a +ℤ (b +ℤ c)) ((a +ℤ b) +ℤ c)
      (omega (arith, +ℤ_parts a b, +ℤ_parts b c, +ℤ_parts a (b +ℤ c), +ℤ_parts (a +ℤ b) c))

reserved_on-append :
    (id : ℕ) (p : ℕ) (l : ℤ) (rs : List (ℕ × ℤ))
    → reserved_on id (rs ++ (p, l) ∷ [])
      ≡ (if p == id then reserved_on id rs +ℤ l else reserved_on id rs)
unfolding reserved_on
reserved_on-append id p l [] = ground (arith, +ℤ_comm l (pos 0))
reserved_on-append id p l (r ∷ rs) =
    ground (arith, reserved_on-append id p l rs, +ℤ_assoc r.1 (reserved_on id rs) l)

-- What a reservation leaves, with what is reserved, is at most what was there.
reserve-le :
    (rs : List (ℕ × ℤ)) (n : NodeInfo)
    → pos 0 ≤ℤ n.mem_available_kb
    → reserved_on n.node_id rs *ℤ pos 1024 ≤ℤ n.mem_available_kb
    → (pos 0 ≤ℤ (reserve rs n).mem_available_kb)
      × ((reserve rs n).mem_available_kb +ℤ reserved_on n.node_id rs *ℤ pos 1024
          ≤ℤ n.mem_available_kb)
unfolding reserve
reserve-le rs n h k =
    let r = reserved_on n.node_id rs in
    let left = n.mem_available_kb -ℤ r *ℤ pos 1024 in
    elim (Bool-cases (ltb_ℤ (pos 0) r)) [
      | inl positive ↦ rw positive (
        ground (arith, -ℤ_parts n.mem_available_kb (r *ℤ pos 1024)),
        ground (
          arith,
          -ℤ_parts n.mem_available_kb (r *ℤ pos 1024),
          +ℤ_parts (max_ℤ left (pos 0)) (r *ℤ pos 1024),
        ),
      )
      | inr none_left ↦
          rw none_left (h, ground (arith, kib_parts r, +ℤ_parts n.mem_available_kb (r *ℤ pos 1024)))
    ]

module _ (config : AdmissionConfig) (keep_le : (k : ℕ) → config.keep (pos k) ≤ℤ pos k) where
  effective_free-le :
      (n : NodeInfo)
      → pos 0 ≤ℤ n.mem_available_kb
      → effective_free config n *ℤ pos 1024 ≤ℤ n.mem_available_kb
  unfolding effective_free
  effective_free-le n h = from n.mem_available_kb h
    where
      from : (x : ℤ) → pos 0 ≤ℤ x → config.keep (mib x) *ℤ pos 1024 ≤ℤ x
      from (pos x) h = omega (arith, keep_le (x / 1024), kib_parts (config.keep (pos (x / 1024))))
      from (negsuc x) h = absurd (omega arith)

-- A decision adds to the reservations what it promises.
reserved_on-note_decision :
    (id : ℕ) (d : Decision) (rs : List (ℕ × ℤ)) (rest : ℤ)
    → reserved_on id (note_decision d rs) +ℤ rest
      ≡ reserved_on id rs +ℤ promised_by id d.verdict rest
unfolding note_decision
reserved_on-note_decision id d rs rest = by_verdict d.verdict
  where
    by_verdict :
        (v : Verdict)
        → reserved_on id (elim v [
          | admitted a ↦ rs ++ (a.placement_node, a.local_budget_mib) ∷ []
          | refused _ ↦ rs
        ])
            +ℤ rest
          ≡ reserved_on id rs +ℤ promised_by id v rest
    by_verdict (refused _) = refl
    by_verdict (admitted a) = ground (
      arith,
      reserved_on-append id a.placement_node a.local_budget_mib rs,
      +ℤ_assoc (reserved_on id rs) a.local_budget_mib rest,
    )

reserve-node_id : (rs : List (ℕ × ℤ)) (m : NodeInfo) → (reserve rs m).node_id ≡ m.node_id
unfolding reserve
reserve-node_id rs m = ground arith

Has-map :
    (f : NodeInfo → NodeInfo) (x : NodeInfo) (ns : List NodeInfo)
    → Has x (map f ns)
    → (m : NodeInfo) × Has m ns × (f m ≡ x)
Has-map f x [] i = elim i [ ]
Has-map f x (n ∷ ns) (inl e) = (n, inl refl, e)
Has-map f x (n ∷ ns) (inr t) = let (m, i, e) = Has-map f x ns t in (m, inr i, e)

module _ (config : AdmissionConfig) (keep_le : (k : ℕ) → config.keep (pos k) ≤ℤ pos k)
    (nodes : List NodeInfo) (n : NodeInfo) (h : pos 0 ≤ℤ n.mem_available_kb)
    (unique : (m : NodeInfo) → Has m nodes → m.node_id ≡ n.node_id → m ≡ n) where
  -- What is admitted on the node fits beside the reservations.
  admitted-fits :
      (rs : List (ℕ × ℤ)) (vm : AdmissionVm) (a : Admitted)
      → reserved_on n.node_id rs *ℤ pos 1024 ≤ℤ n.mem_available_kb
      → (admit_vm config (apply_reservations nodes rs) vm).verdict ≡ admitted a
      → a.placement_node ≡ n.node_id
      → (reserved_on n.node_id rs +ℤ a.local_budget_mib) *ℤ pos 1024 ≤ℤ n.mem_available_kb
  admitted-fits rs vm a k e here =
      let (kept, usable) = admit_vm-IsKept config vm (apply_reservations nodes rs) a e in
      let (free, (up, listed)) =
        All-Has _ kept.node (open_to vm (apply_reservations nodes rs)) usable kept.usable in
      let (m, i, origin) = Has-map (reserve rs) kept.node nodes listed in
      let same : m ≡ n =
        unique m i (sym (reserve-node_id rs m) ∙ ap (λ o. o.node_id) origin ∙ kept.named ∙ here) in
      let fits : a.local_budget_mib ≤ℤ effective_free config (reserve rs n) =
        subst (λ o. a.local_budget_mib ≤ℤ effective_free config (reserve rs o)) same
          (subst (λ o. a.local_budget_mib ≤ℤ effective_free config o) (sym origin)
            kept.local_fits) in
      let (positive, left) = reserve-le rs n h k in
      omega (
        arith,
        fits,
        left,
        effective_free-le config keep_le (reserve rs n) positive,
        kib_parts (effective_free config (reserve rs n)),
        kib_parts a.local_budget_mib,
        kib_parts (reserved_on n.node_id rs),
        kib_parts (reserved_on n.node_id rs +ℤ a.local_budget_mib),
        +ℤ_parts (reserved_on n.node_id rs) a.local_budget_mib,
        +ℤ_parts (reserve rs n).mem_available_kb (reserved_on n.node_id rs *ℤ pos 1024),
      )

  note_decision-fits :
      (rs : List (ℕ × ℤ)) (vm : AdmissionVm)
      → reserved_on n.node_id rs *ℤ pos 1024 ≤ℤ n.mem_available_kb
      → reserved_on n.node_id (note_decision (admit_vm config (apply_reservations nodes rs) vm) rs)
          *ℤ pos 1024
        ≤ℤ n.mem_available_kb
  unfolding note_decision
  note_decision-fits rs vm k =
      by_verdict (admit_vm config (apply_reservations nodes rs) vm).verdict refl
    where
      by_verdict :
          (v : Verdict)
          → (admit_vm config (apply_reservations nodes rs) vm).verdict ≡ v
          → reserved_on n.node_id (elim v [
            | admitted a ↦ rs ++ (a.placement_node, a.local_budget_mib) ∷ []
            | refused _ ↦ rs
          ])
              *ℤ pos 1024
            ≤ℤ n.mem_available_kb
      by_verdict (refused _) e = k
      by_verdict (admitted a) e = ground (
        arith,
        reserved_on-append n.node_id a.placement_node a.local_budget_mib rs,
        admitted-fits rs vm a k e,
      )

  admit_next-fits :
      (vms : List AdmissionVm) (rs : List (ℕ × ℤ))
      → reserved_on n.node_id rs *ℤ pos 1024 ≤ℤ n.mem_available_kb
      → (reserved_on n.node_id rs +ℤ promised_on n.node_id (admit_next config nodes rs vms))
          *ℤ pos 1024
        ≤ℤ n.mem_available_kb
  unfolding admit_next
  admit_next-fits [] rs k =
      let r = reserved_on n.node_id rs in
      omega (arith, k, kib_parts r, kib_parts (r +ℤ pos 0), +ℤ_parts r (pos 0))
  admit_next-fits (vm ∷ vms) rs k =
      let d = admit_vm config (apply_reservations nodes rs) vm in
      let rest = promised_on n.node_id (admit_next config nodes (note_decision d rs) vms) in
      rw (← reserved_on-note_decision n.node_id d rs rest)
        (admit_next-fits vms (note_decision d rs) (note_decision-fits rs vm k))

  -- When the safety margin leaves at most what there is, a node has no negative free memory and no
  -- other node of the cluster has its id, the local budgets that the decisions of `admit_batch`
  -- promise on that node are together at most its free memory, for any list of machines.
  pub admit_batch-fits :
      (vms : List AdmissionVm)
      → promised_on n.node_id (admit_batch config nodes vms) *ℤ pos 1024 ≤ℤ n.mem_available_kb
  unfolding admit_batch reserved_on
  admit_batch-fits vms =
      let all = promised_on n.node_id (admit_next config nodes [] vms) in
      omega (
        arith,
        h,
        kib_parts all,
        kib_parts (pos 0 +ℤ all),
        +ℤ_parts (pos 0) all,
        admit_next-fits vms [] (ground (arith, h, kib_parts (pos 0))),
      )
