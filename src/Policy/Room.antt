-- ===== src/Policy/Room.antt =====
-- `find_gpu_space_creation_plan`: what a plan frees and what it moves.
use omega_fusion_core_proxmo.Prelude.{
  Member, ℕ, ◌^◌, ◌<◌, ◌&&◌, sym, ap, ◌≡◌, inl, inr, refl, Bool, true, false, ◌||◌, Option, none,
  some, List, [], ◌∷◌, ◌==◌, select, All, All-append, arith, Bool-cases, Option-cases,
}
use mathlib.Core.Path.{subst}
use omega_fusion_core_proxmo.Prelude.Int.{
  ℤ, pos, negsuc, pos_part, neg_part, ◌+ℤ◌, ◌-ℤ◌, ◌*ℤ◌, ◌≤ℤ◌, ltb_ℤ, leb_ℤ, int_laws, wrap_i64,
  wrap_i64_small, wrap_i64-add, wrap_i64-sub, *ℤ-pos,
}
use omega_fusion_core_proxmo.Policy.Rebalance.{
  GpuVm, GpuNode, Loads, GpuRebalanceRequest, GpuEviction, can_host, on_cooldown, node_named,
  insert_by_load, sort_by_load, takes_evicted, first_id, best_gpu_eviction_target, movable_entry,
  movable, insert_by_budget, sort_by_budget, free_enough, plan_for, first_plan, has_size,
  find_gpu_space_creation_plan,
}

module _ {A : Type 0} where
  All-weaken : (P Q : A → Type 0) (xs : List A) → ((a : A) → P a → Q a) → All P xs → All Q xs
  All-weaken P Q [] f h = tt
  All-weaken P Q (x ∷ xs) f h = (f x h.0, All-weaken P Q xs f h.1)

  select-All : (p : A → Bool) (xs : List A) → All (λ a. Member a xs × (p a ≡ true)) (select p xs)
  select-All p [] = tt
  select-All p (x ∷ xs) =
      let later =
        All-weaken (λ a. Member a xs × (p a ≡ true)) (λ a. Member a (x ∷ xs) × (p a ≡ true))
          (select p xs) (λ a m. (inr m.0, m.1)) (select-All p xs) in
      elim (Bool-cases (p x)) [
        | inl kept ↦ rw kept ((inl refl, kept), later)
        | inr left ↦ rw left later
      ]

  All-member : (P : A → Type 0) (xs : List A) (a : A) → All P xs → Member a xs → P a
  All-member P [] a h m = absurd m
  All-member P (x ∷ xs) a h (inl same) = subst P (sym same) h.0
  All-member P (x ∷ xs) a h (inr later) = All-member P xs a h.1 later

-- A size in MiB of less than 2^52, by which no product or sum below wraps.
abbrev pub IsMib : ℤ → Type 0
IsMib a = (pos_part a < 2 ^ 52) × (neg_part a < 2 ^ 52)

abbrev pub IsSizedVm : GpuVm → Type 0
IsSizedVm vm = IsMib vm.max_mem_mib × IsMib vm.gpu_vram_budget_mib

abbrev pub IsSizedNode : GpuNode → Type 0
IsSizedNode n = IsMib n.gpu_free_vram_mib × All IsSizedVm n.local_vms

abbrev pub IsSized : {F : Type 0} → GpuRebalanceRequest F → Type 0
IsSized req = IsMib req.gpu_budget_mib × IsSizedVm req.vm × All IsSizedNode req.nodes

-- The memory of a machine in KiB.
kb_exact : (a : ℤ) → IsMib a → wrap_i64 (a *ℤ pos 1024) ≡ a *ℤ pos 1024
kb_exact a h =
    let (above, below) = *ℤ-pos a 1024 in
    wrap_i64_small (a *ℤ pos 1024) (omega (arith, above, h.0)) (omega (arith, below, h.1))

needed_exact : (a b : ℤ) → IsMib a → IsMib b → wrap_i64 (a -ℤ b) ≡ a -ℤ b
needed_exact a b h k =
    wrap_i64-sub a b (omega (arith, h.0), omega (arith, h.1))
      (omega (arith, k.0), omega (arith, k.1))

needed-IsHalf : (a b : ℤ) → IsMib a → IsMib b → pos_part (a -ℤ b) < 2 ^ 62
unfolding ◌-ℤ◌
needed-IsHalf (pos m) (pos n) h k = ground (arith, h.0)
needed-IsHalf (pos m) (negsuc n) h k = ground (arith, h.0, k.1)
needed-IsHalf (negsuc m) (pos n) h k = ground (arith, h.0)
needed-IsHalf (negsuc m) (negsuc n) h k = ground (arith, k.1)

insert_by_budget-All :
    (P : GpuEviction → Type 0) (e : GpuEviction) (es : List GpuEviction)
    → P e
    → All P es
    → All P (insert_by_budget e es)
unfolding insert_by_budget
insert_by_budget-All P e [] h k = (h, tt)
insert_by_budget-All P e (x ∷ xs) h k = ground (arith, insert_by_budget-All P e xs h k.1)

sort_by_budget-All :
    (P : GpuEviction → Type 0) (es : List GpuEviction) → All P es → All P (sort_by_budget es)
unfolding sort_by_budget
sort_by_budget-All P [] h = tt
sort_by_budget-All P (e ∷ es) h =
    insert_by_budget-All P e (sort_by_budget es) h.0 (sort_by_budget-All P es h.1)

first_id-All :
    (P : GpuNode → Type 0) (ns : List GpuNode) (t : ℕ)
    → All P ns
    → first_id ns ≡ some t
    → (n : GpuNode) × P n × (n.node_id ≡ t)
unfolding first_id
first_id-All P [] t h e = absurd (ground (arith, e))
first_id-All P (n ∷ ns) t h e = (n, h.0, ground arith)

-- The video memory that the evictions free.
abbrev pub freed_by : List GpuEviction → ℤ
freed_by [] = pos 0
freed_by (e ∷ es) = e.vm.gpu_vram_budget_mib +ℤ freed_by es

-- A budget that is freed.
abbrev pub Frees : GpuEviction → Type 0
Frees e = (pos 1 ≤ℤ e.vm.gpu_vram_budget_mib) × IsMib e.vm.gpu_vram_budget_mib

neg_part_zero : (a : ℤ) → pos 0 ≤ℤ a → neg_part a ≡ 0
neg_part_zero (pos n) h = refl
neg_part_zero (negsuc n) h = absurd (ground (arith, h))

freed_exact :
    (freed : ℤ) (e : GpuEviction)
    → pos 0 ≤ℤ freed
    → pos_part freed < 2 ^ 62
    → Frees e
    → wrap_i64 (freed +ℤ e.vm.gpu_vram_budget_mib) ≡ freed +ℤ e.vm.gpu_vram_budget_mib
freed_exact freed e low high (one, m) =
    wrap_i64-add freed e.vm.gpu_vram_budget_mib (high, omega (arith, neg_part_zero freed low))
      (omega (arith, m.0), omega (arith, m.1))

free_enough-freed_by :
    (P : GpuEviction → Type 0) (needed freed : ℤ) (es s : List GpuEviction)
    → ((e : GpuEviction) → P e → Frees e)
    → pos_part needed < 2 ^ 62
    → pos 0 ≤ℤ freed
    → pos_part freed < 2 ^ 62
    → All P es
    → free_enough needed freed es ≡ some s
    → All P s × (needed ≤ℤ freed +ℤ freed_by s)
unfolding free_enough
free_enough-freed_by P needed freed [] s frees n low high h e = absurd (ground (arith, e))
free_enough-freed_by P needed freed (x ∷ xs) s frees n low high h e =
    let freed' = wrap_i64 (freed +ℤ x.vm.gpu_vram_budget_mib) in
    let exact : freed' ≡ freed +ℤ x.vm.gpu_vram_budget_mib =
      freed_exact freed x low high (frees x h.0) in
    let above = ap pos_part exact in
    let below = ap neg_part exact in
    let low' : pos 0 ≤ℤ freed' = omega (int_laws, low, above, below, (frees x h.0).0) in
    let Goal = λ (t : List GpuEviction). All P t × (needed ≤ℤ freed +ℤ freed_by t) in
    let high' : (leb_ℤ needed freed' ≡ false) → pos_part freed' < 2 ^ 62 =
      λ short. ground (arith, short, n, neg_part_zero freed' low') in
    elim (Bool-cases (leb_ℤ needed freed')) [
      | inl fits ↦
          let bound : needed ≤ℤ freed' = ground (arith, fits) in
          let last : x ∷ [] ≡ s = ground (arith, e, fits) in
          subst Goal last ((h.0, tt), omega (int_laws, bound, above, below))
      | inr short ↦ elim (Option-cases (free_enough needed freed' xs)) [
        | inl stuck ↦ absurd (ground (arith, e, short, stuck))
        | inr (rest, found) ↦
            let (moved, bound) =
              free_enough-freed_by P needed freed' xs rest frees n low' (high' short) h.1 found in
            let more : x ∷ rest ≡ s = ground (arith, e, short, found) in
            subst Goal more ((h.0, moved), omega (int_laws, bound, above, below))
      ]
    ]

-- A node other than the given one with room for a machine: a vCPU, its memory and its budget.
pub record HasRoom (source_id : ℕ) (vm : GpuVm) (n : GpuNode) : Type 0 where
  pub other : (n.node_id == source_id) ≡ false
  pub vcpu : pos 1 ≤ℤ n.vcpu_free
  pub memory :
      (ltb_ℤ (pos 0) vm.max_mem_mib && ltb_ℤ n.mem_available_kb (vm.max_mem_mib *ℤ pos 1024))
      ≡ false
  pub gpu : vm.gpu_vram_budget_mib ≤ℤ n.gpu_free_vram_mib

takes_evicted-HasRoom :
    (id : ℕ) (vm : GpuVm) (n : GpuNode)
    → IsSizedVm vm
    → leb_ℤ vm.gpu_vram_budget_mib (pos 0) ≡ false
    → takes_evicted id vm n ≡ true
    → HasRoom id vm n
unfolding takes_evicted can_host
takes_evicted-HasRoom id vm n h uses t =
    let t' = rw (kb_exact vm.max_mem_mib h.0) at t in
    record {
      other = ground (arith, t');
      vcpu = ground (arith, t');
      memory = ground (arith, t');
      gpu = ground (arith, t', uses);
    }

-- Enough GPU memory in all, and free memory and vCPUs for the machine, on another node.
pub record IsLargeEnough {F : Type 0} (req : GpuRebalanceRequest F) (n : GpuNode) : Type 0 where
  pub known : Member n req.nodes
  pub other : (n.node_id == req.source_node) ≡ false
  pub gpu : req.gpu_budget_mib ≤ℤ n.gpu_total_vram_mib
  pub memory : req.vm.max_mem_mib *ℤ pos 1024 ≤ℤ n.mem_available_kb
  pub vcpus : req.required_vcpus ≤ℤ n.vcpu_free

has_size-IsLargeEnough :
    {F : Type 0} (req : GpuRebalanceRequest F) (n : GpuNode)
    → IsMib req.vm.max_mem_mib
    → Member n req.nodes
    → has_size req n ≡ true
    → IsLargeEnough req n
unfolding has_size
has_size-IsLargeEnough req n h m t =
    let t' = rw (kb_exact req.vm.max_mem_mib h) at t in
    record {
      known = m;
      other = ground (arith, t');
      gpu = ground (arith, t');
      memory = ground (arith, t');
      vcpus = ground (arith, t');
    }

-- A machine of the target that may move, and a node that takes it.
pub record IsEviction {F : Type 0} (loads : Loads F) (req : GpuRebalanceRequest F) (t : GpuNode)
    (e : GpuEviction) : Type 0 where
  pub from_target : e.source ≡ t.node_id
  pub resident : Member e.vm t.local_vms
  pub another : (e.vm.vm_id == req.vm.vm_id) ≡ false
  pub uses_gpu : pos 1 ≤ℤ e.vm.gpu_vram_budget_mib
  pub rested : on_cooldown loads req e.vm.vm_id ≡ false
  pub taker : GpuNode
  pub known : Member taker req.nodes
  pub named : taker.node_id ≡ e.target
  pub takes : HasRoom t.node_id e.vm taker

-- The evictions planned for a target can be made, and free what its GPU lacks.
abbrev pub MakesRoom :
    {F : Type 0} → Loads F → GpuRebalanceRequest F → GpuNode → List GpuEviction → Type 0
MakesRoom loads req t es =
    All (IsEviction loads req t) es × (req.gpu_budget_mib ≤ℤ t.gpu_free_vram_mib +ℤ freed_by es)

module _ {F : Type 0} (loads : Loads F) where
  insert_by_load-All :
      (P : GpuNode → Type 0) (n : GpuNode) (ns : List GpuNode)
      → P n
      → All P ns
      → All P (insert_by_load loads n ns)
  unfolding insert_by_load
  insert_by_load-All P n [] h k = (h, tt)
  insert_by_load-All P n (x ∷ xs) h k = ground (arith, insert_by_load-All P n xs h k.1)

  sort_by_load-All :
      (P : GpuNode → Type 0) (ns : List GpuNode) → All P ns → All P (sort_by_load loads ns)
  unfolding sort_by_load
  sort_by_load-All P [] h = tt
  sort_by_load-All P (n ∷ ns) h =
      insert_by_load-All P n (sort_by_load loads ns) h.0 (sort_by_load-All P ns h.1)

  movable_entry-IsEviction :
      (req : GpuRebalanceRequest F) (t : GpuNode) (r : GpuVm) (o : Option ℕ)
      → best_gpu_eviction_target loads t.node_id r req.nodes ≡ o
      → Member r t.local_vms
      → (r.vm_id == req.vm.vm_id) ≡ false
      → leb_ℤ r.gpu_vram_budget_mib (pos 0) ≡ false
      → IsSizedVm r
      → on_cooldown loads req r.vm_id ≡ false
      → All (IsEviction loads req t) (movable_entry t.node_id r o)
  unfolding movable_entry best_gpu_eviction_target
  movable_entry-IsEviction req t r none e m a u v c = tt
  movable_entry-IsEviction req t r (some q) e m a u v c =
      let Q = λ (n : GpuNode). Member n req.nodes × (takes_evicted t.node_id r n ≡ true) in
      let takers = select (takes_evicted t.node_id r) req.nodes in
      let (n, (inside, free), named) =
        first_id-All Q (sort_by_load loads takers) q
          (sort_by_load-All Q takers (select-All (takes_evicted t.node_id r) req.nodes)) e in
      (
        record {
          from_target = refl;
          resident = m;
          another = a;
          uses_gpu = ground (arith, u);
          rested = c;
          taker = n;
          known = inside;
          named = named;
          takes = takes_evicted-HasRoom t.node_id r n v u free;
        },
        tt,
      )

  movable-IsEviction :
      (req : GpuRebalanceRequest F) (t : GpuNode) (rs : List GpuVm)
      → ((r : GpuVm) → Member r rs → Member r t.local_vms)
      → All IsSizedVm t.local_vms
      → All (IsEviction loads req t) (movable loads req t.node_id rs)
  unfolding movable
  movable-IsEviction req t [] inside v = tt
  movable-IsEviction req t (r ∷ rs) inside v =
      let later = movable-IsEviction req t rs (λ w m. inside w (inr m)) v in
      elim (Bool-cases ((r.vm_id == req.vm.vm_id) || leb_ℤ r.gpu_vram_budget_mib (pos 0))) [
        | inl left ↦ rw left later
        | inr counts ↦ rw counts (elim (Bool-cases (on_cooldown loads req r.vm_id)) [
          | inl recent ↦ rw recent later
          | inr rested ↦ rw rested (
              All-append (IsEviction loads req t)
                (movable_entry t.node_id r (best_gpu_eviction_target loads t.node_id r req.nodes))
                (movable loads req t.node_id rs)
                (movable_entry-IsEviction req t r _ refl (inside r (inl refl))
                  (ground (arith, counts)) (ground (arith, counts))
                  (All-member IsSizedVm t.local_vms r v (inside r (inl refl))) rested)
                later)
        ])
      ]

  plan_for-MakesRoom :
      (req : GpuRebalanceRequest F) (source t : GpuNode) (es : List GpuEviction)
      → IsMib req.gpu_budget_mib
      → IsSizedNode t
      → plan_for loads req source t ≡ some es
      → MakesRoom loads req t es
  unfolding plan_for
  plan_for-MakesRoom req source t es g v e =
      let needed = wrap_i64 (req.gpu_budget_mib -ℤ t.gpu_free_vram_mib) in
      let exact : needed ≡ req.gpu_budget_mib -ℤ t.gpu_free_vram_mib =
        needed_exact req.gpu_budget_mib t.gpu_free_vram_mib g v.0 in
      let above = ap pos_part exact in
      let below = ap neg_part exact in
      let half = needed-IsHalf req.gpu_budget_mib t.gpu_free_vram_mib g v.0 in
      let entries = movable loads req t.node_id t.local_vms in
      let P = IsEviction loads req t in
      let frees : (x : GpuEviction) → P x → Frees x =
        λ x p. (p.uses_gpu, (All-member IsSizedVm t.local_vms x.vm v.1 p.resident).1) in
      elim (Bool-cases (leb_ℤ needed (pos 0))) [
        | inl enough ↦
            let bound : needed ≤ℤ pos 0 = ground (arith, enough) in
            let same : [] ≡ es = ground (arith, e, enough) in
            subst (MakesRoom loads req t) same (tt, omega (int_laws, bound, above, below))
        | inr lacks ↦
            let found : free_enough needed (pos 0) (sort_by_budget entries) ≡ some es =
              ground (arith, e, lacks) in
            let (all, bound) =
              free_enough-freed_by P needed (pos 0) (sort_by_budget entries) es frees
                (omega (arith, above, half)) (omega arith) (omega arith)
                (sort_by_budget-All P entries (movable-IsEviction req t t.local_vms (λ r m. m) v.1))
                found in
            (all, omega (int_laws, bound, above, below))
      ]

  first_plan-MakesRoom :
      (P : GpuNode → Type 0) (req : GpuRebalanceRequest F) (source : GpuNode) (ts : List GpuNode)
      (id : ℕ) (es : List GpuEviction)
      → IsMib req.gpu_budget_mib
      → ((t : GpuNode) → P t → IsSizedNode t)
      → All P ts
      → first_plan loads req source ts ≡ some (id, es)
      → (t : GpuNode) × P t × (t.node_id ≡ id) × MakesRoom loads req t es
  unfolding first_plan
  first_plan-MakesRoom P req source [] id es g v h e = absurd (ground (arith, e))
  first_plan-MakesRoom P req source (t ∷ ts) id es g v h e =
      elim (Option-cases (plan_for loads req source t)) [
        | inl stuck ↦ first_plan-MakesRoom P req source ts id es g v h.1 (ground (arith, e, stuck))
        | inr (s, found) ↦
            let same_id : t.node_id ≡ id = ground (arith, e, found) in
            let same : plan_for loads req source t ≡ some es = ground (arith, e, found) in
            (t, h.0, same_id, plan_for-MakesRoom req source t es g (v t h.0) same)
      ]

  -- Where the budget asked for, the memory and GPU budget of the machine and of every resident, and
  -- the free GPU memory of every node are less than 2^52 MiB in absolute value: when a plan for
  -- room on a GPU is found, its target is a node of the request, other than the source, with enough
  -- GPU memory in all and free memory and vCPUs for the machine, as integers that do not wrap; each
  -- of its evictions takes a resident of the target that is not the machine itself and not on
  -- cooldown to another node of the request with a free vCPU, the memory and the free GPU memory
  -- for it; and the target's free GPU memory with the budgets of the evicted machines is at least
  -- the budget asked for.
  pub find_gpu_space_creation_plan-MakesRoom :
      (req : GpuRebalanceRequest F) (id : ℕ) (es : List GpuEviction)
      → IsSized req
      → find_gpu_space_creation_plan loads req ≡ some (id, es)
      → (t : GpuNode) × IsLargeEnough req t × (t.node_id ≡ id) × MakesRoom loads req t es
  unfolding find_gpu_space_creation_plan
  find_gpu_space_creation_plan-MakesRoom req id es (g, vm, v) e =
      elim (Option-cases (node_named req.source_node req.nodes)) [
        | inl unknown ↦ absurd (ground (arith, e, unknown))
        | inr (source, known) ↦
            let targets = select (has_size req) req.nodes in
            let Q = λ (n : GpuNode). Member n req.nodes × (has_size req n ≡ true) in
            let (t, (inside, large), same, room) =
              first_plan-MakesRoom Q req source (sort_by_load loads targets) id es g
                (λ n q. All-member IsSizedNode req.nodes n v q.0)
                (sort_by_load-All Q targets (select-All (has_size req) req.nodes))
                (ground (arith, e, known)) in
            (t, has_size-IsLargeEnough req t vm.0 inside large, same, room)
      ]
