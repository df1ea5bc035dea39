-- ===== src/Gpu/Vram.antt =====
-- The budgets of video memory under every message.
use omega_fusion_core_proxmo.Prelude.{
  ℕ, ◌+◌, ◌-◌, ◌^◌, ◌≤◌, ◌<◌, ◌≡◌, ◌∙◌, ltb, true, false, Option, none, some, List, [], ◌∷◌, arith,
  lookup, length, take, drop, ℕ_discrete, Bool-cases, Option-cases, inl, inr,
}
use omega_fusion_core_proxmo.Prelude.Assoc.{
  insert, AllValues, insert-AllValues, remove-AllValues, modify-AllValues, lookup-AllValues,
  lookup-insert, lookup-modify,
}
use omega_fusion_core_proxmo.Gpu.{MsgType, GpuMessage, AllocRequest, decode_alloc}
use omega_fusion_core_proxmo.Gpu.Endian.{from_le}
use omega_fusion_core_proxmo.Gpu.Mux.{
  VmVramBudget, new_budget, mib_of, can_alloc_bytes, alloc_bytes, free_bytes, GpuReply, ready,
  fault, GpuBackend, GpuMux, CmdFate, set_vm_budget, release_gpu, budget_of, finish_alloc,
  alloc_request, decoded_alloc, handle_alloc, finish_free, handle_free, handle_sync, gpu_worker,
  handle_cmd, served, channel_closed, worker_gone, timed_out, respond,
}

abbrev pub IsWithin : VmVramBudget → Type 0
IsWithin b = b.used_mib ≤ b.budget_mib

abbrev pub AllWithin : {B : Type 0} → GpuMux B → Type 0
AllWithin s = AllValues ℕ_discrete IsWithin s.budgets

alloc_bytes-IsWithin :
    (bytes : ℕ) (b : VmVramBudget) → IsWithin b → IsWithin (alloc_bytes bytes b).0
unfolding alloc_bytes can_alloc_bytes
alloc_bytes-IsWithin bytes b h = ground arith

free_bytes-IsWithin : (bytes : ℕ) (b : VmVramBudget) → IsWithin b → IsWithin (free_bytes bytes b)
unfolding free_bytes
free_bytes-IsWithin bytes b h = omega arith

pub data GpuEvent : Type 0 where
  configured : ℕ → ℕ → GpuEvent
  released : ℕ → GpuEvent
  message : CmdFate → GpuMessage → GpuEvent

module _ {B : Type 0} (backend : GpuBackend B) (text : ℕ → List ℕ) where
  budget_of-IsWithin :
      (vm : ℕ) (s : GpuMux B) → AllWithin s → IsWithin (budget_of backend text vm s)
  unfolding budget_of new_budget
  budget_of-IsWithin vm s h = elim (Option-cases (lookup ℕ_discrete vm s.budgets)) [
    | inl absent ↦ rw absent (omega arith)
    | inr (b, there) ↦ rw there (lookup-AllValues ℕ_discrete IsWithin vm b s.budgets h there)
  ]

  finish_alloc-AllWithin :
      (m : GpuMessage) (req : AllocRequest) (r : GpuReply ℕ) (s : GpuMux B)
      → AllWithin s
      → AllWithin (finish_alloc backend text m req r s).0
  unfolding finish_alloc
  finish_alloc-AllWithin m req (ready h) s a = a
  finish_alloc-AllWithin m req (fault t) s a =
      modify-AllValues ℕ_discrete IsWithin m.header.vm_id (free_bytes req.size_bytes) s.budgets
        (free_bytes-IsWithin req.size_bytes) a

  alloc_request-AllWithin :
      (m : GpuMessage) (req : AllocRequest) (s : GpuMux B)
      → AllWithin s
      → AllWithin (alloc_request backend text m req s).0
  unfolding alloc_request
  alloc_request-AllWithin m req s a =
      let b = alloc_bytes req.size_bytes (budget_of backend text m.header.vm_id s) in
      let charged =
        insert-AllValues ℕ_discrete IsWithin m.header.vm_id b.0 s.budgets
          (alloc_bytes-IsWithin req.size_bytes (budget_of backend text m.header.vm_id s)
            (budget_of-IsWithin m.header.vm_id s a))
          a in
      elim (Bool-cases b.1) [
        | inl fits ↦ rw fits (finish_alloc-AllWithin m req _ _ charged)
        | inr over ↦ rw over charged
      ]

  decoded_alloc-AllWithin :
      (o : Option AllocRequest) (m : GpuMessage) (s : GpuMux B)
      → AllWithin s
      → AllWithin (decoded_alloc backend text o m s).0
  unfolding decoded_alloc
  decoded_alloc-AllWithin none m s a = a
  decoded_alloc-AllWithin (some req) m s a = alloc_request-AllWithin m req s a

  finish_free-AllWithin :
      (m : GpuMessage) (r : GpuReply (Unit {0})) (s : GpuMux B)
      → AllWithin s
      → AllWithin (finish_free backend text m r s).0
  unfolding finish_free
  finish_free-AllWithin m (fault t) s a = a
  finish_free-AllWithin m (ready _) s a =
      modify-AllValues ℕ_discrete IsWithin m.header.vm_id _ s.budgets
        (free_bytes-IsWithin (from_le (take 8 (drop 8 m.payload)))) a

  handle_free-AllWithin :
      (m : GpuMessage) (s : GpuMux B) → AllWithin s → AllWithin (handle_free backend text m s).0
  unfolding handle_free
  handle_free-AllWithin m s a = elim (Bool-cases (ltb (length m.payload) 16)) [
    | inl short ↦ rw short a
    | inr long ↦ rw long (finish_free-AllWithin m _ _ a)
  ]

  handle_cmd-AllWithin :
      (fate : CmdFate) (m : GpuMessage) (s : GpuMux B)
      → AllWithin s
      → AllWithin (handle_cmd backend text fate m s).0
  unfolding handle_cmd gpu_worker
  handle_cmd-AllWithin served m s a = a
  handle_cmd-AllWithin channel_closed m s a = a
  handle_cmd-AllWithin worker_gone m s a = a
  handle_cmd-AllWithin timed_out m s a = a

  respond-AllWithin :
      (fate : CmdFate) (t : MsgType) (m : GpuMessage) (s : GpuMux B)
      → AllWithin s
      → AllWithin (respond backend text fate t m s).0
  unfolding respond handle_sync handle_alloc
  respond-AllWithin fate MsgType.gpu_alloc m s a =
      decoded_alloc-AllWithin (decode_alloc m.payload) m s a
  respond-AllWithin fate MsgType.gpu_free m s a = handle_free-AllWithin m s a
  respond-AllWithin fate MsgType.gpu_sync m s a = a
  respond-AllWithin fate MsgType.gpu_cmd m s a = handle_cmd-AllWithin fate m s a
  respond-AllWithin fate _ m s a = a

  -- A budget set or released by the daemon, or one message.
  unfoldable pub on_gpu_event : GpuMux B → GpuEvent → GpuMux B
  on_gpu_event s (configured vm mib) = set_vm_budget backend text vm mib s
  on_gpu_event s (released vm) = release_gpu backend text vm s
  on_gpu_event s (message fate m) = (respond backend text fate m.header.msg_type m s).0

  unfoldable pub after_events : GpuMux B → List GpuEvent → GpuMux B
  unfolding on_gpu_event
  after_events s [] = s
  after_events s (e ∷ es) = after_events (on_gpu_event s e) es

  -- Where each machine uses at most its budget of video memory, this is still so after any history
  -- of budgets set and released and messages answered, whatever the physical GPU answers.
  pub after_events-AllWithin :
      (es : List GpuEvent) (s : GpuMux B) → AllWithin s → AllWithin (after_events s es)
  unfolding after_events on_gpu_event set_vm_budget release_gpu new_budget
  after_events-AllWithin [] s a = a
  after_events-AllWithin (configured vm mib ∷ es) s a =
      after_events-AllWithin es _
        (insert-AllValues ℕ_discrete IsWithin vm (new_budget vm mib) s.budgets (omega arith) a)
  after_events-AllWithin (released vm ∷ es) s a =
      after_events-AllWithin es _ (remove-AllValues ℕ_discrete IsWithin vm s.budgets a)
  after_events-AllWithin (message fate m ∷ es) s a =
      after_events-AllWithin es _ (respond-AllWithin fate m.header.msg_type m s a)

  -- An allocation that fits the budget and that the physical GPU refuses gives back what it took.
  pub alloc_request-fault :
      (m : GpuMessage) (req : AllocRequest) (s : GpuMux B) (b : VmVramBudget) (t : List ℕ)
      → lookup ℕ_discrete m.header.vm_id s.budgets ≡ some b
      → b.used_mib + mib_of req.size_bytes ≤ b.budget_mib
      → b.budget_mib < 2 ^ 64
      → b.handle_count < 2 ^ 32 - 1
      → (backend.alloc_vram s.gpu req.size_bytes req.alignment).1 ≡ fault t
      → lookup ℕ_discrete m.header.vm_id (alloc_request backend text m req s).0.budgets ≡ some b
  unfolding alloc_request budget_of alloc_bytes can_alloc_bytes finish_alloc free_bytes
  alloc_request-fault m req s b t found fits small few failed =
      let charged : VmVramBudget = record b {
        used_mib = b.used_mib + mib_of req.size_bytes;
        handle_count = b.handle_count + 1;
      } in
      let spent : alloc_bytes req.size_bytes b ≡ (charged, true) = ground arith in
      rw (found, failed, spent)
        (lookup-modify ℕ_discrete m.header.vm_id m.header.vm_id (free_bytes req.size_bytes)
            (insert ℕ_discrete m.header.vm_id charged s.budgets)
          ∙ ground
              (arith, lookup-insert ℕ_discrete m.header.vm_id m.header.vm_id charged s.budgets))

  -- When a machine with a budget frees a handle, the physical GPU agrees, and the size that the
  -- machine declares is at least what it uses, its use is 0 afterwards, whatever the size of the
  -- handle, and it counts one handle less.
  pub handle_free-resets :
      (m : GpuMessage) (s : GpuMux B) (b : VmVramBudget)
      → lookup ℕ_discrete m.header.vm_id s.budgets ≡ some b
      → 16 ≤ length m.payload
      → (backend.free_vram s.gpu (from_le (take 8 m.payload))).1 ≡ ready tt
      → b.used_mib ≤ mib_of (from_le (take 8 (drop 8 m.payload)))
      → lookup ℕ_discrete m.header.vm_id (handle_free backend text m s).0.budgets
        ≡ some (record b { used_mib = 0; handle_count = b.handle_count - 1 })
  unfolding handle_free finish_free free_bytes
  handle_free-resets m s b found long freed claim =
      let size = from_le (take 8 (drop 8 m.payload)) in
      let enough : ltb (length m.payload) 16 ≡ false = ground arith in
      rw (enough, freed)
        (lookup-modify ℕ_discrete m.header.vm_id m.header.vm_id (free_bytes size) s.budgets
          ∙ ground arith)
