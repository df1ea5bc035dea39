-- ===== src/Orphans.antt =====
-- node-bc-store/src/orphan_cleaner.rs: the pass that deletes the pages of machines that Proxmox no
-- longer lists. What `pvesh` answers is an argument, `none` when it fails; so is the time.
pub mod Entries
pub mod Grace
use omega_fusion_core_proxmo.Prelude.{
  ℕ, ◌-◌, Bool, true, false, not, Option, none, some, List, [], ◌∷◌, leb, ◌==◌, if◌then◌else◌, max,
  select, ℕ_discrete,
}
use omega_fusion_core_proxmo.Prelude.Assoc
use omega_fusion_core_proxmo.Prelude.Assoc.{keys}
use omega_fusion_core_proxmo.Server.{AnyStore, CephOps, Texts, any_list_vm_ids, any_delete_vm}

-- When each machine was first seen to be absent: `HashMap<u32, Instant>`.
abbrev pub Absences : Type 0
Absences = List (ℕ × ℕ)

unfoldable pub contains : ℕ → List ℕ → Bool
contains v [] = false
contains v (x ∷ xs) = if x == v then true else contains v xs

-- `retain`: the machines that have come back are forgotten.
unfoldable pub still_absent : List ℕ → Absences → Absences
unfolding contains
still_absent cluster m = select (λ e. not (contains e.0 cluster)) m

-- `entry(vmid).or_insert(now)`.
unfoldable pub or_insert : ℕ → ℕ → Absences → Absences
or_insert v now m = if Assoc.contains_key ℕ_discrete v m then m else Assoc.insert ℕ_discrete v now m

unfoldable pub note_absent : List ℕ → ℕ → List ℕ → Absences → Absences
unfolding contains or_insert
note_absent cluster now [] m = m
note_absent cluster now (v ∷ vs) m =
    note_absent cluster now vs (if contains v cluster then m else or_insert v now m)

-- The machines to delete; `duration_since` stops at 0.
unfoldable pub expired : ℕ → ℕ → Absences → List ℕ
expired grace now m = keys (select (λ e. leb grace (now - e.1)) m)

-- `Duration::from_secs(check_interval_secs.max(60))`.
unfoldable pub check_interval : ℕ → ℕ
check_interval secs = max secs 60

pub record Cleaner (C : Type 0) : Type 0 where
  pub store : AnyStore C
  pub absent_since : Absences

module _ {C : Type 0} (ops : CephOps C) (texts : Texts) where
  unfoldable pub delete_orphans : List ℕ → Cleaner C → Cleaner C
  delete_orphans [] c = c
  delete_orphans (v ∷ vs) c = delete_orphans vs record {
    store = (any_delete_vm ops texts c.store v).0;
    absent_since = Assoc.remove ℕ_discrete v c.absent_since;
  }

  -- The pass once the store has machines and Proxmox has answered.
  unfoldable pub sweep : ℕ → List ℕ → ℕ → List ℕ → Cleaner C → Cleaner C
  unfolding still_absent note_absent expired delete_orphans
  sweep grace cluster now ids c =
      let m = note_absent cluster now ids (still_absent cluster c.absent_since) in
      delete_orphans (expired grace now m) (record c { absent_since = m })

  -- The early returns: the store has no machine, or Proxmox does not answer.
  unfoldable pub pass_over : ℕ → List ℕ → Option (List ℕ) → ℕ → Cleaner C → Cleaner C
  unfolding sweep
  pass_over grace [] answer now c = c
  pass_over grace (v ∷ vs) none now c = c
  pass_over grace (v ∷ vs) (some cluster) now c = sweep grace cluster now (v ∷ vs) c

  unfoldable pub cleanup_pass : ℕ → Option (List ℕ) → ℕ → Cleaner C → Cleaner C
  unfolding pass_over
  cleanup_pass grace answer now c = pass_over grace (any_list_vm_ids ops texts c.store) answer now c
