-- ===== src/Disk/Shares.antt =====
-- What holds of every machine of the disk scheduler after any history of its operations.
use omega_fusion_core_proxmo.Prelude.{
  ℕ, ◌≤◌, ◌<◌, ◌≡◌, ◌⊎◌, refl, Bool, true, false, Option, none, some, List, [], ◌∷◌, lookup, arith,
  inl, inr, ℕ_discrete,
}
use mathlib.Core.Option
use omega_fusion_core_proxmo.Prelude.Int.{ℤ}
use omega_fusion_core_proxmo.Prelude.Assoc.{
  AllValues, insert-AllValues, remove-AllValues, modify-AllValues, lookup-AllValues,
}
use omega_fusion_core_proxmo.Disk.{
  VmDiskState, DiskIoScheduler, new_disk_state, new_disk_scheduler, total_bps, disk_idle_bps,
  upsert, ensure_vm, release_disk, set_rates, update_vm_io, set_node_pressure, set_weight,
  set_vm_weight, set_unsupported, mark_io_control_unsupported,
}

-- The timer runs exactly while the machine is at rest; the weight is one that the kernel takes; only
-- a machine whose I/O can be controlled has a share.
pub record IsSane (v : VmDiskState) : Type 0 where
  pub timer :
      ((v.idle_since ≡ none) × (disk_idle_bps < total_bps v))
      ⊎ ((t : ℕ) × (v.idle_since ≡ some t) × (total_bps v ≤ disk_idle_bps))
  pub weight_low : 1 ≤ v.io_weight
  pub weight_high : v.io_weight ≤ 10000
  pub controlled : (v.local_share_active ≡ false) ⊎ (v.io_control_supported ≡ true)

abbrev pub AllSane : DiskIoScheduler → Type 0
AllSane s = AllValues ℕ_discrete IsSane s.vms

pub data DiskEvent : Type 0 where
  ensured : ℕ → DiskEvent
  released : ℕ → DiskEvent
  measured : ℕ → ℤ → ℤ → DiskEvent
  pressed : ℤ → DiskEvent
  weighted : ℕ → ℕ → Bool → DiskEvent
  failed : ℕ → ℕ → DiskEvent

-- One call of the scheduler at a time.
unfoldable pub on_event : DiskIoScheduler → ℕ × DiskEvent → DiskIoScheduler
on_event s (now, ensured vm) = ensure_vm now vm s
on_event s (now, released vm) = release_disk vm s
on_event s (now, measured vm read written) = update_vm_io now vm read written s
on_event s (now, pressed p) = set_node_pressure p s
on_event s (now, weighted vm weight active) = set_vm_weight now vm weight active s
on_event s (now, failed vm reason) = (mark_io_control_unsupported now vm reason s).0

unfoldable pub after : DiskIoScheduler → List (ℕ × DiskEvent) → DiskIoScheduler
unfolding on_event
after s [] = s
after s (e ∷ es) = after (on_event s e) es

new_disk_state-IsSane : (now vm : ℕ) → IsSane (new_disk_state now vm)
unfolding new_disk_state total_bps
new_disk_state-IsSane now vm = record {
  timer = inr (now, refl, omega arith);
  weight_low = omega arith;
  weight_high = omega arith;
  controlled = inl refl;
}

set_rates-IsSane :
    (now : ℕ) (read written : ℤ) (v : VmDiskState)
    → IsSane v
    → IsSane (set_rates now read written v)
unfolding set_rates total_bps
set_rates-IsSane now read written v h = record {
  timer = ground arith;
  weight_low = h.weight_low;
  weight_high = h.weight_high;
  controlled = h.controlled;
}

set_weight-IsSane :
    (now weight : ℕ) (active : Bool) (v : VmDiskState)
    → IsSane v
    → IsSane (set_weight now weight active v)
unfolding set_weight total_bps
set_weight-IsSane now weight active v h = record {
  timer = h.timer;
  weight_low = omega arith;
  weight_high = omega arith;
  controlled = inr refl;
}

set_unsupported-IsSane :
    (now reason : ℕ) (v : VmDiskState) → IsSane v → IsSane (set_unsupported now reason v)
unfolding set_unsupported total_bps
set_unsupported-IsSane now reason v h = record {
  timer = h.timer;
  weight_low = omega arith;
  weight_high = omega arith;
  controlled = inl refl;
}

upsert-AllSane :
    (now vm : ℕ) (f : VmDiskState → VmDiskState) (s : DiskIoScheduler)
    → ((v : VmDiskState) → IsSane v → IsSane (f v))
    → AllSane s
    → AllSane (upsert now vm f s)
unfolding upsert
upsert-AllSane now vm f s keeps h =
    insert-AllValues ℕ_discrete IsSane vm _ s.vms (keeps _ (old (lookup ℕ_discrete vm s.vms) refl))
      h
  where
    old :
        (o : Option VmDiskState)
        → lookup ℕ_discrete vm s.vms ≡ o
        → IsSane (Option.get_or o (new_disk_state now vm))
    old none e = new_disk_state-IsSane now vm
    old (some v) e = lookup-AllValues ℕ_discrete IsSane vm v s.vms h e

on_event-AllSane : (s : DiskIoScheduler) (e : ℕ × DiskEvent) → AllSane s → AllSane (on_event s e)
unfolding on_event ensure_vm release_disk update_vm_io set_node_pressure set_vm_weight
    mark_io_control_unsupported
on_event-AllSane s (now, ensured vm) h = upsert-AllSane now vm (λ v. v) s (λ v k. k) h
on_event-AllSane s (now, released vm) h = remove-AllValues ℕ_discrete IsSane vm s.vms h
on_event-AllSane s (now, measured vm read written) h =
    upsert-AllSane now vm (set_rates now read written) s (set_rates-IsSane now read written) h
on_event-AllSane s (now, pressed p) h = h
on_event-AllSane s (now, weighted vm weight active) h =
    modify-AllValues ℕ_discrete IsSane vm (set_weight now weight active) s.vms
      (set_weight-IsSane now weight active) h
on_event-AllSane s (now, failed vm reason) h =
    upsert-AllSane now vm (set_unsupported now reason) s (set_unsupported-IsSane now reason) h

after-keeps : (s : DiskIoScheduler) (es : List (ℕ × DiskEvent)) → AllSane s → AllSane (after s es)
unfolding after
after-keeps s [] h = h
after-keeps s (e ∷ es) h = after-keeps (on_event s e) es (on_event-AllSane s e h)

-- After any history of calls of the disk scheduler (a machine registered, released or measured, the
-- pressure set, a weight set, a failed control noted), each machine's idle timer is set exactly
-- when its rate is at most the idle limit, its weight is from 1 to 10000, and it has an active
-- share only if its I/O can be controlled.
pub after-AllSane : (es : List (ℕ × DiskEvent)) → AllSane (after new_disk_scheduler es)
unfolding new_disk_scheduler
after-AllSane es = after-keeps new_disk_scheduler es tt
