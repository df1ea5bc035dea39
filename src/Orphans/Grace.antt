-- ===== src/Orphans/Grace.antt =====
-- Which pages a pass of the orphan cleaner takes away.
use omega_fusion_core_proxmo.Prelude.{
  ℕ, ◌-◌, ◌≤◌, ◌≡◌, ◌≢◌, refl, true, false, none, some, List, [], ◌∷◌, arith, lookup, ◌==◌,
  if◌then◌else◌, ℕ_discrete, Bool-cases, inl, inr,
}
use omega_fusion_core_proxmo.Prelude.Assoc.{remove, Distinct}
use omega_fusion_core_proxmo.Store.{
  PageKey, PageStore, Pages, find, delete_vm, list_vm_ids, vm_ids, add_id,
}
use omega_fusion_core_proxmo.Store.Laws.{find-delete_vm}
use omega_fusion_core_proxmo.Server.{
  AnyStore, ram, ceph, CephOps, Texts, any_list_vm_ids, any_delete_vm,
}
use omega_fusion_core_proxmo.Orphans.{
  Absences, contains, still_absent, note_absent, expired, Cleaner, delete_orphans, sweep, pass_over,
  cleanup_pass,
}
use omega_fusion_core_proxmo.Orphans.Entries.{
  lookup-still_absent, note_absent-some, expired-contains, expired_entry,
}

abbrev pub pages_of : {C : Type 0} → AnyStore C → Pages
pages_of (ram s) = s.pages
pages_of (ceph c) = []

module _ {C : Type 0} (ops : CephOps C) (texts : Texts) where
  find-any_delete_vm :
      (st : AnyStore C) (v : ℕ) (q : PageKey)
      → find q (pages_of (any_delete_vm ops texts st v).0)
        ≡ (if q.vm_id == v then none else find q (pages_of st))
  unfolding any_delete_vm delete_vm lookup
  find-any_delete_vm (ram s) v q = ground (arith, find-delete_vm s v q)
  find-any_delete_vm (ceph c) v q = ground arith

  find-delete_orphans :
      (vs : List ℕ) (c : Cleaner C) (q : PageKey)
      → find q (pages_of (delete_orphans ops texts vs c).store)
        ≡ (if contains q.vm_id vs then none else find q (pages_of c.store))
  unfolding delete_orphans contains
  find-delete_orphans [] c q = refl
  find-delete_orphans (v ∷ vs) c q =
      let next : Cleaner C = record {
        store = (any_delete_vm ops texts c.store v).0;
        absent_since = remove ℕ_discrete v c.absent_since;
      } in
      ground (arith, find-delete_orphans vs next q, find-any_delete_vm c.store v q)

  find-sweep :
      (grace now : ℕ) (cluster ids : List ℕ) (c : Cleaner C) (q : PageKey)
      → find q (pages_of (sweep ops texts grace cluster now ids c).store) ≡ (
          if contains q.vm_id
            (expired grace now (note_absent cluster now ids (still_absent cluster c.absent_since)))
          then none
          else find q (pages_of c.store))
  unfolding sweep
  find-sweep grace now cluster ids c q =
      let m = note_absent cluster now ids (still_absent cluster c.absent_since) in
      find-delete_orphans (expired grace now m) (record c { absent_since = m }) q

  -- A machine whose pages a sweep takes away is not listed, and was seen absent long ago.
  sweep_lost :
      (grace now : ℕ) (cluster ids : List ℕ) (c : Cleaner C) (q : PageKey) (e : List ℕ × ℕ)
      → Distinct ℕ_discrete c.absent_since
      → 1 ≤ grace
      → find q (pages_of c.store) ≡ some e
      → find q (pages_of (sweep ops texts grace cluster now ids c).store) ≢ some e
      → (contains q.vm_id cluster ≡ false)
        × (since : ℕ) × (lookup ℕ_discrete q.vm_id c.absent_since ≡ some since)
        × (grace ≤ now - since)
  sweep_lost grace now cluster ids c q e d positive before lost =
      elim (Bool-cases (
        contains q.vm_id (
          expired grace now (note_absent cluster now ids (still_absent cluster c.absent_since))))) [
            | inl gone ↦
                let (missing, t, old, recorded) =
                  expired_entry grace now q.vm_id cluster ids c.absent_since d gone in
                (missing, t, elim recorded [ inl r ↦ r | inr r ↦ absurd (omega arith) ], old)
            | inr stays ↦ absurd (lost (ground (arith, find-sweep grace now cluster ids c q)))
          ]

  -- With a positive grace period and one entry per machine in the record of absences, a page that
  -- is no longer there as it was after a pass with an answer of Proxmox belongs to a machine that
  -- the answer does not list and that earlier passes recorded as absent since a time at least the
  -- grace period ago.
  pub cleanup_pass_lost :
      (grace now : ℕ) (cluster : List ℕ) (c : Cleaner C) (q : PageKey) (e : List ℕ × ℕ)
      → Distinct ℕ_discrete c.absent_since
      → 1 ≤ grace
      → find q (pages_of c.store) ≡ some e
      → find q (pages_of (cleanup_pass ops texts grace (some cluster) now c).store) ≢ some e
      → (contains q.vm_id cluster ≡ false)
        × (since : ℕ) × (lookup ℕ_discrete q.vm_id c.absent_since ≡ some since)
        × (grace ≤ now - since)
  unfolding cleanup_pass pass_over
  cleanup_pass_lost grace now cluster c q e d positive before =
      over (any_list_vm_ids ops texts c.store)
    where
      over :
          (ids : List ℕ)
          → find q (pages_of (pass_over ops texts grace ids (some cluster) now c).store) ≢ some e
          → (contains q.vm_id cluster ≡ false)
            × (since : ℕ) × (lookup ℕ_discrete q.vm_id c.absent_since ≡ some since)
            × (grace ≤ now - since)
      over [] lost = absurd (lost before)
      over (v ∷ vs) lost = sweep_lost grace now cluster (v ∷ vs) c q e d positive before lost

  -- With one entry per machine in the record of absences, a pass leaves the pages of every machine
  -- that Proxmox lists as they were, whatever the grace period.
  pub cleanup_pass_listed :
      (grace now : ℕ) (cluster : List ℕ) (c : Cleaner C) (q : PageKey)
      → Distinct ℕ_discrete c.absent_since
      → contains q.vm_id cluster ≡ true
      → find q (pages_of (cleanup_pass ops texts grace (some cluster) now c).store)
        ≡ find q (pages_of c.store)
  unfolding cleanup_pass pass_over
  cleanup_pass_listed grace now cluster c q d listed = over (any_list_vm_ids ops texts c.store)
    where
      over :
          (ids : List ℕ)
          → find q (pages_of (pass_over ops texts grace ids (some cluster) now c).store)
            ≡ find q (pages_of c.store)
      over [] = refl
      over (v ∷ vs) =
          let due =
            expired grace now
              (note_absent cluster now (v ∷ vs) (still_absent cluster c.absent_since)) in
          let kept : contains q.vm_id due ≢ true = λ e.
            let (missing, _, _, _) =
              expired_entry grace now q.vm_id cluster (v ∷ vs) c.absent_since d e in
            cc in
          ground (arith, find-sweep grace now cluster (v ∷ vs) c q, kept)

add_id-ne : (v : ℕ) (ids : List ℕ) → add_id v ids ≢ []
unfolding add_id
add_id-ne v [] h = cc
add_id-ne v (x ∷ xs) h = elim (Bool-cases (x == v)) [
  | inl same ↦ let e : x ∷ xs ≡ [] = rw same at h in cc
  | inr other ↦ let e : x ∷ add_id v xs ≡ [] = rw other at h in cc
]

-- No machine has a page when the store lists no machine.
find-none : (m : Pages) (q : PageKey) → vm_ids m ≡ [] → find q m ≡ none
unfolding vm_ids lookup
find-none [] q h = refl
find-none (e ∷ m) q h = absurd (add_id-ne e.0.vm_id (vm_ids m) h)

module _ {C : Type 0} (ops : CephOps C) (texts : Texts) where
  -- A machine that is recorded long ago and not listed loses every page.
  cleanup_pass_expired :
      (grace now since : ℕ) (cluster : List ℕ) (s : PageStore) (m : Absences) (q : PageKey)
      → lookup ℕ_discrete q.vm_id m ≡ some since
      → contains q.vm_id cluster ≡ false
      → grace ≤ now - since
      → find q (
          pages_of
            (cleanup_pass ops texts grace
              (some cluster)
              now
              record { store = ram s; absent_since = m }).store)
        ≡ none
  unfolding cleanup_pass pass_over any_list_vm_ids list_vm_ids
  cleanup_pass_expired grace now since cluster s m q recorded missing old =
      over (list_vm_ids s) refl
    where
      over :
          (ids : List ℕ)
          → list_vm_ids s ≡ ids
          → find q (
              pages_of
                (pass_over ops texts grace ids
                  (some cluster)
                  now
                  record { store = ram s; absent_since = m }).store)
            ≡ none
      over [] h = find-none s.pages q h
      over (v ∷ vs) h = ground (
        arith,
        find-sweep ops texts grace now cluster (v ∷ vs) record { store = ram s; absent_since = m }
            q,
        expired-contains grace now q.vm_id since
            (note_absent cluster now (v ∷ vs) (still_absent cluster m))
            (note_absent-some cluster now q.vm_id since (v ∷ vs) (still_absent cluster m)
              (ground (arith, lookup-still_absent cluster q.vm_id m)))
            (ground arith),
      )

  cleanup_pass_empty :
      (grace now : ℕ) (cluster : List ℕ) (s : PageStore) (m : Absences)
      → list_vm_ids s ≡ []
      → cleanup_pass ops texts grace (some cluster) now record { store = ram s; absent_since = m }
        ≡ record { store = ram s; absent_since = m }
  unfolding cleanup_pass pass_over any_list_vm_ids
  cleanup_pass_empty grace now cluster s m h = rw h refl

  -- When a machine recorded as absent is listed again in a pass over a RAM store without pages, and
  -- a later pass over any RAM store does not list it at least the grace period after the recorded
  -- time, none of its pages is left: the pass in between did not end the absence.
  pub cleanup_pass_returned :
      (grace now later since : ℕ) (cluster cluster_later : List ℕ) (m : Absences)
      (s s_later : PageStore) (q : PageKey)
      → list_vm_ids s ≡ []
      → lookup ℕ_discrete q.vm_id m ≡ some since
      → contains q.vm_id cluster ≡ true
      → contains q.vm_id cluster_later ≡ false
      → grace ≤ later - since
      → find q (
          pages_of
            (cleanup_pass ops texts grace (some cluster_later) later record {
              store = ram s_later;
              absent_since =
                  (cleanup_pass ops texts grace
                    (some cluster)
                    now
                    record { store = ram s; absent_since = m }).absent_since;
            }).store)
        ≡ none
  cleanup_pass_returned grace now later since cluster cluster_later m s s_later q empty recorded
        back missing old =
      cleanup_pass_expired grace later since cluster_later s_later _ q
        (rw (cleanup_pass_empty grace now cluster s m empty) recorded) missing old
