-- ===== src/Tracker/Synced.antt =====
-- The invariant of the daemon's store: the tracker counts, for each machine, the pages that the
-- store has for it.
use omega_fusion_core_proxmo.Prelude.{
  ℕ, zero, suc, ◌-◌, ◌^◌, ◌<◌, ◌≡◌, ◌≢◌, refl, sym, ap, ◌∙◌, false, List, [], ◌∷◌, arith, length,
  length-select-le, ltb, leb, ◌&&◌, ◌==◌, if◌then◌else◌, select, ℕ_discrete, Bool-cases, inl, inr,
  All,
}
use omega_fusion_core_proxmo.Prelude.Int.{ℤ, pos, negsuc}
use omega_fusion_core_proxmo.Prelude.Assoc.{keys, contains_key, remove, lookup-insert}
use omega_fusion_core_proxmo.Store.Map.{remove_all}
use omega_fusion_core_proxmo.Store.{
  PageKey, PageKey-discrete, PageStore, Pages, put, get, delete, len, keys_for_vm,
}
use omega_fusion_core_proxmo.Store.Laws.{find-delete_vm}
use omega_fusion_core_proxmo.Store.Gauge.{
  IsConsistent, put-IsConsistent, get-IsConsistent, delete-IsConsistent,
}
use omega_fusion_core_proxmo.Wire.{Opcode, Message, page_size}
use omega_fusion_core_proxmo.Server.{Texts, key_of}
use omega_fusion_core_proxmo.Tracker.{VmTracker, pages_stored_for, add_delta, record_page_stored}
use omega_fusion_core_proxmo.Tracker.Handlers.{
  NodeStore, track_put, tracked_put, tracked_get, tracked_delete, tracked_op,
  dispatch_with_tracking, delete_keys, negative, delete_vm_pages,
}
use omega_fusion_core_proxmo.Tracker.Counts.{
  count, count-insert, count-modify, count-remove, count-remove_all_ne, count_zero,
}

-- The pages of one machine.
abbrev pub of_vm : ℕ → Pages → ℕ
of_vm vm m = count PageKey-discrete (λ k. k.vm_id == vm) m

pub record IsTracked (d : NodeStore) : Type 0 where
  pub consistent : IsConsistent d.store
  pub synced : (vm : ℕ) → pages_stored_for d.tracker vm ≡ length (keys_for_vm d.store vm)

length-keys : (m : Pages) → length (keys m) ≡ length m
length-keys [] = refl
length-keys (e ∷ m) = ap suc (length-keys m)

-- The number of the machine's keys, by its count.
pub length-keys_for_vm : (s : PageStore) (vm : ℕ) → length (keys_for_vm s vm) ≡ of_vm vm s.pages
unfolding keys_for_vm
length-keys_for_vm s vm = length-keys (select (λ e. e.0.vm_id == vm) s.pages)

pages_stored_for-record_page_stored :
    (vm v : ℕ) (delta : ℤ) (t : VmTracker)
    → pages_stored_for (record_page_stored vm delta t) v
      ≡ (if vm == v then add_delta delta (pages_stored_for t vm) else pages_stored_for t v)
unfolding record_page_stored pages_stored_for
pages_stored_for-record_page_stored vm v delta t = ground (
  arith,
  lookup-insert ℕ_discrete vm v (add_delta delta (pages_stored_for t vm)) t.pages_stored_per_vm,
)

put-keys :
    (s : PageStore) (k : PageKey) (bytes : List ℕ) (now vm : ℕ)
    → length (keys_for_vm (put s k bytes now).0 vm) ≡ (
        if length bytes == page_size
        then if contains_key PageKey-discrete k s.pages
          then length (keys_for_vm s vm)
          else if k.vm_id == vm
          then suc (length (keys_for_vm s vm))
          else length (keys_for_vm s vm)
        else length (keys_for_vm s vm))
unfolding put
put-keys s k bytes now vm = ground (
  arith,
  length-keys_for_vm s vm,
  length-keys_for_vm (put s k bytes now).0 vm,
  count-insert PageKey-discrete (λ j. j.vm_id == vm) k (bytes, now) s.pages,
)

get-keys :
    (s : PageStore) (k : PageKey) (now vm : ℕ)
    → length (keys_for_vm (get s k now).0 vm) ≡ length (keys_for_vm s vm)
unfolding get
get-keys s k now vm = ground (
  arith,
  length-keys_for_vm s vm,
  length-keys_for_vm (get s k now).0 vm,
  count-modify PageKey-discrete (λ j. j.vm_id == vm) k (λ e. (e.0, now)) s.pages,
)

-- The pages after a deletion, found or not.
delete-pages :
    (s : PageStore) (k : PageKey) → (delete s k).0.pages ≡ remove PageKey-discrete k s.pages
unfolding delete
delete-pages s k = ground arith

delete-found :
    (s : PageStore) (k : PageKey) → (delete s k).1 ≡ contains_key PageKey-discrete k s.pages
unfolding delete
delete-found s k = ground arith

delete-keys :
    (s : PageStore) (k : PageKey) (vm : ℕ)
    → IsConsistent s
    → length (keys_for_vm s vm) ≡ (
        if (delete s k).1 && (k.vm_id == vm)
        then suc (length (keys_for_vm (delete s k).0 vm))
        else length (keys_for_vm (delete s k).0 vm))
delete-keys s k vm v =
    rw
      (
        length-keys_for_vm s vm,
        length-keys_for_vm (delete s k).0 vm,
        delete-pages s k,
        delete-found s k,
      )
      (ground (arith, count-remove PageKey-discrete (λ j. j.vm_id == vm) k s.pages v.distinct))

module _ (texts : Texts) (m : Message) (now : ℕ) (d : NodeStore) (t : IsTracked d) where
  tracked_get-IsTracked : IsTracked (tracked_get m now d).0
  unfolding tracked_get
  tracked_get-IsTracked = record {
    consistent = get-IsConsistent d.store t.consistent (key_of m.vm_id m.page_id) now;
    synced = λ vm. t.synced vm ∙ sym (get-keys d.store (key_of m.vm_id m.page_id) now vm);
  }

  -- A machine has at most as many pages as the store, which keeps the count from saturating.
  below_max : (vm : ℕ) → len d.store < 2 ^ 64 - 1 → pages_stored_for d.tracker vm < 2 ^ 64 - 1
  below_max vm room = omega (
    arith,
    t.synced vm,
    length-keys_for_vm d.store vm,
    length-select-le (λ e. e.0.vm_id == vm) d.store.pages,
  )

  put_synced :
      len d.store < 2 ^ 64 - 1
      → (vm : ℕ)
      → pages_stored_for
          (track_put texts m (put d.store (key_of m.vm_id m.page_id) m.payload now).1 d.tracker).0
          vm
        ≡ length (keys_for_vm (put d.store (key_of m.vm_id m.page_id) m.payload now).0 vm)
  unfolding track_put put add_delta
  put_synced room vm = ground (
    arith,
    put-keys d.store (key_of m.vm_id m.page_id) m.payload now vm,
    pages_stored_for-record_page_stored m.vm_id vm (pos 1) d.tracker,
    t.synced vm,
    below_max vm room,
  )

  delete_synced :
      (vm : ℕ)
      → pages_stored_for (tracked_delete m d).0.tracker vm
        ≡ length (keys_for_vm (tracked_delete m d).0.store vm)
  unfolding tracked_delete add_delta
  delete_synced vm = ground (
    arith,
    delete-keys d.store (key_of m.vm_id m.page_id) vm t.consistent,
    pages_stored_for-record_page_stored m.vm_id vm (negsuc 0) d.tracker,
    t.synced vm,
  )

  tracked_put-IsTracked :
      (max_pages : ℕ) → len d.store < 2 ^ 64 - 1 → IsTracked (tracked_put texts m max_pages now d).0
  unfolding tracked_put
  tracked_put-IsTracked max_pages room =
      elim (Bool-cases (ltb 0 max_pages && leb max_pages (len d.store))) [
        | inl full ↦ rw full t
        | inr free ↦ rw free record {
          consistent =
              put-IsConsistent d.store t.consistent (key_of m.vm_id m.page_id) m.payload now;
          synced = put_synced room;
        }
      ]

  tracked_delete-IsTracked : IsTracked (tracked_delete m d).0
  unfolding tracked_delete
  tracked_delete-IsTracked = record {
    consistent =
        ground (
          arith,
          t.consistent,
          delete-IsConsistent d.store t.consistent (key_of m.vm_id m.page_id),
        );
    synced = delete_synced;
  }

-- In a daemon's store that is consistent, holds fewer than 2^64 - 1 pages and whose tracker counts
-- for each machine the pages that the store has for it, any message leaves all this true after
-- `dispatch_with_tracking`, but for the bound.
pub dispatch_with_tracking-IsTracked :
    (texts : Texts) (m : Message) (max_pages now : ℕ) (d : NodeStore)
    → IsTracked d
    → len d.store < 2 ^ 64 - 1
    → IsTracked (dispatch_with_tracking texts m max_pages now d).0
unfolding dispatch_with_tracking tracked_op
dispatch_with_tracking-IsTracked texts m max_pages now d t room =
    elim m.opcode as (λ o. IsTracked (tracked_op texts o m max_pages now d).0) [
      | Opcode.put_page ↦ tracked_put-IsTracked texts m now d t max_pages room
      | Opcode.get_page ↦ tracked_get-IsTracked texts m now d t
      | Opcode.delete_page ↦ tracked_delete-IsTracked texts m now d t
      | _ ↦ t
    ]

delete_keys-pages :
    (ks : List PageKey) (s : PageStore)
    → (delete_keys ks s).pages ≡ remove_all PageKey-discrete ks s.pages
unfolding delete_keys remove_all
delete_keys-pages [] s = refl
delete_keys-pages (k ∷ ks) s = rw (← delete-pages s k) (delete_keys-pages ks (delete s k).0)

delete_keys-IsConsistent :
    (ks : List PageKey) (s : PageStore) → IsConsistent s → IsConsistent (delete_keys ks s)
unfolding delete_keys
delete_keys-IsConsistent [] s v = v
delete_keys-IsConsistent (k ∷ ks) s v =
    delete_keys-IsConsistent ks (delete s k).0 (delete-IsConsistent s v k)

keys_of_other :
    (s : PageStore) (vm v : ℕ) → vm ≢ v → All (λ k. (k.vm_id == v) ≡ false) (keys_for_vm s vm)
unfolding keys_for_vm
keys_of_other s vm v h = all_other s.pages
  where
    all_other :
        (m : Pages) → All (λ k. (k.vm_id == v) ≡ false) (keys (select (λ e. e.0.vm_id == vm) m))
    all_other [] = tt
    all_other ((k, e) ∷ m) = ground (arith, all_other m)

-- Deleting a machine's keys leaves none of its pages, and all those of the other machines.
pub of_vm-delete_keys :
    (s : PageStore) (vm v : ℕ)
    → of_vm v (delete_keys (keys_for_vm s vm) s).pages ≡ (if vm == v then 0 else of_vm v s.pages)
of_vm-delete_keys s vm v = rw (delete_keys-pages (keys_for_vm s vm) s) elim (Bool-cases (vm == v)) [
  | inl same ↦ rw same (
      count_zero PageKey-discrete (λ k. k.vm_id == v)
        (remove_all PageKey-discrete (keys_for_vm s vm) s.pages)
        λ k h. ground (arith, find-delete_vm s vm k))
  | inr other ↦ rw other (
      count-remove_all_ne PageKey-discrete (λ k. k.vm_id == v) (keys_for_vm s vm) s.pages
        (keys_of_other s vm v (ground arith)))
]

add_delta-negative : (n : ℕ) → add_delta (negative n) n ≡ 0
unfolding add_delta
add_delta-negative zero = refl
add_delta-negative (suc n) = ground arith

-- In a consistent daemon's store whose tracker counts each machine's pages, `delete_vm_pages` keeps
-- all counts right, reports the number that the tracker had for the machine, and leaves that number
-- at 0.
pub delete_vm_pages-IsTracked :
    (vm : ℕ) (d : NodeStore)
    → IsTracked d
    → IsTracked (delete_vm_pages vm d).0
      × ((delete_vm_pages vm d).1 ≡ pages_stored_for d.tracker vm)
      × (pages_stored_for (delete_vm_pages vm d).0.tracker vm ≡ 0)
unfolding delete_vm_pages
delete_vm_pages-IsTracked vm d t = (
  record {
    consistent = delete_keys-IsConsistent (keys_for_vm d.store vm) d.store t.consistent;
    synced = λ v. ground (
      arith,
      emptied v,
      of_vm-delete_keys d.store vm v,
      length-keys_for_vm (delete_keys (keys_for_vm d.store vm) d.store) v,
      length-keys_for_vm d.store v,
      t.synced v,
    );
  },
  sym (t.synced vm),
  ground (arith, emptied vm),
)
  where
    emptied :
        (v : ℕ)
        → pages_stored_for
            (record_page_stored vm (negative (length (keys_for_vm d.store vm))) d.tracker)
            v
          ≡ (if vm == v then 0 else pages_stored_for d.tracker v)
    emptied v = ground (
      arith,
      pages_stored_for-record_page_stored vm v (negative (length (keys_for_vm d.store vm)))
          d.tracker,
      t.synced vm,
      add_delta-negative (length (keys_for_vm d.store vm)),
    )
