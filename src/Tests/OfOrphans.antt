-- ===== src/Tests/OfOrphans.antt =====
-- The orphan cleaner on a store with pages of the machines 7 and 8.
use omega_fusion_core_proxmo.Prelude.{
  ◌≡◌, ◌≤◌, ◌-◌, refl, sym, ◌∙◌, false, ℕ, some, none, [], ◌∷◌, lookup, ℕ_discrete, arith,
}
use omega_fusion_core_proxmo.Prelude.Assoc.{remove, insert, contains_key}
use omega_fusion_core_proxmo.Store.Map.{remove_all}
use omega_fusion_core_proxmo.Store.{
  PageKey-discrete, find, new_store, new_metrics, vm_ids, add_id, list_vm_ids, delete_vm,
  keys_for_vm,
}
use omega_fusion_core_proxmo.Server.{ram, any_list_vm_ids, any_delete_vm}
use omega_fusion_core_proxmo.Orphans.{
  Cleaner, contains, cleanup_pass, pass_over, sweep, still_absent, note_absent, or_insert, expired,
  delete_orphans,
}
use omega_fusion_core_proxmo.Orphans.Grace.{pages_of, cleanup_pass_lost, cleanup_pass_returned}
use omega_fusion_core_proxmo.Tests.Samples.{texts, ops, page_of}
use omega_fusion_core_proxmo.Tests.InStore.{two_pages, old_key}

-- The machine 7 was seen absent at the time 100.
abbrev cleaner : Cleaner ℕ
cleaner = record { store = ram two_pages; absent_since = (7, 100) ∷ [] }

old_page_there : find old_key two_pages.pages ≡ some (page_of 2, 10)
unfolding PageKey-discrete lookup ℕ_discrete
old_page_there = refl

old_page_gone :
    find old_key (pages_of (cleanup_pass ops texts 300 (some (8 ∷ [])) 500 cleaner).store) ≡ none
unfolding PageKey-discrete lookup ℕ_discrete cleanup_pass pass_over sweep any_list_vm_ids
    list_vm_ids vm_ids add_id still_absent note_absent or_insert expired delete_orphans contains
    any_delete_vm delete_vm remove_all remove insert contains_key keys_for_vm
old_page_gone = refl

cleanup_pass_lost_example :
    (contains 7 (8 ∷ []) ≡ false)
    × (since : ℕ) × (lookup ℕ_discrete 7 ((7, 100) ∷ []) ≡ some since)
    × (300 ≤ 500 - since)
unfolding lookup
cleanup_pass_lost_example =
    cleanup_pass_lost ops texts 300 500 (8 ∷ []) cleaner old_key (page_of 2, 10) (refl, tt)
      (omega arith) old_page_there
      (λ e. let absent : none ≡ some (page_of 2, 10) = sym old_page_gone ∙ e in cc)

cleanup_pass_returned_example :
    find old_key (
      pages_of
        (cleanup_pass ops texts 300 (some (8 ∷ [])) 500 record {
          store = ram two_pages;
          absent_since =
              (cleanup_pass ops texts 300 (some (7 ∷ [])) 400 record {
                store = ram (new_store new_metrics);
                absent_since = (7, 100) ∷ [];
              }).absent_since;
        }).store)
    ≡ none
unfolding contains lookup ℕ_discrete list_vm_ids vm_ids new_store
cleanup_pass_returned_example =
    cleanup_pass_returned ops texts 300 400 500 100 (7 ∷ []) (8 ∷ []) ((7, 100) ∷ [])
      (new_store new_metrics) two_pages old_key refl refl refl refl (omega arith)
