-- ===== src/Tests/InStore.antt =====
-- The store on two pages.
use omega_fusion_core_proxmo.Prelude.Assoc.{remove}
use omega_fusion_core_proxmo.Store.Map.{remove_all}
use omega_fusion_core_proxmo.Prelude.{
  lookup, ℕ_discrete, ◌≡◌, ◌≢◌, ◌≤◌, ◌<◌, refl, some, [], ◌∷◌, arith, All,
}
use omega_fusion_core_proxmo.Store.{
  PageKey, PageKey-discrete, PageStore, new_metrics, find, len, lru_victims, evict_lru,
}
use omega_fusion_core_proxmo.Store.Laws.{
  deletes_vm, puts, execute, view, spec_state, MatchesReply, execute-refines,
}
use omega_fusion_core_proxmo.Store.Gauge.{IsConsistent, execute-IsConsistent}
use omega_fusion_core_proxmo.Store.Eviction.{evict_lru_oldest, evict_lru_gauge}
use omega_fusion_core_proxmo.Tests.Samples.{page_of, length-page_of}

abbrev pub old_key : PageKey
old_key = record { vm_id = 7; page_id = 1 }

abbrev pub new_key : PageKey
new_key = record { vm_id = 8; page_id = 2 }

abbrev pub two_pages : PageStore
two_pages = record {
  pages = (new_key, (page_of 1, 20)) ∷ (old_key, (page_of 2, 10)) ∷ [];
  metrics = record new_metrics { pages_stored = 2; put_count = 2 };
}

pub two_pages-IsConsistent : IsConsistent two_pages
unfolding PageKey-discrete lookup ℕ_discrete
two_pages-IsConsistent = record {
  distinct = (refl, (refl, tt));
  whole = (length-page_of 1, (length-page_of 2, tt));
  gauge = refl;
}

execute-refines_example :
    ((q : PageKey)
      → view (execute 30 two_pages (deletes_vm 7)).0 q
        ≡ spec_state (view two_pages) (deletes_vm 7) q)
    × MatchesReply (view two_pages) (deletes_vm 7) (execute 30 two_pages (deletes_vm 7)).1
execute-refines_example =
    execute-refines 30 two_pages (deletes_vm 7) two_pages-IsConsistent.distinct

execute-IsConsistent_example :
    IsConsistent (execute 30 two_pages (puts (record { vm_id = 7; page_id = 5 }) (page_of 9))).0
execute-IsConsistent_example =
    execute-IsConsistent 30 two_pages (puts (record { vm_id = 7; page_id = 5 }) (page_of 9))
      two_pages-IsConsistent

newer_page_kept : find new_key (evict_lru two_pages 1).0.pages ≡ some (page_of 1, 20)
unfolding evict_lru lru_victims PageKey-discrete lookup remove_all remove ℕ_discrete
newer_page_kept = refl

evict_lru_oldest_example :
    (find new_key two_pages.pages ≡ some (page_of 1, 20))
    × All (λ e. (new_key ≢ e.0) × (e.1 ≤ 20)) (lru_victims two_pages.pages 1)
evict_lru_oldest_example =
    evict_lru_oldest two_pages 1 new_key (page_of 1) 20 two_pages-IsConsistent newer_page_kept

evict_lru_gauge_example :
    len (evict_lru two_pages 1).0 < (evict_lru two_pages 1).0.metrics.pages_stored
evict_lru_gauge_example =
    evict_lru_gauge two_pages 1 two_pages-IsConsistent (omega arith) (omega arith) (omega arith)
