-- ===== src/Store/Gauge.antt =====
-- The invariant of the store: one entry per key, whole pages, and the counter `pages_stored` (a
-- wrapping `u64`) equal to the number of pages.
use omega_fusion_core_proxmo.Prelude.{ℕ, ◌+◌, ◌%◌, ◌^◌, ◌≡◌, List, arith, length}
use omega_fusion_core_proxmo.Prelude.Assoc.{
  Distinct, AllValues, contains_key, insert-Distinct, remove-Distinct, modify-Distinct,
  insert-AllValues, remove-AllValues, modify-AllValues, length-insert, length-modify,
  length-remove_if,
}
use omega_fusion_core_proxmo.Store.Map.{
  length-remove_all, remove_all-Distinct, remove_all-AllValues, select-Present,
}
use omega_fusion_core_proxmo.Wire.{page_size}
use omega_fusion_core_proxmo.Store.{
  PageKey, PageKey-discrete, PageStore, len, put, get, delete, delete_vm, keys_for_vm,
}
use omega_fusion_core_proxmo.Store.Laws.{Command, puts, gets, deletes, deletes_vm, execute}

abbrev pub IsWhole : List ℕ × ℕ → Type 0
IsWhole e = length e.0 ≡ page_size

pub record IsConsistent (s : PageStore) : Type 0 where
  pub distinct : Distinct PageKey-discrete s.pages
  pub whole : AllValues PageKey-discrete IsWhole s.pages
  pub gauge : s.metrics.pages_stored ≡ len s % 2 ^ 64

module _ (s : PageStore) (v : IsConsistent s) where
  pub put-IsConsistent :
      (k : PageKey) (bytes : List ℕ) (now : ℕ) → IsConsistent (put s k bytes now).0
  unfolding put contains_key
  put-IsConsistent k bytes now = record {
    distinct =
        ground
          (arith, v.distinct, insert-Distinct PageKey-discrete k (bytes, now) s.pages v.distinct);
    whole = ground (
      arith,
      v.whole,
      λ (fits : length bytes ≡ page_size).
          insert-AllValues PageKey-discrete IsWhole k (bytes, now) s.pages fits v.whole,
    );
    gauge = ground (arith, v.gauge, length-insert PageKey-discrete k (bytes, now) s.pages);
  }

  pub get-IsConsistent : (k : PageKey) (now : ℕ) → IsConsistent (get s k now).0
  unfolding get
  get-IsConsistent k now = record {
    distinct = ground (
      arith,
      v.distinct,
      modify-Distinct PageKey-discrete k (λ e. (e.0, now)) s.pages v.distinct,
    );
    whole = ground (
      arith,
      v.whole,
      modify-AllValues PageKey-discrete IsWhole k (λ e. (e.0, now)) s.pages (λ e h. h) v.whole,
    );
    gauge = ground (arith, v.gauge, length-modify PageKey-discrete k (λ e. (e.0, now)) s.pages);
  }

  pub delete-IsConsistent : (k : PageKey) → IsConsistent (delete s k).0
  unfolding delete contains_key
  delete-IsConsistent k = record {
    distinct = ground (arith, v.distinct, remove-Distinct PageKey-discrete k s.pages v.distinct);
    whole = ground (arith, v.whole, remove-AllValues PageKey-discrete IsWhole k s.pages v.whole);
    gauge = ground (arith, v.gauge, length-remove_if PageKey-discrete k s.pages v.distinct);
  }

  -- In a consistent store, the number that `delete_vm` reports is the number of pages that it takes
  -- away.
  pub length-delete_vm : (vm : ℕ) → len (delete_vm s vm).0 + (delete_vm s vm).1 ≡ len s
  unfolding delete_vm
  length-delete_vm vm = ground (
    arith,
    length-remove_all PageKey-discrete (keys_for_vm s vm) s.pages v.distinct
        (select-Present PageKey-discrete _ s.pages v.distinct),
  )

  delete_vm-IsConsistent : (vm : ℕ) → IsConsistent (delete_vm s vm).0
  unfolding delete_vm
  delete_vm-IsConsistent vm = record {
    distinct =
        ground (arith, remove_all-Distinct PageKey-discrete (keys_for_vm s vm) s.pages v.distinct);
    whole =
        ground
          (arith, remove_all-AllValues PageKey-discrete IsWhole (keys_for_vm s vm) s.pages v.whole);
    gauge = ground (
      arith,
      v.gauge,
      length-remove_all PageKey-discrete (keys_for_vm s vm) s.pages v.distinct
          (select-Present PageKey-discrete _ s.pages v.distinct),
    );
  }

-- A put, get, delete or delete of a machine keeps a consistent store consistent: one entry per key,
-- each of them a whole page, and `pages_stored` equal to the number of pages modulo 2^64.
pub execute-IsConsistent :
    (now : ℕ) (s : PageStore) (c : Command) → IsConsistent s → IsConsistent (execute now s c).0
unfolding execute
execute-IsConsistent now s (puts k bytes) v = put-IsConsistent s v k bytes now
execute-IsConsistent now s (gets k) v = get-IsConsistent s v k now
execute-IsConsistent now s (deletes k) v = delete-IsConsistent s v k
execute-IsConsistent now s (deletes_vm vm) v = delete_vm-IsConsistent s v vm
