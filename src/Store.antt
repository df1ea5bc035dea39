-- ===== src/Store.antt =====
-- node-bc-store/src/store.rs and the counters of metrics.rs: the pages that a node keeps in RAM for
-- the virtual machines of the others. `Instant::now()` is an argument.
pub mod Map
pub mod Order
pub mod Laws
pub mod Snapshot
pub mod Gauge
pub mod Eviction
use omega_fusion_core_proxmo.Prelude.{
  ℕ, suc, ◌+◌, ◌-◌, ◌*◌, ◌%◌, ◌^◌, Bool, true, false, Option, none, some, List, [], ◌∷◌, lookup,
  ltb, ◌==◌, if◌then◌else◌, length, take, select, map,
}
use omega_fusion_core_proxmo.Prelude.Assoc
use omega_fusion_core_proxmo.Prelude.Assoc.{keys}
use omega_fusion_core_proxmo.Wire.{page_size}
use native.Mathlib.Decide.{ℕ_discrete}
use Map.{remove_all}
use Order.{sort_by_time}

pub record PageKey : Type 0 where
  pub vm_id : ℕ
  pub page_id : ℕ

unfoldable pub PageKey-discrete : Discrete PageKey
PageKey-discrete = hlevel ℕ_discrete

pub record StoreMetrics : Type 0 where
  pub pages_stored : ℕ
  pub put_count : ℕ
  pub get_count : ℕ
  pub delete_count : ℕ
  pub hit_count : ℕ
  pub miss_count : ℕ
  pub connections : ℕ

-- `AtomicU64::fetch_add` and `fetch_sub` wrap.
unfoldable pub fetch_add : ℕ → ℕ → ℕ
fetch_add x n = (x + n) % 2 ^ 64

unfoldable pub fetch_sub : ℕ → ℕ → ℕ
fetch_sub x n = (x + 2 ^ 64 - n % 2 ^ 64) % 2 ^ 64

-- A page's bytes and the time of its last access.
abbrev pub Pages : Type 0
Pages = List (PageKey × (List ℕ × ℕ))

pub record PageStore : Type 0 where
  pub pages : Pages
  pub metrics : StoreMetrics

pub data PutResult : Type 0 where
  stored : Bool → PutResult
  wrong_size : ℕ → PutResult

unfoldable pub new_metrics : StoreMetrics
new_metrics = record {
  pages_stored = 0;
  put_count = 0;
  get_count = 0;
  delete_count = 0;
  hit_count = 0;
  miss_count = 0;
  connections = 0;
}

unfoldable pub new_store : StoreMetrics → PageStore
new_store m = record { pages = []; metrics = m }

abbrev pub find : PageKey → Pages → Option (List ℕ × ℕ)
find = lookup PageKey-discrete

-- The counters after a `put` that was accepted.
unfoldable pub count_put : Bool → StoreMetrics → StoreMetrics
unfolding fetch_add
count_put existed m = record m {
  pages_stored = if existed then m.pages_stored else fetch_add m.pages_stored 1;
  put_count = fetch_add m.put_count 1;
}

unfoldable pub put : PageStore → PageKey → List ℕ → ℕ → PageStore × PutResult
unfolding count_put
put s key bytes now =
    let existed = Assoc.contains_key PageKey-discrete key s.pages in
    let accepted : PageStore = record {
      pages = Assoc.insert PageKey-discrete key (bytes, now) s.pages;
      metrics = count_put existed s.metrics;
    } in
    if length bytes == page_size then (accepted, stored existed) else (s, wrong_size (length bytes))

unfoldable pub get : PageStore → PageKey → ℕ → PageStore × Option (List ℕ)
unfolding fetch_add
get s key now =
    let m = record s.metrics { get_count = fetch_add s.metrics.get_count 1 } in
    elim (find key s.pages) [
      | none ↦ (record s { metrics = record m { miss_count = fetch_add m.miss_count 1 } }, none)
      | some (bytes, _) ↦ (
        record {
          pages = Assoc.modify PageKey-discrete key (λ e. (e.0, now)) s.pages;
          metrics = record m { hit_count = fetch_add m.hit_count 1 };
        },
        some bytes,
      )
    ]

-- The counters after `count` pages were removed at once.
unfoldable pub count_delete : ℕ → StoreMetrics → StoreMetrics
unfolding fetch_add fetch_sub
count_delete count m = record m {
  pages_stored = fetch_sub m.pages_stored count;
  delete_count = fetch_add m.delete_count count;
}

unfoldable pub delete : PageStore → PageKey → PageStore × Bool
unfolding count_delete
delete s key =
    let pages = Assoc.remove PageKey-discrete key s.pages in
    if Assoc.contains_key PageKey-discrete key s.pages
    then (record { pages = pages; metrics = count_delete 1 s.metrics }, true)
    else (record s { pages = pages }, false)

abbrev pub len : PageStore → ℕ
len s = length s.pages

unfoldable pub estimated_bytes : PageStore → ℕ
estimated_bytes s = len s * page_size

unfoldable pub keys_for_vm : PageStore → ℕ → List PageKey
keys_for_vm s vm = keys (select (λ e. e.0.vm_id == vm) s.pages)

-- The ids, each once.
unfoldable pub add_id : ℕ → List ℕ → List ℕ
add_id v [] = v ∷ []
add_id v (x ∷ xs) = if x == v then x ∷ xs else x ∷ add_id v xs

unfoldable pub vm_ids : Pages → List ℕ
unfolding add_id
vm_ids [] = []
vm_ids (e ∷ m) = add_id e.0.vm_id (vm_ids m)

unfoldable pub list_vm_ids : PageStore → List ℕ
unfolding vm_ids
list_vm_ids s = vm_ids s.pages

unfoldable pub delete_vm : PageStore → ℕ → PageStore × ℕ
unfolding count_delete keys_for_vm
delete_vm s vm =
    let ks = keys_for_vm s vm in
    let count = length ks in
    let pages = remove_all PageKey-discrete ks s.pages in
    if ltb 0 count
    then (record { pages = pages; metrics = count_delete count s.metrics }, count)
    else (record s { pages = pages }, count)

-- `*counts.entry(vm_id).or_insert(0) += 1` over the pages.
unfoldable pub count_page : ℕ → List (ℕ × ℕ) → List (ℕ × ℕ)
count_page v [] = (v, 1) ∷ []
count_page v ((j, n) ∷ m) = if v == j then (j, n + 1) ∷ m else (j, n) ∷ count_page v m

unfoldable pub page_counts_by_vm : Pages → List (ℕ × ℕ)
unfolding count_page
page_counts_by_vm [] = []
page_counts_by_vm (e ∷ m) = count_page e.0.vm_id (page_counts_by_vm m)

-- The keys with their times, in the order of `sort_unstable_by_key`, cut after `count`.
unfoldable pub lru_victims : Pages → ℕ → List (PageKey × ℕ)
unfolding sort_by_time
lru_victims m count = take count (sort_by_time (map (λ e. (e.0, e.1.1)) m))

unfoldable pub evict_lru : PageStore → ℕ → PageStore × ℕ
unfolding lru_victims
evict_lru s count =
    let victims = lru_victims s.pages count in
    (record s { pages = remove_all PageKey-discrete (keys victims) s.pages }, length victims)
