-- ===== src/Clock.antt =====
-- node-a-agent/src/clock_eviction.rs: the CLOCK ring that picks the pages to send away. A hash set
-- of pages is its membership test; times are numbers, and `Instant::now()` is an argument.
pub mod Count
pub mod Selection
pub mod Presence
use omega_fusion_core_proxmo.Prelude.{
  ◌||◌, ℕ, zero, suc, ◌+◌, ◌-◌, ◌%◌, ◌^◌, Bool, true, false, not, ◌&&◌, Option, none, some, List,
  [], ◌∷◌, ◌++◌, lookup, ltb, leb, ◌==◌, if◌then◌else◌, length, select, ℕ_discrete,
}
use omega_fusion_core_proxmo.Prelude.Assoc
use omega_fusion_core_proxmo.Prelude.Assoc.{values}

pub record PageMeta : Type 0 where
  pub access_bit : Bool
  pub last_access : ℕ
  pub eviction_count : ℕ
  pub is_remote : Bool

-- `PageMeta::default`.
abbrev pub default_meta : ℕ → PageMeta
default_meta now = record {
  access_bit = true;
  last_access = now;
  eviction_count = 0;
  is_remote = false;
}

-- `ClockRingInner`.
pub record Ring : Type 0 where
  pub deque : List ℕ
  pub present : ℕ → Bool

pub record ClockEvictor : Type 0 where
  pub meta : List (ℕ × PageMeta)
  pub ring : Ring
  pub min_age : ℕ

abbrev pub empty_ring : Ring
empty_ring = record { deque = []; present = λ x. false }

-- `ClockEvictor::new`.
abbrev pub new_evictor : ℕ → ClockEvictor
new_evictor min_age = record { meta = []; ring = empty_ring; min_age = min_age }

unfoldable pub push_back : Ring → ℕ → Ring
push_back r id = record {
  deque = r.deque ++ id ∷ [];
  present = λ x. if x == id then true else r.present x;
}

unfoldable pub pop_front : Ring → Option (ℕ × Ring)
pop_front r = elim r.deque [
  | [] ↦ none
  | id ∷ rest ↦
      some (id, record { deque = rest; present = λ x. if x == id then false else r.present x })
]

-- The rotation: the page goes to the back, and the set is not touched.
unfoldable pub push_back_front : Ring → ℕ → Ring
push_back_front r id = record r { deque = r.deque ++ id ∷ [] }

unfoldable pub remove_page : Ring → ℕ → Ring
remove_page r id = record {
  deque = select (λ x. not (x == id)) r.deque;
  present = λ x. if x == id then false else r.present x;
}

abbrev pub meta_of : List (ℕ × PageMeta) → ℕ → Option PageMeta
meta_of m page = lookup ℕ_discrete page m

unfoldable pub mark_present : ℕ → ℕ → ClockEvictor → ClockEvictor
unfolding push_back
mark_present now page c =
    let known =
      Assoc.modify ℕ_discrete page
        (λ m. record m { access_bit = true; last_access = now; is_remote = false }) c.meta in
    let added = Assoc.insert ℕ_discrete page (default_meta now) c.meta in
    record c {
      meta = if Assoc.contains_key ℕ_discrete page c.meta then known else added;
      ring = if c.ring.present page then c.ring else push_back c.ring page;
    }

unfoldable pub mark_accessed : ℕ → ℕ → ClockEvictor → ClockEvictor
mark_accessed now page c = record c {
  meta =
      Assoc.modify ℕ_discrete page (λ m. record m { access_bit = true; last_access = now }) c.meta;
}

unfoldable pub mark_remote : ℕ → ClockEvictor → ClockEvictor
unfolding remove_page
mark_remote page c = record c {
  meta =
      Assoc.modify ℕ_discrete page
        (λ m. record m { is_remote = true; eviction_count = (m.eviction_count + 1) % 2 ^ 32 })
        c.meta;
  ring = remove_page c.ring page;
}

-- Not used of late, old enough, and local; a page without metadata is not.
unfoldable pub is_evictable : ℕ → ℕ → List (ℕ × PageMeta) → ℕ → Bool
is_evictable now min_age meta page = elim (meta_of meta page) [
  | none ↦ false
  | some m ↦ not m.access_bit && leb min_age (now - m.last_access) && not m.is_remote
]

unfoldable pub clear_bit : ℕ → List (ℕ × PageMeta) → List (ℕ × PageMeta)
clear_bit page meta = Assoc.modify ℕ_discrete page (λ m. record m { access_bit = false }) meta

-- The state of the loop in `select_victims`.
pub record Sweep : Type 0 where
  pub meta : List (ℕ × PageMeta)
  pub ring : Ring
  pub victims : List ℕ

-- One round at the page under the hand, and the ring without it.
unfoldable pub sweep_page : ℕ → ℕ → ℕ → Ring → Sweep → Sweep
unfolding push_back_front clear_bit
sweep_page now min_age page popped w =
    if is_evictable now min_age w.meta page
    then (record w { ring = popped; victims = w.victims ++ page ∷ [] })
    else (record w { meta = clear_bit page w.meta; ring = push_back_front popped page })

-- The `while`; the first argument is the number of rounds left, `max_iterations - iters`.
unfoldable pub sweep : ℕ → ℕ → ℕ → ℕ → Sweep → Sweep
sweep zero now min_age count w = w
sweep (suc left) now min_age count w =
    if ltb (length w.victims) count
    then elim (pop_front w.ring) [
      | none ↦ w
      | some (page, popped) ↦ sweep left now min_age count (sweep_page now min_age page popped w)
    ]
    else w

unfoldable pub select_victims : ℕ → ℕ → ClockEvictor → ClockEvictor × List ℕ
select_victims now count c =
    let w =
      sweep (length c.ring.deque) now c.min_age count
        (record { meta = c.meta; ring = c.ring; victims = [] }) in
    if length c.ring.deque == 0 || count == 0
    then (c, [])
    else (record c { meta = w.meta; ring = w.ring }, w.victims)

unfoldable pub local_count : ClockEvictor → ℕ
local_count c = length c.ring.deque

unfoldable pub cold_pages_count : ClockEvictor → ℕ
cold_pages_count c =
    length (select (λ (m : PageMeta). not m.access_bit && not m.is_remote) (values c.meta))
