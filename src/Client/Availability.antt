-- ===== src/Client/Availability.antt =====
-- Single reads and writes of the pool (node-a-agent/src/remote.rs), as the replicated client uses them.
use native.Mathlib.Nat.{mod-eq_of_lt, mod_self}
use omega_fusion_core_proxmo.Prelude.{
  dec_lt, ℕ, ◌+◌, ◌%◌, ◌≤◌, ◌<◌, ◌≡◌, ◌≢◌, refl, Bool, false, ◌&&◌, none, some, List, [], arith,
  ltb, leb, ==_iff, length,
}
use omega_fusion_core_proxmo.Prelude.Assoc.{lookup-insert_self}
use omega_fusion_core_proxmo.Wire.{page_size}
use omega_fusion_core_proxmo.Wire.Codec.{Lz4}
use omega_fusion_core_proxmo.Wire.Reader.{read_from_eof, read_exact_short}
use omega_fusion_core_proxmo.Store.{PageKey, PageKey-discrete, PageStore, find, put, get, len}
use omega_fusion_core_proxmo.Server.{Texts, CephOps, ram, key_of}
use omega_fusion_core_proxmo.Client.Exchange.{IsPlaced, send_recv-put, send_recv-get}
use omega_fusion_core_proxmo.Client.{
  Fate, answered, request_lost, reply_lost, Pool, ok, bail, transport, store_index, replica_index,
  with_store, received, send_recv, exchange, put_page, put_at, put_outcome, put_reply, get_page,
  get_at, get_outcome, get_reply,
}

-- A store of the pool that holds these bytes under the key.
pub record Holds {C : Type 0} (p : Pool C) (i vm page : ℕ) (bytes : List ℕ) : Type 0 where
  pub store : PageStore
  pub time : ℕ
  pub is_ram : p.store_at i ≡ ram store
  pub held : find (key_of vm page) store.pages ≡ some (bytes, time)

-- A store of the pool that takes a further page.
pub record HasRoom {C : Type 0} (p : Pool C) (i max_pages : ℕ) : Type 0 where
  pub store : PageStore
  pub is_ram : p.store_at i ≡ ram store
  pub room : (ltb 0 max_pages && leb max_pages (len store)) ≡ false

next_store-ne : (x n : ℕ) → 2 ≤ n → x < n → (x + 1) % n ≢ x
next_store-ne x n two below = elim (dec_lt (x + 1) n) [
  | yes inside ↦ omega (arith, mod-eq_of_lt inside)
  | no last ↦ let wraps : x + 1 ≡ n = omega arith in rw wraps (omega (arith, mod_self n))
]

pub replica-ne-store :
    {C : Type 0} (p : Pool C) (page : ℕ)
    → 2 ≤ p.num_stores
    → replica_index p page ≢ store_index p page
unfolding replica_index store_index
replica-ne-store p page two = next_store-ne (page % p.num_stores) p.num_stores two (omega arith)

nothing_received : (lz4 : Lz4) → received lz4 [] ≡ none
unfolding received
nothing_received lz4 =
    rw (read_from_eof lz4 [] (read_exact_short 20 [] (omega arith)), received) refl

pub find-put :
    (s : PageStore) (k : PageKey) (bytes : List ℕ) (now : ℕ)
    → length bytes ≡ page_size
    → find k (put s k bytes now).0.pages ≡ some (bytes, now)
unfolding put
find-put s k bytes now whole =
    ground (arith, lookup-insert_self PageKey-discrete k (bytes, now) s.pages)

module _ {C : Type 0} (ops : CephOps C) (texts : Texts) (lz4 : Lz4) (limit : ℕ → ℕ) where
  pub put_at_lem :
      (now i vm page : ℕ) (bytes : List ℕ) (s : PageStore) (p : Pool C)
      → IsPlaced vm page bytes
      → p.store_at i ≡ ram s
      → (ltb 0 (limit i) && leb (limit i) (len s)) ≡ false
      → put_at ops texts lz4 limit answered now i vm page bytes p
        ≡ (with_store i (ram (put s (key_of vm page) bytes now).0) p, ok tt)
  unfolding put_at put_outcome put_reply
  put_at_lem now i vm page bytes s p v at room =
      rw (send_recv-put ops texts lz4 limit now i vm page bytes s p v at room) refl

  pub get_at_lem :
      (sized : Bool) (now i vm page t : ℕ) (bytes : List ℕ) (s : PageStore) (p : Pool C)
      → IsPlaced vm page bytes
      → p.store_at i ≡ ram s
      → find (key_of vm page) s.pages ≡ some (bytes, t)
      → get_at ops texts lz4 limit sized answered now i vm page p
        ≡ (with_store i (ram (get s (key_of vm page) now).0) p, ok (some bytes))
  unfolding get_at get_outcome get_reply
  get_at_lem sized now i vm page t bytes s p v at found =
      rw (send_recv-get ops texts lz4 limit now i vm page t bytes s p v at found)
        (ground (arith, v.whole))

  pub put_at-Holds :
      (now i vm page : ℕ) (bytes : List ℕ) (p : Pool C)
      → IsPlaced vm page bytes
      → HasRoom p i (limit i)
      → ((put_at ops texts lz4 limit answered now i vm page bytes p).1 ≡ ok tt)
        × Holds (put_at ops texts lz4 limit answered now i vm page bytes p).0 i vm page bytes
  put_at-Holds now i vm page bytes p v h =
      rw (put_at_lem now i vm page bytes h.store p v h.is_ram h.room) (
        refl,
        record {
          store = (put h.store (key_of vm page) bytes now).0;
          time = now;
          is_ram = ground arith;
          held = find-put h.store (key_of vm page) bytes now v.whole;
        },
      )

  pub put_page-whole :
      (fate : Fate) (now vm page : ℕ) (bytes : List ℕ) (p : Pool C)
      → length bytes ≡ page_size
      → put_page ops texts lz4 limit fate now vm page bytes p
        ≡ put_at ops texts lz4 limit fate now (store_index p page) vm page bytes p
  unfolding put_page
  put_page-whole fate now vm page bytes p whole =
      rw ((==_iff (length bytes) page_size).1 whole) refl

  pub put_at_lost :
      (now i vm page : ℕ) (bytes : List ℕ) (p : Pool C)
      → put_at ops texts lz4 limit request_lost now i vm page bytes p
        ≡ (with_store i (p.store_at i) p, bail transport)
  unfolding put_at put_outcome send_recv exchange
  put_at_lost now i vm page bytes p = rw (nothing_received lz4, put_outcome) refl

  -- A failed exchange with one store leaves the others as they were.
  pub get_page_failed :
      (fate : Fate) (now vm page : ℕ) (p : Pool C)
      → fate ≢ answered
      → ((get_page ops texts lz4 limit fate now vm page p).1 ≡ bail transport)
        × ((get_page ops texts lz4 limit fate now vm page p).0.num_stores ≡ p.num_stores)
        × ((j : ℕ)
            → j ≢ store_index p page
            → (get_page ops texts lz4 limit fate now vm page p).0.store_at j ≡ p.store_at j)
  unfolding get_page get_at get_outcome send_recv exchange
  get_page_failed answered now vm page p h = absurd (h refl)
  get_page_failed request_lost now vm page p h =
      (rw (nothing_received lz4) refl, refl, λ j other. ground arith)
  get_page_failed reply_lost now vm page p h =
      (rw (nothing_received lz4) refl, refl, λ j other. ground arith)
