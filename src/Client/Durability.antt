-- ===== src/Client/Durability.antt =====
-- Reads after writes through the replicated client (node-a-agent/src/replication.rs).
use omega_fusion_core_proxmo.Prelude.{
  ℕ, ◌+◌, ◌%◌, ◌≡◌, ◌≢◌, ◌⊎◌, refl, ap, ◌∙◌, true, false, some, List, arith, ==_iff, length,
}
use omega_fusion_core_proxmo.Wire.{page_size}
use omega_fusion_core_proxmo.Wire.Codec.{Lz4}
use omega_fusion_core_proxmo.Store.{put}
use omega_fusion_core_proxmo.Server.{Texts, CephOps, AnyStore, ram, key_of}
use omega_fusion_core_proxmo.Client
use omega_fusion_core_proxmo.Client.{
  Fate, answered, request_lost, reply_lost, Pool, Outcome, ok, bail, transport, store_index,
  replica_index, with_store, put_at, get_at,
}
use omega_fusion_core_proxmo.Client.Exchange.{IsPlaced}
use omega_fusion_core_proxmo.Client.Availability.{
  find-put, put_at_lost, Holds, HasRoom, replica-ne-store, put_page-whole, put_at_lem, get_at_lem,
  get_page_failed,
}
use omega_fusion_core_proxmo.Client.Replication.{
  ReplicatedStoreClient, replicates, put_page, get_page, fallback, replica_answer, either_accepted,
}

replica_index-same :
    {C : Type 0} (p q : Pool C) (page : ℕ)
    → p.num_stores ≡ q.num_stores
    → replica_index p page ≡ replica_index q page
unfolding replica_index store_index
replica_index-same p q page e = ap (λ n. (page % n + 1) % n) e

module _ {C : Type 0} (ops : CephOps C) (texts : Texts) (lz4 : Lz4) (limit : ℕ → ℕ) where
  get_page_held :
      (now vm page : ℕ) (bytes : List ℕ) (p : Pool C)
      → IsPlaced vm page bytes
      → Holds p (store_index p page) vm page bytes
      → (Client.get_page ops texts lz4 limit answered now vm page p).1 ≡ ok (some bytes)
  unfolding Client.get_page
  get_page_held now vm page bytes p v h =
      ap (λ r. r.1)
        (get_at_lem ops texts lz4 limit true now (store_index p page) vm page h.time bytes h.store p
          v h.is_ram h.held)

  get_page_replica_held :
      (now vm page : ℕ) (bytes : List ℕ) (p : Pool C)
      → IsPlaced vm page bytes
      → Holds p (replica_index p page) vm page bytes
      → (Client.get_page_replica ops texts lz4 limit answered now vm page p).1 ≡ ok (some bytes)
  unfolding Client.get_page_replica
  get_page_replica_held now vm page bytes p v h =
      ap (λ r. r.1)
        (get_at_lem ops texts lz4 limit false now (replica_index p page) vm page h.time bytes
          h.store p v h.is_ram h.held)

  -- The primary answers with what it holds.
  get_from_primary :
      (g : Fate) (now vm page : ℕ) (bytes : List ℕ) (c : ReplicatedStoreClient C)
      → IsPlaced vm page bytes
      → Holds c.pool (store_index c.pool page) vm page bytes
      → (get_page ops texts lz4 limit answered g now vm page c).1 ≡ some bytes
  unfolding get_page
  get_from_primary g now vm page bytes c v h =
      rw (get_page_held now vm page bytes c.pool v h, get_page) refl

  fallback_held :
      (now vm page : ℕ) (bytes : List ℕ) (c : ReplicatedStoreClient C)
      → IsPlaced vm page bytes
      → replicates c ≡ true
      → Holds c.pool (replica_index c.pool page) vm page bytes
      → (fallback ops texts lz4 limit answered now vm page c).1 ≡ some bytes
  unfolding fallback replica_answer
  fallback_held now vm page bytes c v two h =
      rw (two, fallback, get_page_replica_held now vm page bytes c.pool v h) refl

  -- The replica answers where the exchange with the primary failed.
  get_from_replica :
      (f : Fate) (now vm page : ℕ) (bytes : List ℕ) (c : ReplicatedStoreClient C)
      → IsPlaced vm page bytes
      → f ≢ answered
      → replicates c ≡ true
      → Holds c.pool (replica_index c.pool page) vm page bytes
      → (get_page ops texts lz4 limit f answered now vm page c).1 ≡ some bytes
  unfolding get_page
  get_from_replica f now vm page bytes c v failed two h =
      let r = Client.get_page ops texts lz4 limit f now vm page c.pool in
      let (outcome, size, others) =
        get_page_failed ops texts lz4 limit f now vm page c.pool failed in
      let same : replica_index r.0 page ≡ replica_index c.pool page =
        replica_index-same r.0 c.pool page size in
      let apart : replica_index c.pool page ≢ store_index c.pool page =
        replica-ne-store c.pool page (ground arith) in
      let still : Holds r.0 (replica_index r.0 page) vm page bytes = record {
        store = h.store;
        time = h.time;
        is_ram = rw same (others (replica_index c.pool page) apart ∙ h.is_ram);
        held = h.held;
      } in
      rw (outcome, get_page) (fallback_held now vm page bytes _ v (rw size two) still)

  -- What a replicated write is made of.
  put_page_parts :
      (f g : Fate) (now vm page : ℕ) (bytes : List ℕ) (c : ReplicatedStoreClient C) (p q : Pool C)
      (a b : Outcome (Unit {0}))
      → length bytes ≡ page_size
      → replicates c ≡ true
      → Client.put_page ops texts lz4 limit f now vm page bytes c.pool ≡ (p, a)
      → Client.put_page_replica ops texts lz4 limit g now vm page bytes p ≡ (q, b)
      → let r = put_page ops texts lz4 limit f g now vm page bytes c in
        (r.1 ≡ either_accepted a b) × (r.0.pool ≡ q) × (r.0.factor ≡ c.factor)
  unfolding put_page
  put_page_parts f g now vm page bytes c p q a b whole two first second =
      rw ((==_iff (length bytes) page_size).1 whole, two, first, second, put_page)
        (refl, refl, refl)

  primary_put :
      (now vm page : ℕ) (bytes : List ℕ) (p : Pool C) (v : IsPlaced vm page bytes)
      (h : HasRoom p (store_index p page) (limit (store_index p page)))
      → Client.put_page ops texts lz4 limit answered now vm page bytes p ≡ (
        with_store (store_index p page) (ram (put h.store (key_of vm page) bytes now).0) p,
        ok tt,
      )
  primary_put now vm page bytes p v h =
      put_page-whole ops texts lz4 limit answered now vm page bytes p v.whole
      ∙ put_at_lem ops texts lz4 limit now (store_index p page) vm page bytes h.store p v h.is_ram
          h.room

  -- The write to the replica, behind a change of another store.
  replica_put :
      (now vm page i : ℕ) (bytes : List ℕ) (t : AnyStore C) (p : Pool C)
      (v : IsPlaced vm page bytes)
      (h : HasRoom p (replica_index p page) (limit (replica_index p page)))
      → replica_index p page ≢ i
      → Client.put_page_replica ops texts lz4 limit answered now vm page bytes (with_store i t p)
        ≡ (
          with_store
              (replica_index p page)
              (ram (put h.store (key_of vm page) bytes now).0)
              (with_store i t p),
          ok tt,
        )
  unfolding Client.put_page_replica replica_index store_index
  replica_put now vm page i bytes t p v h apart =
      put_at_lem ops texts lz4 limit now (replica_index p page) vm page bytes h.store
        (with_store i t p) v (ground (arith, h.is_ram)) h.room

  -- After a write that both stores took, each of them holds the page.
  put_page_both :
      (now vm page : ℕ) (bytes : List ℕ) (c : ReplicatedStoreClient C)
      → IsPlaced vm page bytes
      → replicates c ≡ true
      → HasRoom c.pool (store_index c.pool page) (limit (store_index c.pool page))
      → HasRoom c.pool (replica_index c.pool page) (limit (replica_index c.pool page))
      → let r = put_page ops texts lz4 limit answered answered now vm page bytes c in
        (r.1 ≡ ok tt)
        × (replicates r.0 ≡ true)
        × Holds r.0.pool (store_index r.0.pool page) vm page bytes
        × Holds r.0.pool (replica_index r.0.pool page) vm page bytes
  unfolding either_accepted replica_index store_index
  put_page_both now vm page bytes c v two h k =
      let apart = replica-ne-store c.pool page (ground arith) in
      let s = put h.store (key_of vm page) bytes now in
      let t = put k.store (key_of vm page) bytes now in
      let (outcome, pool, factor) =
        put_page_parts answered answered now vm page bytes c _ _ _ _ v.whole two
          (primary_put now vm page bytes c.pool v h)
          (replica_put now vm page (store_index c.pool page) bytes (ram s.0) c.pool v k apart) in
      (
        outcome,
        rw (pool, factor) two,
        rw pool (record {
          store = s.0;
          time = now;
          is_ram = ground (arith, apart);
          held = find-put h.store (key_of vm page) bytes now v.whole;
        }),
        rw pool (record {
          store = t.0;
          time = now;
          is_ram = ground arith;
          held = find-put k.store (key_of vm page) bytes now v.whole;
        }),
      )

  -- A page of the right size and ids within their widths is put with both exchanges answered, where
  -- the client replicates and the RAM stores of the primary and of the replica have room: the put
  -- is `Ok`, and a later read gives the bytes back when its exchange with the primary or its
  -- exchange with the replica is answered, whatever becomes of the other.
  pub get_page-put_page :
      (f g : Fate) (now later vm page : ℕ) (bytes : List ℕ) (c : ReplicatedStoreClient C)
      → IsPlaced vm page bytes
      → replicates c ≡ true
      → HasRoom c.pool (store_index c.pool page) (limit (store_index c.pool page))
      → HasRoom c.pool (replica_index c.pool page) (limit (replica_index c.pool page))
      → (f ≡ answered) ⊎ (g ≡ answered)
      → let r = put_page ops texts lz4 limit answered answered now vm page bytes c in
        (r.1 ≡ ok tt) × ((get_page ops texts lz4 limit f g later vm page r.0).1 ≡ some bytes)
  get_page-put_page answered g now later vm page bytes c v two h k one =
      let (outcome, still, first, second) = put_page_both now vm page bytes c v two h k in
      (outcome, get_from_primary g later vm page bytes _ v first)
  get_page-put_page request_lost g now later vm page bytes c v two h k one =
      let (outcome, still, first, second) = put_page_both now vm page bytes c v two h k in
      let served : g ≡ answered = ground arith in
      (
        outcome,
        rw served (get_from_replica request_lost later vm page bytes _ v (λ e. cc) still second),
      )
  get_page-put_page reply_lost g now later vm page bytes c v two h k one =
      let (outcome, still, first, second) = put_page_both now vm page bytes c v two h k in
      let served : g ≡ answered = ground arith in
      (
        outcome,
        rw served (get_from_replica reply_lost later vm page bytes _ v (λ e. cc) still second),
      )

  -- Where the RAM store of the primary holds an old page of the right size, the client replicates
  -- and the replica's RAM store has room, a put that the primary does not get and the replica
  -- answers is `Ok`, and a later read that the primary answers gives the old bytes.
  pub get_page_stale :
      (g : Fate) (now later vm page : ℕ) (bytes old : List ℕ) (c : ReplicatedStoreClient C)
      → IsPlaced vm page bytes
      → length old ≡ page_size
      → replicates c ≡ true
      → Holds c.pool (store_index c.pool page) vm page old
      → HasRoom c.pool (replica_index c.pool page) (limit (replica_index c.pool page))
      → let r = put_page ops texts lz4 limit request_lost answered now vm page bytes c in
        (r.1 ≡ ok tt) × ((get_page ops texts lz4 limit answered g later vm page r.0).1 ≡ some old)
  unfolding either_accepted replica_index store_index
  get_page_stale g now later vm page bytes old c v whole two h k =
      let (outcome, pool, factor) =
        put_page_parts request_lost answered now vm page bytes c _ _ _ _ v.whole two
          (put_page-whole ops texts lz4 limit request_lost now vm page bytes c.pool v.whole
            ∙ put_at_lost ops texts lz4 limit now (store_index c.pool page) vm page bytes c.pool)
          (replica_put now vm page (store_index c.pool page) bytes
            (c.pool.store_at (store_index c.pool page)) c.pool v k
            (replica-ne-store c.pool page (ground arith))) in
      let placed : IsPlaced vm page old = record {
        vm_id_u32 = v.vm_id_u32;
        page_id_u64 = v.page_id_u64;
        whole = whole;
      } in
      let apart = replica-ne-store c.pool page (ground arith) in
      (
        outcome,
        get_from_primary g later vm page old _ placed (
            rw pool (record {
              store = h.store;
              time = h.time;
              is_ram = ground (arith, apart, h.is_ram);
              held = h.held;
            })),
      )
