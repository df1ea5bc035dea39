-- ===== src/Client/Replication.antt =====
-- node-a-agent/src/replication.rs: each page on two stores. The two exchanges of `tokio::join!` reach
-- different stores and are written one after the other.
use omega_fusion_core_proxmo.Prelude.{
  ℕ, Bool, not, ◌&&◌, Option, none, some, List, min, max, leb, ◌==◌, if◌then◌else◌, length,
}
use omega_fusion_core_proxmo.Wire.{page_size}
use omega_fusion_core_proxmo.Wire.Codec.{Lz4}
use omega_fusion_core_proxmo.Server.{Texts, CephOps}
use omega_fusion_core_proxmo.Store.{fetch_add}
use omega_fusion_core_proxmo.Client
use omega_fusion_core_proxmo.Client.{Fate, Pool, Outcome, ok, bail, wrong_size}

pub record ReplicationMetrics : Type 0 where
  pub primary_puts : ℕ
  pub replica_puts : ℕ
  pub primary_gets : ℕ
  pub replica_gets : ℕ
  pub primary_fails : ℕ
  pub replica_fails : ℕ

pub record ReplicatedStoreClient (C : Type 0) : Type 0 where
  pub pool : Pool C
  pub metrics : ReplicationMetrics
  pub factor : ℕ

abbrev pub no_counts : ReplicationMetrics
no_counts = record {
  primary_puts = 0;
  replica_puts = 0;
  primary_gets = 0;
  replica_gets = 0;
  primary_fails = 0;
  replica_fails = 0;
}

-- `ReplicatedStoreClient::new`.
unfoldable pub new_client : {C : Type 0} → Pool C → ℕ → ReplicatedStoreClient C
new_client pool factor = record {
  pool = pool;
  metrics = no_counts;
  factor = max (min factor pool.num_stores) 1;
}

abbrev pub replicates : {C : Type 0} → ReplicatedStoreClient C → Bool
replicates c = leb 2 c.factor && leb 2 c.pool.num_stores

unfoldable pub count_primary : Outcome (Unit {0}) → ReplicationMetrics → ReplicationMetrics
unfolding fetch_add
count_primary (ok _) m = record m { primary_puts = fetch_add m.primary_puts 1 }
count_primary (bail _) m = record m { primary_fails = fetch_add m.primary_fails 1 }

unfoldable pub count_replica : Outcome (Unit {0}) → ReplicationMetrics → ReplicationMetrics
unfolding fetch_add
count_replica (ok _) m = record m { replica_puts = fetch_add m.replica_puts 1 }
count_replica (bail _) m = record m { replica_fails = fetch_add m.replica_fails 1 }

-- One acceptance is enough; otherwise the error of the primary is reported.
unfoldable pub either_accepted : Outcome (Unit {0}) → Outcome (Unit {0}) → Outcome (Unit {0})
either_accepted (ok a) replica = ok a
either_accepted (bail e) (ok a) = ok a
either_accepted (bail e) (bail _) = bail e

module _ {C : Type 0} (ops : CephOps C) (texts : Texts) (lz4 : Lz4) (limit : ℕ → ℕ) where
  -- `to_primary` and `to_replica` are the fates of the two exchanges.
  unfoldable pub put_page :
      Fate
      → Fate
      → ℕ
      → ℕ
      → ℕ
      → List ℕ
      → ReplicatedStoreClient C
      → ReplicatedStoreClient C × Outcome (Unit {0})
  unfolding count_primary count_replica either_accepted
  put_page to_primary to_replica now vm page bytes c =
      let (p, first) = Client.put_page ops texts lz4 limit to_primary now vm page bytes c.pool in
      let (q, second) =
        Client.put_page_replica ops texts lz4 limit to_replica now vm page bytes p in
      if not (length bytes == page_size)
      then (c, bail (wrong_size (length bytes)))
      else if replicates c
      then (
        record c { pool = q; metrics = count_replica second (count_primary first c.metrics) },
        either_accepted first second,
      )
      else (record c { pool = p; metrics = count_primary first c.metrics }, first)

  -- What the fallback makes of the reply of the replica.
  unfoldable pub replica_answer : Outcome (Option (List ℕ)) → Option (List ℕ)
  replica_answer (ok found) = found
  replica_answer (bail _) = none

  -- The read of the replica, once the primary gave no page.
  unfoldable pub fallback :
      Fate → ℕ → ℕ → ℕ → ReplicatedStoreClient C → ReplicatedStoreClient C × Option (List ℕ)
  unfolding replica_answer fetch_add
  fallback to_replica now vm page c =
      let (q, second) = Client.get_page_replica ops texts lz4 limit to_replica now vm page c.pool in
      let m = record c.metrics { replica_gets = fetch_add c.metrics.replica_gets 1 } in
      if replicates c
      then (record c { pool = q; metrics = m }, replica_answer second)
      else (c, none)

  -- The result is always `Ok`.
  unfoldable pub get_page :
      Fate → Fate → ℕ → ℕ → ℕ → ReplicatedStoreClient C → ReplicatedStoreClient C × Option (List ℕ)
  unfolding fallback fetch_add
  get_page to_primary to_replica now vm page c =
      let (p, first) = Client.get_page ops texts lz4 limit to_primary now vm page c.pool in
      let m = record c.metrics { primary_gets = fetch_add c.metrics.primary_gets 1 } in
      elim first [
        | ok (some bytes) ↦ (record c { pool = p; metrics = m }, some bytes)
        | ok none ↦ fallback to_replica now vm page (record c { pool = p; metrics = m })
        | bail _ ↦ fallback to_replica now vm page (record c {
          pool = p;
          metrics = record m { primary_fails = fetch_add m.primary_fails 1 };
        })
      ]

  unfoldable pub delete_page :
      Fate → Fate → ℕ → ℕ → ℕ → ReplicatedStoreClient C → ReplicatedStoreClient C × Outcome Bool
  delete_page to_primary to_replica now vm page c =
      let (p, first) = Client.delete_page ops texts lz4 limit to_primary now vm page c.pool in
      let q = (Client.delete_page_replica ops texts lz4 limit to_replica now vm page p).0 in
      elim first [
        | bail e ↦ (record c { pool = p }, bail e)
        | ok found ↦ (record c { pool = if replicates c then q else p }, ok found)
      ]
