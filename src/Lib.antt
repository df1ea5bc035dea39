-- ===== src/Lib.antt =====
-- The pages that a node keeps for the virtual machines of the others, the quota of each machine, the
-- choice of the pages to send away and to fetch ahead, the client that replicates pages, the vCPU slots
-- of a node, the admission of machines to the cluster, their migrations, and the sharing of GPUs.
--
-- How the parts interact: an agent (node-a-agent) picks cold pages with the CLOCK ring and sends them
-- in frames to a store (node-bc-store), whose server dispatches each message to its RAM or Ceph back
-- end. Its client spreads the pages over the stores and puts a copy of each on the next one. A cleaner
-- beside the store deletes the pages of machines that are gone from the cluster. The daemon
-- (omega-daemon) keeps a store with a tracker of its pages, the quotas and the vCPU slots of its
-- machines, and admits machines by the free memory of the nodes. Under memory pressure its eviction
-- engine asks a policy for migrations and has an executor run them; its multiplexer shares the GPU.
--
-- Files and code:
--   Wire and its children: node-bc-store/src/protocol.rs. `Message::read_from` and `write_to` are
--     `read_from` and `write_to` on a stream that is a list of bytes; `Message::try_compress` is
--     `try_compress`; `BatchPutRequest` and `BatchPutResponse` stand in Wire/Batch, the constructors of
--     requests and replies in Wire/Messages. lz4_flex is the parameter `Lz4` with its two laws.
--   Store and its children: node-bc-store/src/store.rs and metrics.rs. The DashMap is an association
--     list with one entry per key, a counter an `u64` that wraps, `Instant::now()` an argument.
--   Server and its children: node-bc-store/src/server.rs. `AnyStore`, `dispatch`, and
--     `handle_connection` as `serve`; no answer stands for a panic of the task. The Ceph client
--     (`CephOps`) and rendered texts (`Texts`) are parameters.
--   Quota and its children: omega-daemon/src/quota.rs, `VmQuota` and `QuotaRegistry`; Quota/Budget has
--     `set_quota` of control_api.rs there.
--   Clock and its children: node-a-agent/src/clock_eviction.rs, `ClockRingInner` as `Ring` and
--     `ClockEvictor`.
--   Vcpu and its children: omega-daemon/src/vcpu_scheduler.rs. Vcpu/Grid has the slots, Vcpu/Load the
--     state of one machine, Vcpu/Metrics the measurements and lists, Vcpu/Rollback the rollbacks.
--   Client: node-a-agent/src/remote.rs, `RemoteStorePool` as `Pool` over the stores that it reaches; an
--     exchange has a `Fate`. Client/Replication: node-a-agent/src/replication.rs.
--   Tracker: omega-daemon/src/vm_tracker.rs. Tracker/Handlers: the dispatcher of store_server.rs there,
--     and `delete_vm_pages` of cluster_api.rs (control_api.rs has the same code).
--   Orphans: node-bc-store/src/orphan_cleaner.rs, `cleanup_pass` over the store and `absent_since`.
--   Policy: omega-daemon/src/policy_engine.rs, the choice of a node; Policy/Admission: `admit_vm` and
--     `admit_batch`. Names of nodes are numbers, `i64` an integer without a bound. Policy/Rebalance:
--     `evaluate_gpu_rebalance`, with `i64` as it wraps (`wrap_i64`); what it computes in `f64` is the
--     parameter `Loads`.
--   Disk: omega-daemon/src/disk_io_scheduler.rs. Disk/Shares: a history of its calls.
--   Gpu: omega-daemon/src/gpu_protocol.rs, headers and frames. Gpu/Mux: gpu_multiplexer.rs there; the
--     physical GPU is the parameter `GpuBackend`, the texts of errors are `text`.
--   Migration: omega-daemon/src/vm_migration.rs, the table of migrations (`Executor`) and `qm`;
--     Migration/Tasks has the steps of `run_migration`, Migration/Choice the `MigrationPolicy`,
--     Migration/Cleanup `cleanup_after_migration`. Migration/Engine: `evaluate_eviction` of
--     eviction_engine.rs there.
--   Prefetch: node-a-agent/src/prefetch.rs, the history, the cache and the engine.
--   Cluster: node-a-agent/src/cluster.rs, `ClusterState` with the answers of the stores as arguments.
--   Prelude: lists, tests and association lists over native numbers. Tests: runs on concrete inputs.
--
-- Arithmetic that wraps does so as in a release build, where it does not panic.
--
-- Bounds and fuel: `serve` has a number of rounds; each message that is read takes at least its header
-- from the input, so one round more than the input has bytes is enough. `sweep` has the rounds that
-- the code grants itself, the length of the ring. The insertion into the cache of the prefetcher has
-- rounds, and one more than its queue has entries is enough where its bound is positive. The loop of a
-- GPU connection has rounds, too. `u64` and `u32` sums are written with their wrap.
--
-- Not modelled: sockets, TLS, tasks and locks (each operation that holds its lock is one step),
-- logs, JSON and Prometheus texts, percentages in floating point (the vCPU thresholds are
-- hundredths of a percent, compared by cross-multiplication, and so are those of migrations; disk
-- rates are whole bytes; the safety margin of admissions is a parameter), the two exchanges of a
-- replicated call at the same time (they reach different stores), Ceph, userfaultfd, QMP, cgroups,
-- the DRM calls of the GPU, the fault bus, and `evaluate_migrations` of the policy engine, whose
-- scores are floating point.
pub mod Prelude
pub mod Wire
pub mod Store
pub mod Server
pub mod Quota
pub mod Clock
pub mod Vcpu
pub mod Client
pub mod Tracker
pub mod Orphans
pub mod Policy
pub mod Disk
pub mod Gpu
pub mod Migration
pub mod Prefetch
pub mod Cluster
pub mod Tests
