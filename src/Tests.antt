-- ===== src/Tests.antt =====
-- Runs of the models on concrete inputs.
pub mod Samples
pub mod OnWire
pub mod InStore
pub mod AtServer
pub mod OfQuotas
pub mod OfClock
pub mod OnVcpus
pub mod OfClient
pub mod OnTracker
pub mod OfOrphans
pub mod OfPolicy
pub mod OfRebalance
pub mod OfCluster
pub mod OnDisks
pub mod OnGpu
pub mod OnMigration
pub mod OnPrefetch
