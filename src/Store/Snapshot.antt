-- ===== src/Store/Snapshot.antt =====
-- `StoreMetrics::snapshot` of node-bc-store/src/metrics.rs: the counters as the status page shows
-- them, without the hit rate, which is a rounded `f64`.
use omega_fusion_core_proxmo.Prelude.{ℕ, ◌*◌, ◌%◌, ◌^◌}
use omega_fusion_core_proxmo.Store.{StoreMetrics}

pub record MetricsSnapshot : Type 0 where
  pub pages_stored : ℕ
  pub estimated_bytes : ℕ
  pub put_count : ℕ
  pub get_count : ℕ
  pub delete_count : ℕ
  pub hit_count : ℕ
  pub miss_count : ℕ
  pub active_connections : ℕ

unfoldable pub snapshot : StoreMetrics → MetricsSnapshot
snapshot m = record {
  pages_stored = m.pages_stored;
  estimated_bytes = m.pages_stored * 4096 % 2 ^ 64;
  put_count = m.put_count;
  get_count = m.get_count;
  delete_count = m.delete_count;
  hit_count = m.hit_count;
  miss_count = m.miss_count;
  active_connections = m.connections;
}
