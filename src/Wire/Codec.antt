-- ===== src/Wire/Codec.antt =====
-- lz4_flex, which the repository only calls: `compress_prepend_size` and
-- `decompress_size_prepended`. The first four bytes are the length, so nothing that was compressed
-- is empty, and a payload below 4 GiB comes back.
use omega_fusion_core_proxmo.Prelude.{ℕ, ◌^◌, ◌<◌, ◌≤◌, ◌≡◌, Option, some, List, length}

pub record Lz4 : Type 0 where
  pub compress : List ℕ → List ℕ
  pub decompress : List ℕ → Option (List ℕ)
  pub decompress-compress : (p : List ℕ) → length p < 2 ^ 32 → decompress (compress p) ≡ some p
  pub compress_prefix : (p : List ℕ) → 4 ≤ length (compress p)
