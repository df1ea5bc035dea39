-- ===== src/Tests/Samples.antt =====
-- A compressor, texts, a backend and pages to run the models on.
use mathlib.Core.Path.{ap}
use omega_fusion_core_proxmo.Prelude.{
  ℕ, suc, ◌≡◌, ◌≤◌, ◌<◌, ◌^◌, refl, false, Option, none, some, List, [], ◌∷◌, ◌++◌, arith, ◌==◌,
  if◌then◌else◌, length, replicate, length-replicate,
}
use omega_fusion_core_proxmo.Wire.Codec.{Lz4}
use omega_fusion_core_proxmo.Server.{Texts, CephOps}

zeros : List ℕ → ℕ
zeros [] = 0
zeros (x ∷ xs) = if x == 0 then suc (zeros xs) else 0

after_zeros : List ℕ → List ℕ
after_zeros [] = []
after_zeros (x ∷ xs) = if x == 0 then after_zeros xs else x ∷ xs

zeros-after_zeros : (xs : List ℕ) → replicate (zeros xs) 0 ++ after_zeros xs ≡ xs
unfolding zeros after_zeros
zeros-after_zeros [] = refl
zeros-after_zeros (x ∷ xs) = ground (arith, zeros-after_zeros xs)

-- Leading zeros by their number, then the other bytes.
unfoldable pub squeeze : List ℕ → List ℕ
unfolding zeros after_zeros
squeeze xs = zeros xs ∷ 0 ∷ 0 ∷ 0 ∷ after_zeros xs

unfoldable pub expand : List ℕ → Option (List ℕ)
expand (n ∷ _ ∷ _ ∷ _ ∷ xs) = some (replicate n 0 ++ xs)
expand _ = none

pub expand-squeeze : (xs : List ℕ) → length xs < 2 ^ 32 → expand (squeeze xs) ≡ some xs
unfolding expand squeeze
expand-squeeze xs h = ap some (zeros-after_zeros xs)

pub squeeze_prefix : (xs : List ℕ) → 4 ≤ length (squeeze xs)
unfolding squeeze
squeeze_prefix xs = omega arith

abbrev pub zero_packer : Lz4
zero_packer = record {
  compress = squeeze;
  decompress = expand;
  decompress-compress = expand-squeeze;
  compress_prefix = squeeze_prefix;
}

abbrev pub texts : Texts
texts = record {
  store_full = 102 ∷ [];
  corrupt_batch = 99 ∷ [];
  unexpected_opcode = 111 ∷ [];
  size_error = λ n. 115 ∷ [];
  stats_json = λ n b. n ∷ [];
}

-- A backend that keeps nothing.
abbrev pub ops : CephOps ℕ
ops = record {
  ceph_put = λ c k bytes. (c, none);
  ceph_get = λ c k. (c, none);
  ceph_delete = λ c k. (c, false);
  ceph_len = λ c. 0;
}

-- A whole page of one byte.
pub page_of : ℕ → List ℕ
page_of b = replicate 4096 b

pub length-page_of : (b : ℕ) → length (page_of b) ≡ 4096
unfolding page_of
length-page_of b = length-replicate 4096 b
