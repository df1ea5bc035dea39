-- ===== src/Wire/RoundTrip.antt =====
-- Frames written by `write_to` and read back by `read_from`.
use Prim.Native.Nat.{bit_or}
use omega_fusion_core_proxmo.Prelude.{
  ℕ, ◌%◌, ◌^◌, ◌≤◌, ◌<◌, ◌≡◌, ◌∙◌, some, List, ◌++◌, arith, length,
}
use omega_fusion_core_proxmo.Wire.Bytes.{IsByte, flag_bit, set_flag, clear_flag}
use omega_fusion_core_proxmo.Wire.Codec.{Lz4}
use omega_fusion_core_proxmo.Wire.{Message, done, write_to, unpack, read_from, try_compress}
use omega_fusion_core_proxmo.Wire.Reader.{IsSendable, payload_limit-lt, read_from-write_to-unpack}

module _ (lz4 : Lz4) where
  unpack_plain :
      (fl : ℕ) (raw : List ℕ) → IsByte fl → fl % 2 ≡ 0 → unpack lz4 fl raw ≡ done (raw, fl)
  unfolding unpack
  unpack_plain fl raw b e = ground (arith, flag_bit fl b)

  -- A message that can be sent and whose compression bit is clear is read from the stream as it was
  -- written, and the bytes behind its frame are left over.
  pub read_from-write_to :
      (m : Message) (rest : List ℕ)
      → IsSendable m
      → m.flags % 2 ≡ 0
      → read_from lz4 (write_to m ++ rest) ≡ done (m, rest)
  read_from-write_to m rest v e =
      read_from-write_to-unpack lz4 m rest v ∙ rw (unpack_plain m.flags m.payload v.flags_byte e)

  open lz4 use {compress, decompress-compress, compress_prefix}

  unpack_compressed :
      (fl : ℕ) (p : List ℕ)
      → IsByte fl
      → fl % 2 ≡ 0
      → length p < 2 ^ 32
      → unpack lz4 (bit_or fl 1) (compress p) ≡ done (p, fl)
  unfolding unpack
  unpack_compressed fl p b e fits =
      let byte : IsByte (bit_or fl 1) = omega (arith, set_flag fl b) in
      ground (
        arith,
        set_flag fl b,
        flag_bit (bit_or fl 1) byte,
        clear_flag (bit_or fl 1) byte,
        decompress-compress p fits,
        compress_prefix p,
      )

  try_compress_cases :
      (m c : Message)
      → try_compress lz4 m ≡ some c
      → (64 ≤ length m.payload)
        × (length (compress m.payload) < length m.payload)
        × (c ≡ record m { flags = bit_or m.flags 1; payload = compress m.payload })
  unfolding try_compress
  try_compress_cases m c h = ground arith

  -- For a codec that undoes its own compression, a message that can be sent (fields within their
  -- integer widths, payload within the limit of its opcode) and whose compression bit is clear:
  -- what `try_compress` returns for it has a shorter payload, can be sent, and is read from the
  -- stream as the original message with its original flags, the bytes behind the frame left over.
  pub read_from-try_compress :
      (m c : Message) (rest : List ℕ)
      → IsSendable m
      → m.flags % 2 ≡ 0
      → try_compress lz4 m ≡ some c
      → (length c.payload < length m.payload)
        × IsSendable c
        × (read_from lz4 (write_to c ++ rest) ≡ done (m, rest))
  read_from-try_compress m c rest v e h =
      let (long, shorter, same) = try_compress_cases m c h in
      let sendable : IsSendable
          (record m { flags = bit_or m.flags 1; payload = compress m.payload }) =
        rw (set_flag m.flags v.flags_byte) (omega (arith, v.payload_fits)) in
      rw same (
        shorter,
        sendable,
        read_from-write_to-unpack lz4 _ rest sendable
            ∙ rw (
                unpack_compressed m.flags m.payload v.flags_byte e
                  (omega (arith, payload_limit-lt m.opcode))),
      )
