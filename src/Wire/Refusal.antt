-- ===== src/Wire/Refusal.antt =====
-- What `read_from` (node-bc-store/src/protocol.rs) does with a payload over the limit, and with a
-- frame that is cut short.
use omega_fusion_core_proxmo.Prelude.{
  ℕ, ◌^◌, ◌<◌, ◌≡◌, ap, ◌∙◌, List, ◌++◌, arith, length, length-take, take, dec_lt, ◌-◌,
}
use omega_fusion_core_proxmo.Wire.Bytes.{IsByte, to_be, from_be-to_be, take_byte}
use omega_fusion_core_proxmo.Wire.Codec.{Lz4}
use omega_fusion_core_proxmo.Wire.{
  try_from, Message, err, magic, payload_limit, write_to, read_from, unexpected_eof,
  payload_too_large,
}
use omega_fusion_core_proxmo.Wire.Reader.{
  IsSendable, header, try_from-as_u8, payload_limit-lt, length-write_to, read_exact_short,
  read_exact-header, read_exact-header_cut, read_from_too_large, read_from_eof, read_from_cut,
}

module _ (lz4 : Lz4) where
  -- A message whose payload is over the limit of its opcode, with all fields within their integer
  -- widths, is written, and the reader refuses the frame with the size and the limit.
  pub read_from_oversized :
      (m : Message) (rest : List ℕ)
      → IsByte m.flags
      → m.vm_id < 2 ^ 32
      → m.page_id < 2 ^ 64
      → length m.payload < 2 ^ 32
      → payload_limit m.opcode < length m.payload
      → read_from lz4 (write_to m ++ rest)
        ≡ err (payload_too_large (length m.payload) (payload_limit m.opcode))
  unfolding to_be
  read_from_oversized m rest b v p l over =
      read_from_too_large lz4 (header m) _ (m.payload ++ rest) m.opcode (length m.payload)
        (read_exact-header m rest) (from_be-to_be 2 magic (omega arith))
        (ap try_from (take_byte _) ∙ try_from-as_u8 m.opcode) (from_be-to_be 4 (length m.payload) l)
        over

  -- For a message that can be sent, the reader reports the end of the stream on every proper prefix
  -- of its frame, whatever its flags.
  pub read_from_truncated :
      (m : Message) (k : ℕ)
      → IsSendable m
      → k < length (write_to m)
      → read_from lz4 (take k (write_to m)) ≡ err unexpected_eof
  unfolding to_be
  read_from_truncated m k v h = elim (dec_lt k 20) [
    | yes short ↦
        read_from_eof lz4 _ (read_exact_short 20 _ (omega (arith, length-take k (write_to m))))
    | no long ↦
        let j = k - 20 in
        read_from_cut lz4 (header m) _ (take j m.payload) m.opcode (length m.payload)
          (read_exact-header_cut m k j (omega arith)) (from_be-to_be 2 magic (omega arith))
          (ap try_from (take_byte _) ∙ try_from-as_u8 m.opcode)
          (from_be-to_be 4 (length m.payload)
            (omega (arith, payload_limit-lt m.opcode, v.payload_fits)))
          v.payload_fits
          (read_exact_short _ _ (omega (arith, length-take j m.payload, length-write_to m)))
  ]
