-- ===== src/Wire/Batch/RoundTrip.antt =====
-- A batch request and its reply, each from the sender to the reader.
use omega_fusion_core_proxmo.Prelude.{
  ℕ, ◌+◌, ◌*◌, ◌^◌, ◌≤◌, ◌<◌, ◌≡◌, refl, ◌∙◌, List, [], ◌∷◌, ◌++◌, arith, length, length-append,
  All,
}
use omega_fusion_core_proxmo.Wire.Bytes.{to_be, length-to_be}
use omega_fusion_core_proxmo.Wire.Bits.{bit_or_fields}
use omega_fusion_core_proxmo.Wire.Codec.{Lz4}
use omega_fusion_core_proxmo.Wire.{
  Opcode, message, done, page_size, write_to, read_from, unpack, payload_limit,
}
use omega_fusion_core_proxmo.Wire.Reader.{IsSendable, read_from-write_to-unpack}
use omega_fusion_core_proxmo.Wire.RoundTrip.{read_from-write_to}
use omega_fusion_core_proxmo.Wire.Batch.{
  BatchPutRequest, batch_payload, wire_payload, write_batch, read_reply, decode_reply, ok_message,
}

abbrev pub IsPage : ℕ × List ℕ → Type 0
IsPage p = (p.0 < 2 ^ 64) × (length p.1 ≡ page_size)

pub length-batch_payload :
    (pages : List (ℕ × List ℕ))
    → All IsPage pages
    → length (batch_payload pages) ≡ length pages * (8 + page_size)
unfolding batch_payload
length-batch_payload [] h = omega arith
length-batch_payload ((pid, bytes) ∷ pages) h = omega (
  arith,
  length-append (to_be 8 pid) (bytes ++ batch_payload pages),
  length-append bytes (batch_payload pages),
  length-to_be 8 pid,
  length-batch_payload pages h.1,
  h.0.1,
)

module _ (lz4 : Lz4) where
  open lz4 use {compress, decompress-compress, compress_prefix}

  unpack-wire_payload :
      (p : List ℕ)
      → length p < 2 ^ 32
      → unpack lz4 (wire_payload lz4 p).0 (wire_payload lz4 p).1 ≡ done (p, 0)
  unfolding wire_payload unpack
  unpack-wire_payload p h = ground (arith, decompress-compress p h, compress_prefix p)

  wire_payload_bounds :
      (p : List ℕ) → ((wire_payload lz4 p).0 < 256) × (length (wire_payload lz4 p).1 ≤ length p)
  unfolding wire_payload
  wire_payload_bounds p = ground arith

  -- A batch of at most 64 whole pages with a 32-bit machine id and 64-bit page ids, compressed or
  -- not, is read from the stream as one message that holds the number of pages and the plain
  -- payload, the bytes behind it left over.
  pub read_from-write_batch :
      (r : BatchPutRequest) (rest : List ℕ)
      → r.vm_id < 2 ^ 32
      → length r.pages ≤ 64
      → All IsPage r.pages
      → read_from lz4 (write_batch lz4 r ++ rest)
        ≡ done
            (message Opcode.batch_put_page r.vm_id (length r.pages) (batch_payload r.pages), rest)
  unfolding write_batch write_to payload_limit
  read_from-write_batch r rest v few whole =
      let p = batch_payload r.pages in
      let size = length-batch_payload r.pages whole in
      let bounds = wire_payload_bounds p in
      read_from-write_to-unpack lz4
        (record {
          opcode = Opcode.batch_put_page;
          flags = (wire_payload lz4 p).0;
          vm_id = r.vm_id;
          page_id = length r.pages;
          payload = (wire_payload lz4 p).1;
        })
        rest
        (record {
          flags_byte = bounds.0;
          vm_id_u32 = v;
          page_id_u64 = omega arith;
          payload_fits = omega (arith, size, bounds);
        })
      ∙ rw (unpack-wire_payload p (omega (arith, size)))

  -- For a machine id and two counts below 2^32, the reply to a batch comes back from the stream
  -- with each count in its own half of the `page_id` field.
  pub read_reply-ok_message :
      (vm stored failed : ℕ) (rest : List ℕ)
      → vm < 2 ^ 32
      → stored < 2 ^ 32
      → failed < 2 ^ 32
      → read_reply lz4 (write_to (ok_message vm stored failed) ++ rest)
        ≡ done (record { vm_id = vm; stored = stored; failed = failed }, rest)
  unfolding read_reply ok_message decode_reply payload_limit
  read_reply-ok_message vm stored failed rest v s f =
      let fields = bit_or_fields 32 failed stored s in
      let m = ok_message vm stored failed in
      let sendable : IsSendable m = omega (arith, fields) in
      rw (read_from-write_to lz4 m rest sendable refl) (ground (arith, fields))
