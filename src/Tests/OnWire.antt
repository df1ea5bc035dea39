-- ===== src/Tests/OnWire.antt =====
-- Frames, replies and batches on concrete messages.
use omega_fusion_core_proxmo.Prelude.{
  ℕ, ◌≡◌, ◌<◌, refl, some, List, [], ◌∷◌, ◌++◌, arith, length, replicate, take, length-append,
}
use omega_fusion_core_proxmo.Wire.{
  Opcode, as_u8, Message, message, done, err, unexpected_eof, payload_too_large, payload_limit,
  write_to, try_compress, read_from,
}
use omega_fusion_core_proxmo.Wire.Bytes.{to_be}
use omega_fusion_core_proxmo.Wire.Reader.{IsSendable}
use omega_fusion_core_proxmo.Wire.RoundTrip.{read_from-try_compress}
use omega_fusion_core_proxmo.Wire.Refusal.{read_from_truncated, read_from_oversized}
use omega_fusion_core_proxmo.Wire.Batch.{BatchPutRequest, batch_payload, write_batch}
use omega_fusion_core_proxmo.Wire.Batch.RoundTrip.{read_from-write_batch}
use omega_fusion_core_proxmo.Tests.Samples.{zero_packer, squeeze, page_of, length-page_of}

-- Seventy zeros and a five.
abbrev mostly_zeros : List ℕ
mostly_zeros = replicate 70 0 ++ 5 ∷ []

abbrev put_message : Message
put_message = message Opcode.put_page 7 3 mostly_zeros

put_message-IsSendable : IsSendable put_message
unfolding payload_limit
put_message-IsSendable = record {
  flags_byte = omega arith;
  vm_id_u32 = omega arith;
  page_id_u64 = omega arith;
  payload_fits = omega arith;
}

abbrev compressed_message : Message
compressed_message = record put_message { flags = 1; payload = 70 ∷ 0 ∷ 0 ∷ 0 ∷ 5 ∷ [] }

try_compress-put_message : try_compress zero_packer put_message ≡ some compressed_message
unfolding try_compress squeeze
try_compress-put_message = refl

read_from-try_compress_example :
    (5 < 71)
    × IsSendable compressed_message
    × (read_from zero_packer (write_to compressed_message ++ 9 ∷ []) ≡ done (put_message, 9 ∷ []))
read_from-try_compress_example =
    read_from-try_compress zero_packer put_message compressed_message (9 ∷ [])
      put_message-IsSendable refl try_compress-put_message

short_enough : 24 < length (write_to put_message)
unfolding write_to as_u8 to_be
short_enough = omega arith

read_from_truncated_example :
    read_from zero_packer (take 24 (write_to put_message)) ≡ err unexpected_eof
read_from_truncated_example =
    read_from_truncated zero_packer put_message 24 put_message-IsSendable short_enough

abbrev large_message : Message
large_message = message Opcode.put_page 7 3 (page_of 1 ++ (page_of 2 ++ page_of 3))

length_large : length large_message.payload ≡ 12288
length_large = omega (
  arith,
  length-append (page_of 1) (page_of 2 ++ page_of 3),
  length-append (page_of 2) (page_of 3),
  length-page_of 1,
  length-page_of 2,
  length-page_of 3,
)

large_payload : payload_limit Opcode.put_page < length large_message.payload
unfolding payload_limit
large_payload = omega (arith, length_large)

read_from_oversized_example :
    read_from zero_packer (write_to large_message ++ [])
    ≡ err (payload_too_large (length large_message.payload) (payload_limit Opcode.put_page))
read_from_oversized_example =
    read_from_oversized zero_packer large_message [] (omega arith) (omega arith) (omega arith)
      (omega (arith, length_large)) large_payload

abbrev two_pages : BatchPutRequest
two_pages = record { vm_id = 7; pages = (3, page_of 0) ∷ (4, page_of 1) ∷ [] }

read_from-write_batch_example :
    read_from zero_packer (write_batch zero_packer two_pages ++ [])
    ≡ done (message Opcode.batch_put_page 7 2 (batch_payload two_pages.pages), [])
read_from-write_batch_example =
    read_from-write_batch zero_packer two_pages [] (omega arith) (omega arith)
      ((omega arith, length-page_of 0), ((omega arith, length-page_of 1), tt))
