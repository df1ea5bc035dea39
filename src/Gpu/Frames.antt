-- ===== src/Gpu/Frames.antt =====
-- Frames and payloads, written and read.
use omega_fusion_core_proxmo.Prelude.{
  ℕ, ◌^◌, ◌<◌, ◌≡◌, refl, sym, some, List, ◌++◌, arith, length, take, drop, length-append,
  take_prefix, drop_prefix,
}
use mathlib.Core.List.{append_assoc}
use omega_fusion_core_proxmo.Gpu.{
  MsgType, Priority, GpuHeader, GpuMessage, got, gpu_magic, version, type_byte, type_of_byte,
  priority_byte, priority_of_byte, byte_at, encode_header, decode_header, decode_fields,
  read_payload, read_gpu, write_gpu, AllocRequest, encode_alloc, decode_alloc, AllocResponse,
  encode_response, decode_response,
}
use omega_fusion_core_proxmo.Gpu.Endian.{to_le, from_le, from_le-to_le}

type_of_byte-type_byte : (t : MsgType) → type_of_byte (type_byte t) ≡ some t
unfolding type_of_byte type_byte
type_of_byte-type_byte MsgType.gpu_cmd = refl
type_of_byte-type_byte _ = refl

priority_of_byte-priority_byte : (p : Priority) → priority_of_byte (priority_byte p) ≡ p
unfolding priority_of_byte priority_byte
priority_of_byte-priority_byte Priority.low = refl
priority_of_byte-priority_byte _ = refl

-- A header with this protocol's magic and version, and fields of 32 bits.
pub record IsHeader (h : GpuHeader) : Type 0 where
  pub magic_word : h.magic ≡ gpu_magic
  pub version_byte : h.version ≡ version
  pub vm_id_u32 : h.vm_id < 2 ^ 32
  pub seq_u32 : h.seq < 2 ^ 32
  pub payload_len_u32 : h.payload_len < 2 ^ 32

pub length-encode_header : (h : GpuHeader) → length (encode_header h) ≡ 22
unfolding encode_header to_le
length-encode_header h = refl

-- A buffer whose pieces are those of a header is decoded as that header.
decode_header_parts :
    (buf : List ℕ) (h : GpuHeader)
    → h.magic ≡ gpu_magic
    → h.version ≡ version
    → from_le (take 4 buf) ≡ h.magic
    → byte_at 4 buf ≡ h.version
    → type_of_byte (byte_at 5 buf) ≡ some h.msg_type
    → from_le (take 4 (drop 6 buf)) ≡ h.vm_id
    → from_le (take 4 (drop 10 buf)) ≡ h.seq
    → from_le (take 4 (drop 14 buf)) ≡ h.payload_len
    → priority_of_byte (byte_at 18 buf) ≡ h.priority
    → decode_header buf ≡ got h
unfolding decode_header decode_fields
decode_header_parts buf h m v a b t i s l p = ground arith

pub decode_header-encode_header :
    (h : GpuHeader) → IsHeader h → decode_header (encode_header h) ≡ got h
unfolding encode_header to_le byte_at
decode_header-encode_header h v =
    decode_header_parts (encode_header h) h v.magic_word v.version_byte
      (from_le-to_le 4 h.magic (omega (arith, v.magic_word))) refl
      (type_of_byte-type_byte h.msg_type) (from_le-to_le 4 h.vm_id v.vm_id_u32)
      (from_le-to_le 4 h.seq v.seq_u32) (from_le-to_le 4 h.payload_len v.payload_len_u32)
      (priority_of_byte-priority_byte h.priority)

-- A message with the magic and the version of the protocol, 32-bit fields and the length of its
-- payload in its header is read from the stream as it was written, the bytes behind its frame left
-- over.
pub read_gpu-write_gpu :
    (m : GpuMessage) (rest : List ℕ)
    → IsHeader m.header
    → m.header.payload_len ≡ length m.payload
    → read_gpu (write_gpu m ++ rest) ≡ got (m, rest)
unfolding read_gpu read_payload write_gpu
read_gpu-write_gpu m rest v e =
    let head = encode_header m.header in
    let split : (head ++ m.payload) ++ rest ≡ head ++ (m.payload ++ rest) =
      append_assoc head m.payload rest in
    ground (
      arith,
      split,
      e,
      decode_header-encode_header m.header v,
      length-encode_header m.header,
      length-append head (m.payload ++ rest),
      length-append m.payload rest,
      take_prefix 22 head (m.payload ++ rest) (length-encode_header m.header),
      drop_prefix 22 head (m.payload ++ rest) (length-encode_header m.header),
      take_prefix m.header.payload_len m.payload rest (sym e),
      drop_prefix m.header.payload_len m.payload rest (sym e),
    )

-- The payloads of a request for video memory and of its answer.
decode_alloc-encode_alloc :
    (r : AllocRequest)
    → r.size_bytes < 2 ^ 64
    → r.alignment < 2 ^ 32
    → decode_alloc (encode_alloc r) ≡ some r
unfolding decode_alloc encode_alloc to_le
decode_alloc-encode_alloc r s a =
    ground (arith, from_le-to_le 8 r.size_bytes s, from_le-to_le 4 r.alignment a)

decode_response-encode_response :
    (r : AllocResponse)
    → r.handle < 2 ^ 64
    → r.size_bytes < 2 ^ 64
    → decode_response (encode_response r) ≡ some r
unfolding decode_response encode_response to_le
decode_response-encode_response r h s =
    ground (arith, from_le-to_le 8 r.handle h, from_le-to_le 8 r.size_bytes s)
