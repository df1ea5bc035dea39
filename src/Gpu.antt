-- ===== src/Gpu.antt =====
-- omega-daemon/src/gpu_protocol.rs: the frames between the machines and the GPU multiplexer. A
-- stream is a list of bytes; bytes are numbers.
pub mod Endian
pub mod Frames
pub mod Mux
pub mod Vram
use omega_fusion_core_proxmo.Prelude.{
  ℕ, zero, suc, Bool, Option, none, some, List, [], ◌∷◌, ◌++◌, ◌%◌, ◌^◌, ltb, ◌==◌, if◌then◌else◌,
  length, take, drop, replicate,
}
use Endian.{to_le, from_le}

abbrev pub gpu_magic : ℕ
gpu_magic = 0x4f4d4750

abbrev pub version : ℕ
version = 1

abbrev pub gpu_header_size : ℕ
gpu_header_size = 22

pub data MsgType : Type 0 where
  gpu_cmd gpu_result gpu_alloc gpu_alloc_resp gpu_free gpu_sync gpu_error : MsgType

unfoldable pub type_byte : MsgType → ℕ
type_byte gpu_cmd = 0x01
type_byte gpu_result = 0x02
type_byte gpu_alloc = 0x03
type_byte gpu_alloc_resp = 0x04
type_byte gpu_free = 0x05
type_byte gpu_sync = 0x06
type_byte gpu_error = 0xff

-- `MsgType::try_from`.
unfoldable pub type_of_byte : ℕ → Option MsgType
type_of_byte v =
    if v == 0x01
    then some gpu_cmd
    else if v == 0x02
    then some gpu_result
    else if v == 0x03
    then some gpu_alloc
    else if v == 0x04
    then some gpu_alloc_resp
    else if v == 0x05
    then some gpu_free
    else if v == 0x06
    then some gpu_sync
    else if v == 0xff
    then some gpu_error
    else none

pub data Priority : Type 0 where
  low normal high real_time : Priority

unfoldable pub priority_byte : Priority → ℕ
priority_byte low = 0
priority_byte normal = 1
priority_byte high = 2
priority_byte real_time = 3

-- `Priority::from`: any other byte is the normal priority.
unfoldable pub priority_of_byte : ℕ → Priority
priority_of_byte v =
    if v == 0 then low else if v == 2 then high else if v == 3 then real_time else normal

pub record GpuHeader : Type 0 where
  pub magic : ℕ
  pub version : ℕ
  pub msg_type : MsgType
  pub vm_id : ℕ
  pub seq : ℕ
  pub payload_len : ℕ
  pub priority : Priority

-- `GpuHeader::new`.
unfoldable pub new_header : MsgType → ℕ → ℕ → ℕ → Priority → GpuHeader
new_header t vm seq len p = record {
  magic = gpu_magic;
  version = version;
  msg_type = t;
  vm_id = vm;
  seq = seq;
  payload_len = len;
  priority = p;
}

unfoldable pub encode_header : GpuHeader → List ℕ
unfolding to_le type_byte priority_byte
encode_header h =
    to_le 4 h.magic
    ++ h.version ∷ type_byte h.msg_type ∷ to_le 4 h.vm_id
    ++ to_le 4 h.seq
    ++ to_le 4 h.payload_len
    ++ priority_byte h.priority ∷ replicate 3 0

pub data ProtocolError : Type 0 where
  bad_magic : ℕ → ProtocolError
  unsupported_version : ℕ → ProtocolError
  unknown_type : ℕ → ProtocolError
  io : ProtocolError

pub data Decoded {ℓ} (A : Type ℓ) : Type ℓ where
  got : A → Decoded A
  bad : ProtocolError → Decoded A

-- The byte at an index below the length.
unfoldable pub byte_at : ℕ → List ℕ → ℕ
byte_at i [] = 0
byte_at zero (x ∷ xs) = x
byte_at (suc i) (x ∷ xs) = byte_at i xs

-- The rest of a header whose type is known.
unfoldable pub decode_fields : List ℕ → Option MsgType → Decoded GpuHeader
unfolding from_le byte_at priority_of_byte
decode_fields buf none = bad (unknown_type (byte_at 5 buf))
decode_fields buf (some t) = got record {
  magic = from_le (take 4 buf);
  version = byte_at 4 buf;
  msg_type = t;
  vm_id = from_le (take 4 (drop 6 buf));
  seq = from_le (take 4 (drop 10 buf));
  payload_len = from_le (take 4 (drop 14 buf));
  priority = priority_of_byte (byte_at 18 buf);
}

unfoldable pub decode_header : List ℕ → Decoded GpuHeader
unfolding decode_fields type_of_byte
decode_header buf =
    if from_le (take 4 buf) == gpu_magic
    then if byte_at 4 buf == version
      then decode_fields buf (type_of_byte (byte_at 5 buf))
      else bad (unsupported_version (byte_at 4 buf))
    else bad (bad_magic (from_le (take 4 buf)))

pub record GpuMessage : Type 0 where
  pub header : GpuHeader
  pub payload : List ℕ

-- The payload, once the header is read.
unfoldable pub read_payload : Decoded GpuHeader → List ℕ → Decoded (GpuMessage × List ℕ)
read_payload (bad e) rest = bad e
read_payload (got h) rest =
    if ltb (length rest) h.payload_len
    then bad io
    else got (record { header = h; payload = take h.payload_len rest }, drop h.payload_len rest)

-- `GpuMessage::read_from`, with what is left of the stream.
unfoldable pub read_gpu : List ℕ → Decoded (GpuMessage × List ℕ)
unfolding decode_header read_payload
read_gpu bytes =
    if ltb (length bytes) gpu_header_size
    then bad io
    else read_payload (decode_header (take gpu_header_size bytes)) (drop gpu_header_size bytes)

unfoldable pub write_gpu : GpuMessage → List ℕ
unfolding encode_header
write_gpu m = encode_header m.header ++ m.payload

unfoldable pub make_result : GpuMessage → List ℕ → GpuMessage
unfolding new_header
make_result m result = record {
  header =
      new_header gpu_result m.header.vm_id m.header.seq (length result % 2 ^ 32) m.header.priority;
  payload = result;
}

-- The text is that of the code's call.
unfoldable pub make_error : GpuMessage → ℕ → List ℕ → GpuMessage
unfolding new_header to_le
make_error m code text =
    let bytes = to_le 4 code ++ text in
    record {
      header = new_header gpu_error m.header.vm_id m.header.seq (length bytes % 2 ^ 32) normal;
      payload = bytes;
    }

pub record AllocRequest : Type 0 where
  pub size_bytes : ℕ
  pub alignment : ℕ

unfoldable pub encode_alloc : AllocRequest → List ℕ
unfolding to_le
encode_alloc r = to_le 8 r.size_bytes ++ to_le 4 r.alignment

unfoldable pub decode_alloc : List ℕ → Option AllocRequest
unfolding from_le
decode_alloc buf =
    if ltb (length buf) 12
    then none
    else some
        record { size_bytes = from_le (take 8 buf); alignment = from_le (take 4 (drop 8 buf)) }

pub record AllocResponse : Type 0 where
  pub handle : ℕ
  pub size_bytes : ℕ

unfoldable pub encode_response : AllocResponse → List ℕ
unfolding to_le
encode_response r = to_le 8 r.handle ++ to_le 8 r.size_bytes

unfoldable pub decode_response : List ℕ → Option AllocResponse
unfolding from_le
decode_response buf =
    if ltb (length buf) 16
    then none
    else some record { handle = from_le (take 8 buf); size_bytes = from_le (take 8 (drop 8 buf)) }
