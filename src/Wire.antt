-- ===== src/Wire.antt =====
-- node-bc-store/src/protocol.rs: opcodes, messages, and the frames on the TCP stream. A byte is a
-- number, a `Vec<u8>` a list of them, and a stream the list of the bytes still to be read.
-- lz4_flex is a parameter.
pub mod Bytes
pub mod Codec
pub mod Reader
pub mod RoundTrip
pub mod Refusal
pub mod Bits
pub mod Messages
pub mod Batch
use omega_fusion_core_proxmo.Prelude.{
  ℕ, zero, suc, ◌+◌, ◌*◌, ◌/◌, ◌%◌, ◌^◌, ◌≡◌, Bool, true, false, not, ◌&&◌, Option, none, some,
  List, [], ◌∷◌, ◌++◌, ltb, leb, ◌==◌, if◌then◌else◌, length, take, drop,
}
use Prim.Native.Nat.{bit_and, bit_or}
use Bytes.{to_be, from_be}
use Codec.{Lz4}

pub data Opcode : Type 0 where
  ping put_page get_page delete_page batch_put_page stats_request : Opcode
  pong ok not_found error batch_put_ok stats_response : Opcode

-- `self.opcode as u8`: the discriminants.
unfoldable pub as_u8 : Opcode → ℕ
as_u8 ping = 0x01
as_u8 put_page = 0x10
as_u8 get_page = 0x11
as_u8 delete_page = 0x12
as_u8 batch_put_page = 0x13
as_u8 stats_request = 0x20
as_u8 pong = 0x02
as_u8 ok = 0x80
as_u8 not_found = 0x81
as_u8 error = 0x82
as_u8 batch_put_ok = 0x83
as_u8 stats_response = 0x21

-- The `io::Error`s of this file, and what lz4_flex refuses.
pub data WireError : Type 0 where
  unexpected_eof bad_magic lz4_failed batch_error unexpected_reply : WireError
  unknown_opcode : ℕ → WireError
  payload_too_large : ℕ → ℕ → WireError

pub data Result {ℓ} (A : Type ℓ) : Type ℓ where
  done : A → Result A
  err : WireError → Result A

-- An early return: `Err(e.into())` unless the condition holds.
abbrev pub guard : Bool → WireError → Result (Unit {0})
guard b e = if b then done tt else err e

-- The operator `?`.
infixl 5 ◌>>=◌
infixl 5 ◌>>◌
abbrev pub ◌>>=◌ {κ ℓ} : {B : Type κ} {A : Type ℓ} → Result B → (B → Result A) → Result A
err stop >>= next = err stop
done value >>= next = next value

abbrev pub ◌>>◌ {κ} : {B : Type κ} → Result (Unit {0}) → Result B → Result B
first >> second = first >>= (λ done_unit. second)

unfoldable pub try_from : ℕ → Result Opcode
try_from v =
    if v == 0x01
    then done ping
    else if v == 0x02
    then done pong
    else if v == 0x10
    then done put_page
    else if v == 0x11
    then done get_page
    else if v == 0x12
    then done delete_page
    else if v == 0x13
    then done batch_put_page
    else if v == 0x20
    then done stats_request
    else if v == 0x21
    then done stats_response
    else if v == 0x80
    then done ok
    else if v == 0x81
    then done not_found
    else if v == 0x82
    then done error
    else if v == 0x83
    then done batch_put_ok
    else err (unknown_opcode v)

abbrev pub magic : ℕ
magic = 0x524d

abbrev pub page_size : ℕ
page_size = 4096

abbrev pub header_size : ℕ
header_size = 20

abbrev pub max_payload : ℕ
max_payload = page_size * 2

abbrev pub max_batch_payload : ℕ
max_batch_payload = 64 * (8 + page_size)

abbrev pub flag_compressed : ℕ
flag_compressed = 0x01

abbrev pub compress_min_len : ℕ
compress_min_len = 64

pub record Message : Type 0 where
  pub opcode : Opcode
  pub flags : ℕ
  pub vm_id : ℕ
  pub page_id : ℕ
  pub payload : List ℕ

-- `Message::new`.
abbrev pub message : Opcode → ℕ → ℕ → List ℕ → Message
message op vm page data' = record {
  opcode = op;
  flags = 0;
  vm_id = vm;
  page_id = page;
  payload = data';
}

-- `payload_len > max` is refused, with the higher limit for a batch.
unfoldable pub payload_limit : Opcode → ℕ
payload_limit batch_put_page = max_batch_payload
payload_limit _ = max_payload

-- `reader.read_exact`: so many bytes and the stream behind them, or the end of the stream.
unfoldable pub read_exact : ℕ → List ℕ → Result (List ℕ × List ℕ)
read_exact zero s = done ([], s)
read_exact (suc n) [] = err unexpected_eof
read_exact (suc n) (b ∷ s) = do (bs, rest) ← read_exact n s; done (b ∷ bs, rest)

-- `Message::write_to`: the bytes that it puts on the stream.
unfoldable pub write_to : Message → List ℕ
write_to m =
    to_be 2 magic
    ++ (as_u8 m.opcode
        ∷ m.flags
        ∷ (to_be 4 m.vm_id ++ (to_be 8 m.page_id ++ (to_be 4 (length m.payload) ++ m.payload))))

module _ (lz4 : Lz4) where
  open lz4 use {compress, decompress}

  unfoldable pub try_compress : Message → Option Message
  try_compress m =
      let compressed = compress m.payload in
      if ltb (length m.payload) compress_min_len
      then none
      else if leb (length m.payload) (length compressed)
      then none
      else some (record m { flags = bit_or m.flags flag_compressed; payload = compressed })

  -- Transparent decompression: the payload and the flags that the reader reports.
  unfoldable pub unpack : ℕ → List ℕ → Result (List ℕ × ℕ)
  unpack flags raw =
      if not (bit_and flags flag_compressed == 0) && not (length raw == 0)
      then elim (decompress raw) [
        | none ↦ err lz4_failed
        | some data' ↦ done (data', bit_and flags 0xfe)
      ]
      else done (raw, flags)

  -- `Message::read_from`: the message and the stream behind it.
  unfoldable pub read_from : List ℕ → Result (Message × List ℕ)
  read_from s = do
    (header, s') ← read_exact header_size s
    guard (from_be (take 2 header) == magic) bad_magic
    opcode ← try_from (from_be (take 1 (drop 2 header)))
    let flags = from_be (take 1 (drop 3 header))
    let vm_id = from_be (take 4 (drop 4 header))
    let page_id = from_be (take 8 (drop 8 header))
    let payload_len = from_be (take 4 (drop 16 header))
    guard (leb payload_len (payload_limit opcode))
        (payload_too_large payload_len (payload_limit opcode))
    (raw, s'') ← read_exact payload_len s'
    (payload, flags') ← unpack flags raw
    done (
      record {
        opcode = opcode;
        flags = flags';
        vm_id = vm_id;
        page_id = page_id;
        payload = payload;
      },
      s'',
    )
