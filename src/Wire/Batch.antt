-- ===== src/Wire/Batch.antt =====
-- The batch messages of node-bc-store/src/protocol.rs: `BatchPutRequest` and `BatchPutResponse`.
pub mod RoundTrip
use Prim.Native.Nat.{bit_or}
use omega_fusion_core_proxmo.Prelude.{
  ℕ, ◌+◌, ◌*◌, ◌/◌, ◌%◌, ◌^◌, Bool, true, false, List, [], ◌∷◌, ◌++◌, ltb, if◌then◌else◌, length,
}
use omega_fusion_core_proxmo.Wire.Bytes.{to_be}
use omega_fusion_core_proxmo.Wire.Codec.{Lz4}
use omega_fusion_core_proxmo.Wire.{
  Opcode, as_u8, Message, message, Result, done, err, ◌>>=◌, batch_error, unexpected_reply, magic,
  flag_compressed, read_from,
}

pub record BatchPutRequest : Type 0 where
  pub vm_id : ℕ
  pub pages : List (ℕ × List ℕ)

pub record BatchPutResponse : Type 0 where
  pub vm_id : ℕ
  pub stored : ℕ
  pub failed : ℕ

-- `BatchPutRequest::new` and `push`.
unfoldable pub new_batch : ℕ → BatchPutRequest
new_batch vm = record { vm_id = vm; pages = [] }

unfoldable pub push : BatchPutRequest → ℕ → List ℕ → BatchPutRequest
push r page data' = record r { pages = r.pages ++ (page, data') ∷ [] }

-- `[page_id][data]` for each page.
unfoldable pub batch_payload : List (ℕ × List ℕ) → List ℕ
batch_payload [] = []
batch_payload ((pid, data') ∷ pages) = to_be 8 pid ++ (data' ++ batch_payload pages)

module _ (lz4 : Lz4) where
  open lz4 use {compress}

  -- The flags and the payload that go on the wire.
  unfoldable pub wire_payload : List ℕ → ℕ × List ℕ
  wire_payload payload =
      let compressed = compress payload in
      if ltb (length compressed) (length payload)
      then (flag_compressed, compressed)
      else (0, payload)

  -- `BatchPutRequest::write_to`.
  unfoldable pub write_batch : BatchPutRequest → List ℕ
  write_batch r =
      let (flags, wire) = wire_payload (batch_payload r.pages) in
      to_be 2 magic
      ++ (as_u8 Opcode.batch_put_page
          ∷ flags
          ∷ (to_be 4 r.vm_id ++ (to_be 8 (length r.pages) ++ (to_be 4 (length wire) ++ wire))))

-- The reply by its opcode; `stored` is the low half of the `page_id` field, `failed` the high half.
unfoldable pub decode_reply : Opcode → Message → Result BatchPutResponse
decode_reply Opcode.batch_put_ok m =
    done (record {
      vm_id = m.vm_id;
      stored = m.page_id % 2 ^ 32;
      failed = m.page_id / 2 ^ 32 % 2 ^ 32;
    })
decode_reply Opcode.error m = err batch_error
decode_reply _ m = err unexpected_reply

-- `BatchPutResponse::read_from`.
unfoldable pub read_reply : Lz4 → List ℕ → Result (BatchPutResponse × List ℕ)
read_reply lz4 s = do (m, rest) ← read_from lz4 s; r ← decode_reply m.opcode m; done (r, rest)

-- `BatchPutResponse::ok_message`.
unfoldable pub ok_message : ℕ → ℕ → ℕ → Message
ok_message vm stored failed = message Opcode.batch_put_ok vm (bit_or (failed * 2 ^ 32) stored) []
