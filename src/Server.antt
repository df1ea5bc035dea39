-- ===== src/Server.antt =====
-- node-bc-store/src/server.rs: the backend that is chosen at the start, `dispatch`, and the loop of
-- one connection. Texts and JSON are rendered by parameters; so is the Ceph backend, whose client
-- library is not in the repository. `usize` arithmetic wraps, as in a release build; where the code
-- panics, the answer is `none`, and the task of the connection is gone.
pub mod Capacity
pub mod Batch
pub mod Connection
use omega_fusion_core_proxmo.Prelude.{
  ℕ, zero, suc, ◌+◌, ◌-◌, ◌*◌, ◌%◌, ◌^◌, Bool, true, false, ◌&&◌, Option, none, some, List, [], ◌∷◌,
  ◌++◌, ltb, leb, ◌==◌, if◌then◌else◌, length, take, drop, map,
}
use omega_fusion_core_proxmo.Wire.{
  Opcode, Message, message, Result, done, err, WireError, unexpected_eof, page_size, read_from,
  write_to,
}
use omega_fusion_core_proxmo.Wire.Bytes.{from_be}
use omega_fusion_core_proxmo.Wire.Codec.{Lz4}
use omega_fusion_core_proxmo.Wire.Messages.{
  pong_message, ok_reply, not_found_reply, error_msg, stats_reply,
}
use omega_fusion_core_proxmo.Wire.Batch.{ok_message}
use omega_fusion_core_proxmo.Store.{
  PageKey, PageStore, PutResult, stored, wrong_size, put, get, delete, delete_vm, len, list_vm_ids,
}

-- What `format!` and `serde_json` make of an error and of the statistics.
pub record Texts : Type 0 where
  pub store_full : List ℕ
  pub corrupt_batch : List ℕ
  pub unexpected_opcode : List ℕ
  pub size_error : ℕ → List ℕ
  pub stats_json : ℕ → ℕ → List ℕ

-- The operations of the Ceph backend that the server calls.
pub record CephOps (C : Type 0) : Type 0 where
  pub ceph_put : C → PageKey → List ℕ → C × Option (List ℕ)
  pub ceph_get : C → PageKey → C × Option (List ℕ)
  pub ceph_delete : C → PageKey → C × Bool
  pub ceph_len : C → ℕ

pub data AnyStore (C : Type 0) : Type 0 where
  ram : PageStore → AnyStore C
  ceph : C → AnyStore C

abbrev pub key_of : ℕ → ℕ → PageKey
key_of vm page = record { vm_id = vm; page_id = page }

module _ {C : Type 0} (ops : CephOps C) (texts : Texts) where
  open ops use {ceph_put, ceph_get, ceph_delete, ceph_len}
  open texts use {store_full, corrupt_batch, unexpected_opcode, size_error, stats_json}

  -- `none` is `Ok(())`, a text an error.
  abbrev pub put_error : PutResult → Option (List ℕ)
  put_error (stored _) = none
  put_error (wrong_size n) = some (size_error n)

  unfoldable pub any_put : AnyStore C → PageKey → List ℕ → ℕ → AnyStore C × Option (List ℕ)
  any_put (ram s) key bytes now = let (t, r) = put s key bytes now in (ram t, put_error r)
  any_put (ceph c) key bytes now = let (t, r) = ceph_put c key bytes in (ceph t, r)

  unfoldable pub any_get : AnyStore C → PageKey → ℕ → AnyStore C × Option (List ℕ)
  any_get (ram s) key now = let (t, r) = get s key now in (ram t, r)
  any_get (ceph c) key now = let (t, r) = ceph_get c key in (ceph t, r)

  unfoldable pub any_delete : AnyStore C → PageKey → AnyStore C × Bool
  any_delete (ram s) key = let (t, r) = delete s key in (ram t, r)
  any_delete (ceph c) key = let (t, r) = ceph_delete c key in (ceph t, r)

  unfoldable pub any_len : AnyStore C → ℕ
  any_len (ram s) = len s
  any_len (ceph c) = ceph_len c

  unfoldable pub any_list_vm_ids : AnyStore C → List ℕ
  any_list_vm_ids (ram s) = list_vm_ids s
  any_list_vm_ids (ceph c) = []

  unfoldable pub any_delete_vm : AnyStore C → ℕ → AnyStore C × ℕ
  any_delete_vm (ram s) vm = let (t, n) = delete_vm s vm in (ram t, n)
  any_delete_vm (ceph c) vm = (ceph c, 0)

  -- `(self.len() as u64).saturating_mul(PAGE_SIZE as u64)`.
  unfoldable pub any_estimated_bytes : AnyStore C → ℕ
  unfolding any_len
  any_estimated_bytes s =
      let bytes = any_len s * page_size in if ltb bytes (2 ^ 64) then bytes else 2 ^ 64 - 1

  -- The loop over the entries of a batch: the store, the pages stored and the pages refused. A slice
  -- behind the end of the payload is a panic.
  unfoldable pub store_entries :
      ℕ → List ℕ → AnyStore C → ℕ → ℕ → ℕ → ℕ → AnyStore C × Option (ℕ × ℕ)
  store_entries zero payload s vm now ok failed = (s, some (ok, failed))
  store_entries (suc i) payload s vm now ok failed =
      let (t, r) =
        any_put s (key_of vm (from_be (take 8 payload))) (take page_size (drop 8 payload)) now in
      elim (ltb (length payload) (8 + page_size)) [
        | true ↦ (s, none)
        | false ↦ elim r [
          | none ↦ store_entries i (drop (8 + page_size) payload) t vm now (ok + 1) failed
          | some _ ↦ store_entries i (drop (8 + page_size) payload) t vm now ok (failed + 1)
        ]
      ]

  unfoldable pub dispatch_put : Message → AnyStore C → ℕ → ℕ → AnyStore C × Message
  unfolding any_len
  dispatch_put m s max_pages now =
      let (t, r) = any_put s (key_of m.vm_id m.page_id) m.payload now in
      let reply : Message = elim r [
        | none ↦ ok_reply m.vm_id m.page_id
        | some detail ↦ error_msg detail
      ] in
      if ltb 0 max_pages && leb max_pages (any_len s) then (s, error_msg store_full) else (t, reply)

  unfoldable pub dispatch_get : Message → AnyStore C → ℕ → AnyStore C × Message
  dispatch_get m s now =
      let (t, r) = any_get s (key_of m.vm_id m.page_id) now in
      let reply : Message = elim r [
        | some bytes ↦ message Opcode.ok m.vm_id m.page_id bytes
        | none ↦ not_found_reply m.vm_id m.page_id
      ] in
      (t, reply)

  unfoldable pub dispatch_delete : Message → AnyStore C → AnyStore C × Message
  dispatch_delete m s =
      let (t, r) = any_delete s (key_of m.vm_id m.page_id) in
      (t, if r then ok_reply m.vm_id m.page_id else not_found_reply m.vm_id m.page_id)

  unfoldable pub batch_reply : ℕ → Option (ℕ × ℕ) → Option Message
  batch_reply vm none = none
  batch_reply vm (some (ok, failed)) = some (ok_message vm ok failed)

  unfoldable pub dispatch_batch : Message → AnyStore C → ℕ → AnyStore C × Option Message
  unfolding batch_reply
  dispatch_batch m s now =
      let (t, r) = store_entries m.page_id m.payload s m.vm_id now 0 0 in
      if length m.payload == m.page_id * (8 + page_size) % 2 ^ 64
      then (t, batch_reply m.vm_id r)
      else (s, some (error_msg corrupt_batch))

  unfoldable pub dispatch_op : Opcode → Message → AnyStore C → ℕ → ℕ → AnyStore C × Option Message
  dispatch_op Opcode.ping m s max_pages now = (s, some pong_message)
  dispatch_op Opcode.put_page m s max_pages now =
      let (t, r) = dispatch_put m s max_pages now in (t, some r)
  dispatch_op Opcode.get_page m s max_pages now = let (t, r) = dispatch_get m s now in (t, some r)
  dispatch_op Opcode.delete_page m s max_pages now = let (t, r) = dispatch_delete m s in (t, some r)
  dispatch_op Opcode.stats_request m s max_pages now =
      (s, some (stats_reply (stats_json (any_len s) (any_estimated_bytes s))))
  dispatch_op Opcode.batch_put_page m s max_pages now = dispatch_batch m s now
  dispatch_op _ m s max_pages now = (s, some (error_msg unexpected_opcode))

  -- The new state of the store and the response.
  unfoldable pub dispatch : Message → AnyStore C → ℕ → ℕ → AnyStore C × Option Message
  dispatch m s max_pages now = dispatch_op m.opcode m s max_pages now

-- How the loop of a connection ends, `panicked` in the middle of a message. `stuck` is no end of the
-- program: the fuel ran out.
pub data Ending : Type 0 where
  closed stuck panicked : Ending
  failed_with : WireError → Ending

abbrev pub ending_of : WireError → Ending
ending_of unexpected_eof = closed
ending_of e = failed_with e

-- The answer and the store of a round, before the later rounds.
abbrev pub outcome :
    {C : Type 0}
    → Option Message
    → AnyStore C
    → AnyStore C × List ℕ × Ending
    → AnyStore C × List ℕ × Ending
outcome none t later = (t, [], panicked)
outcome (some reply) t (u, out, end) = (u, write_to reply ++ out, end)

-- `handle_connection`, for a peer that reads every response: the store, the bytes written, the end.
-- The number of rounds is the fuel; `clock` gives the time by the rounds that are left.
module _ {C : Type 0} (ops : CephOps C) (texts : Texts) (lz4 : Lz4) (max_pages : ℕ)
    (clock : ℕ → ℕ) where
  unfoldable pub serve : ℕ → List ℕ → AnyStore C → AnyStore C × List ℕ × Ending
  serve zero input s = (s, [], stuck)
  serve (suc f) input s = elim (read_from lz4 input) [
    | err e ↦ (s, [], ending_of e)
    | done (m, rest) ↦
        let (t, answer) = dispatch ops texts m s max_pages (clock f) in
        outcome answer t (serve f rest t)
  ]
