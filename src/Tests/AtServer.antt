-- ===== src/Tests/AtServer.antt =====
-- The server on two stored pages.
use omega_fusion_core_proxmo.Prelude.{
  some, none, ◌^◌, ℕ, ◌≡◌, ◌≢◌, ◌≤◌, refl, List, [], ◌∷◌, arith, All,
}
use omega_fusion_core_proxmo.Wire.{Opcode, Message, message, payload_limit}
use omega_fusion_core_proxmo.Wire.Batch.{batch_payload, ok_message}
use omega_fusion_core_proxmo.Wire.Batch.RoundTrip.{IsPage}
use omega_fusion_core_proxmo.Wire.Reader.{IsSendable}
use omega_fusion_core_proxmo.Server.{
  ram, any_len, dispatch, dispatch_op, dispatch_batch, batch_reply, store_entries, serve, stuck,
}
use omega_fusion_core_proxmo.Server.Capacity.{dispatch-le-max_pages}
use omega_fusion_core_proxmo.Server.Batch.{put_pages, dispatch-batch_payload}
use omega_fusion_core_proxmo.Server.Connection.{answer, frames, serve-ne-stuck, serve-frames}
use omega_fusion_core_proxmo.Tests.Samples.{zero_packer, texts, ops, page_of, length-page_of}
use omega_fusion_core_proxmo.Tests.InStore.{two_pages, two_pages-IsConsistent}

abbrev frame_ping : Message
frame_ping = message Opcode.ping 0 0 []

abbrev frame_get : Message
frame_get = message Opcode.get_page 7 1 []

abbrev frame_put : Message
frame_put = message Opcode.put_page 7 5 (page_of 4)

serve-ne-stuck_example :
    (serve ops texts zero_packer 10 (λ f. f) 5 (82 ∷ 77 ∷ 1 ∷ []) (ram two_pages)).2 ≢ stuck
serve-ne-stuck_example =
    serve-ne-stuck ops texts zero_packer 10 (λ f. f) 5 (82 ∷ 77 ∷ 1 ∷ []) (ram two_pages)
      (omega arith)

frame_ping-IsSendable : IsSendable frame_ping
unfolding payload_limit
frame_ping-IsSendable = record {
  flags_byte = omega arith;
  vm_id_u32 = omega arith;
  page_id_u64 = omega arith;
  payload_fits = omega arith;
}

frame_get-IsSendable : IsSendable frame_get
unfolding payload_limit
frame_get-IsSendable = record {
  flags_byte = omega arith;
  vm_id_u32 = omega arith;
  page_id_u64 = omega arith;
  payload_fits = omega arith;
}

serve-frames_example :
    let ms = frame_ping ∷ frame_get ∷ [] in
    let replies = answer ops texts zero_packer 10 (λ f. f) 3 ms (ram two_pages) in
    serve ops texts zero_packer 10
      (λ f. f)
      3
      (frames ops texts zero_packer 10 (λ f. f) ms)
      (ram two_pages)
    ≡ replies
serve-frames_example =
    serve-frames ops texts zero_packer 10 (λ f. f) (frame_ping ∷ frame_get ∷ []) 3 (ram two_pages)
      (omega arith) ((frame_ping-IsSendable, refl), ((frame_get-IsSendable, refl), tt))

put_page-ne : frame_put.opcode ≢ Opcode.batch_put_page
put_page-ne = ground arith

dispatch-le-max_pages_example :
    any_len ops texts (dispatch ops texts frame_put (ram two_pages) 3 50).0 ≤ 3
dispatch-le-max_pages_example =
    dispatch-le-max_pages ops texts frame_put two_pages 3 50 two_pages-IsConsistent put_page-ne
      (omega arith) (omega arith)

pages-All : All IsPage ((5, page_of 4) ∷ (1, page_of 6) ∷ [])
pages-All = ((omega arith, length-page_of 4), ((omega arith, length-page_of 6), tt))

dispatch-batch_payload_example :
    let pages : List (ℕ × List ℕ) = (5, page_of 4) ∷ (1, page_of 6) ∷ [] in
    dispatch ops texts
      (message Opcode.batch_put_page 7 2 (batch_payload pages))
      (ram two_pages)
      2
      50
    ≡ (ram (put_pages two_pages 7 pages 50), some (ok_message 7 2 0))
dispatch-batch_payload_example =
    dispatch-batch_payload ops texts ((5, page_of 4) ∷ (1, page_of 6) ∷ []) two_pages 7 2 50
      pages-All (omega arith)

-- A sendable batch whose product wraps to the length of its payload.
overflowing_batch_panics :
    dispatch ops texts (message Opcode.batch_put_page 7 (2 ^ 61) []) (ram two_pages) 2 50
    ≡ (ram two_pages, none)
unfolding dispatch dispatch_op dispatch_batch batch_reply store_entries
overflowing_batch_panics = refl
