-- ===== src/Tracker/Handlers.antt =====
-- omega-daemon/src/store_server.rs and the deletion handlers of cluster_api.rs and control_api.rs:
-- the store of the daemon with its tracker. Texts are parameters, as for the server of the store.
use omega_fusion_core_proxmo.Prelude.{
  ℕ, zero, suc, ◌&&◌, none, some, List, [], ◌∷◌, leb, ltb, if◌then◌else◌, length,
}
use omega_fusion_core_proxmo.Prelude.Int.{ℤ, pos, negsuc}
use omega_fusion_core_proxmo.Wire.{Opcode, Message, message}
use omega_fusion_core_proxmo.Wire.Messages.{
  pong_message, ok_reply, not_found_reply, error_msg, stats_reply,
}
use omega_fusion_core_proxmo.Store.{
  PageKey, PageStore, PutResult, stored, wrong_size, put, get, delete, len, keys_for_vm,
  estimated_bytes,
}
use omega_fusion_core_proxmo.Server.{Texts, key_of}
use omega_fusion_core_proxmo.Tracker.{VmTracker, record_page_stored}

pub record NodeStore : Type 0 where
  pub store : PageStore
  pub tracker : VmTracker

-- The reply to a put, and the tracker behind it: a new page is counted.
unfoldable pub track_put : Texts → Message → PutResult → VmTracker → VmTracker × Message
track_put texts m (stored was_update) t =
    (if was_update then t else record_page_stored m.vm_id (pos 1) t, ok_reply m.vm_id m.page_id)
track_put texts m (wrong_size n) t = (t, error_msg (texts.size_error n))

unfoldable pub tracked_put : Texts → Message → ℕ → ℕ → NodeStore → NodeStore × Message
unfolding track_put
tracked_put texts m max_pages now d =
    let (s, r) = put d.store (key_of m.vm_id m.page_id) m.payload now in
    let (t, reply) = track_put texts m r d.tracker in
    if ltb 0 max_pages && leb max_pages (len d.store)
    then (d, error_msg texts.store_full)
    else (record { store = s; tracker = t }, reply)

unfoldable pub tracked_get : Message → ℕ → NodeStore → NodeStore × Message
tracked_get m now d =
    let (s, r) = get d.store (key_of m.vm_id m.page_id) now in
    let reply : Message = elim r [
      | some bytes ↦ message Opcode.ok m.vm_id m.page_id bytes
      | none ↦ not_found_reply m.vm_id m.page_id
    ] in
    (record d { store = s }, reply)

unfoldable pub tracked_delete : Message → NodeStore → NodeStore × Message
tracked_delete m d =
    let (s, found) = delete d.store (key_of m.vm_id m.page_id) in
    if found
    then (
      record { store = s; tracker = record_page_stored m.vm_id (negsuc 0) d.tracker },
      ok_reply m.vm_id m.page_id,
    )
    else (record d { store = s }, not_found_reply m.vm_id m.page_id)

unfoldable pub tracked_op : Texts → Opcode → Message → ℕ → ℕ → NodeStore → NodeStore × Message
tracked_op texts Opcode.ping m max_pages now d = (d, pong_message)
tracked_op texts Opcode.put_page m max_pages now d = tracked_put texts m max_pages now d
tracked_op texts Opcode.get_page m max_pages now d = tracked_get m now d
tracked_op texts Opcode.delete_page m max_pages now d = tracked_delete m d
tracked_op texts Opcode.stats_request m max_pages now d =
    (d, stats_reply (texts.stats_json (len d.store) (estimated_bytes d.store)))
tracked_op texts _ m max_pages now d = (d, error_msg texts.unexpected_opcode)

unfoldable pub dispatch_with_tracking : Texts → Message → ℕ → ℕ → NodeStore → NodeStore × Message
dispatch_with_tracking texts m max_pages now d = tracked_op texts m.opcode m max_pages now d

-- `for key in keys { store.delete(&key); }`.
unfoldable pub delete_keys : List PageKey → PageStore → PageStore
delete_keys [] s = s
delete_keys (k ∷ ks) s = delete_keys ks (delete s k).0

-- `-(count as i64)`.
abbrev pub negative : ℕ → ℤ
negative zero = pos 0
negative (suc n) = negsuc n

-- `delete_vm_pages`, of the cluster's and of the control interface: the number that it reports.
unfoldable pub delete_vm_pages : ℕ → NodeStore → NodeStore × ℕ
unfolding delete_keys
delete_vm_pages vm d =
    let keys = keys_for_vm d.store vm in
    (
      record {
        store = delete_keys keys d.store;
        tracker = record_page_stored vm (negative (length keys)) d.tracker;
      },
      length keys,
    )
