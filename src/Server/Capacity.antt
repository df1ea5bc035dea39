-- ===== src/Server/Capacity.antt =====
-- The limit `max_pages` over the RAM backend.
use omega_fusion_core_proxmo.Prelude.{some, ℕ, ◌+◌, ◌≤◌, ◌<◌, ◌≡◌, ◌≢◌, refl, List, arith}
use omega_fusion_core_proxmo.Prelude.Assoc.{length-insert, length-modify, length-remove_if}
use omega_fusion_core_proxmo.Wire.{Opcode, Message, message}
use omega_fusion_core_proxmo.Wire.Messages.{error_msg}
use omega_fusion_core_proxmo.Store.{PageKey, PageKey-discrete, PageStore, len, put, get, delete}
use omega_fusion_core_proxmo.Store.Gauge.{IsConsistent}
use omega_fusion_core_proxmo.Server.{
  Texts, CephOps, ram, key_of, any_put, any_get, any_delete, any_len, dispatch, dispatch_op,
  dispatch_put, dispatch_get, dispatch_delete,
}

module _ {C : Type 0} (ops : CephOps C) (texts : Texts) where
  open texts use {store_full}

  len-put-le :
      (s : PageStore) (k : PageKey) (bytes : List ℕ) (now : ℕ)
      → len (put s k bytes now).0 ≤ len s + 1
  unfolding put
  len-put-le s k bytes now = ground (arith, length-insert PageKey-discrete k (bytes, now) s.pages)

  len-get : (s : PageStore) (k : PageKey) (now : ℕ) → len (get s k now).0 ≡ len s
  unfolding get
  len-get s k now = ground (arith, length-modify PageKey-discrete k (λ e. (e.0, now)) s.pages)

  len-delete-le : (s : PageStore) (k : PageKey) → IsConsistent s → len (delete s k).0 ≤ len s
  unfolding delete
  len-delete-le s k v = ground (arith, length-remove_if PageKey-discrete k s.pages v.distinct)

  dispatch_op-le :
      (o : Opcode) (m : Message) (s : PageStore) (max_pages now : ℕ)
      → IsConsistent s
      → o ≢ Opcode.batch_put_page
      → 0 < max_pages
      → len s ≤ max_pages
      → any_len ops texts (dispatch_op ops texts o m (ram s) max_pages now).0 ≤ max_pages
  unfolding any_len dispatch_op dispatch_put dispatch_get dispatch_delete any_put any_get any_delete
  dispatch_op-le Opcode.put_page m s max_pages now v o p h =
      ground (arith, len-put-le s (key_of m.vm_id m.page_id) m.payload now)
  dispatch_op-le Opcode.get_page m s max_pages now v o p h =
      ground (arith, len-get s (key_of m.vm_id m.page_id) now)
  dispatch_op-le Opcode.delete_page m s max_pages now v o p h =
      ground (arith, len-delete-le s (key_of m.vm_id m.page_id) v)
  dispatch_op-le Opcode.batch_put_page m s max_pages now v o p h = absurd (o refl)
  dispatch_op-le _ m s max_pages now v o p h = h

  -- A consistent store of at most `max_pages` pages, where that limit is above 0, still has at most
  -- so many after `dispatch` of any message but a batch.
  pub dispatch-le-max_pages :
      (m : Message) (s : PageStore) (max_pages now : ℕ)
      → IsConsistent s
      → m.opcode ≢ Opcode.batch_put_page
      → 0 < max_pages
      → len s ≤ max_pages
      → any_len ops texts (dispatch ops texts m (ram s) max_pages now).0 ≤ max_pages
  unfolding dispatch
  dispatch-le-max_pages m s max_pages now v o p h =
      dispatch_op-le m.opcode m s max_pages now v o p h

  -- With a positive limit and at least so many pages in the RAM store, a `PutPage` is refused and
  -- changes nothing, whether its page is held already or not.
  pub dispatch_put_full :
      (vm page max_pages now : ℕ) (bytes : List ℕ) (s : PageStore)
      → 0 < max_pages
      → max_pages ≤ len s
      → dispatch ops texts (message Opcode.put_page vm page bytes) (ram s) max_pages now
        ≡ (ram s, some (error_msg store_full))
  unfolding dispatch dispatch_op dispatch_put any_len
  dispatch_put_full vm page max_pages now bytes s positive full = ground arith
