-- ===== src/Client/Exchange.antt =====
-- An exchange with a RAM store, end to end: what comes back for a request that the server answers.
use omega_fusion_core_proxmo.Prelude.{
  false, sym, ℕ, ◌%◌, ◌^◌, ◌<◌, ◌≡◌, ◌∙◌, refl, ap, some, List, [], arith, ltb, leb, ◌&&◌, length,
  Option-cases, inl, inr,
}
use mathlib.Core.List.{append-nil}
use omega_fusion_core_proxmo.Wire.{
  Opcode, Message, message, done, page_size, payload_limit, read_from, write_to, try_compress,
}
use omega_fusion_core_proxmo.Wire.Codec.{Lz4}
use omega_fusion_core_proxmo.Wire.Reader.{IsSendable}
use omega_fusion_core_proxmo.Wire.RoundTrip.{read_from-write_to, read_from-try_compress}
use omega_fusion_core_proxmo.Wire.Messages.{ok_reply, get_page_request}
use omega_fusion_core_proxmo.Store.{PageStore, find, put, get, len}
use omega_fusion_core_proxmo.Server.{
  Texts, CephOps, AnyStore, ram, key_of, any_put, any_get, any_len, dispatch, dispatch_op,
  dispatch_put, dispatch_get,
}
use omega_fusion_core_proxmo.Client.{
  answered, Pool, send_recv, exchange, server_step, received, put_request, with_store,
}

-- The bounds that the types `u32` and `u64` give the ids of a page of `PAGE_SIZE` bytes.
pub record IsPlaced (vm page : ℕ) (bytes : List ℕ) : Type 0 where
  pub vm_id_u32 : vm < 2 ^ 32
  pub page_id_u64 : page < 2 ^ 64
  pub whole : length bytes ≡ page_size

module _ (lz4 : Lz4) where
  read_back :
      (m : Message) → IsSendable m → m.flags % 2 ≡ 0 → read_from lz4 (write_to m) ≡ done (m, [])
  read_back m v e =
      ap (read_from lz4) (sym (append-nil (write_to m))) ∙ read_from-write_to lz4 m [] v e

  put_message-IsSendable :
      (vm page : ℕ) (bytes : List ℕ)
      → IsPlaced vm page bytes
      → IsSendable (message Opcode.put_page vm page bytes)
  unfolding payload_limit
  put_message-IsSendable vm page bytes v = ground (arith, v.whole)

  get_request-IsSendable :
      (vm page : ℕ) (bytes : List ℕ)
      → IsPlaced vm page bytes
      → IsSendable (get_page_request vm page)
  unfolding payload_limit
  get_request-IsSendable vm page bytes v = ground (arith, v.whole)

  ok_reply-IsSendable :
      (vm page : ℕ) (bytes : List ℕ) → IsPlaced vm page bytes → IsSendable (ok_reply vm page)
  unfolding payload_limit
  ok_reply-IsSendable vm page bytes v = ground (arith, v.whole)

  page_reply-IsSendable :
      (vm page : ℕ) (bytes : List ℕ)
      → IsPlaced vm page bytes
      → IsSendable (message Opcode.ok vm page bytes)
  unfolding payload_limit
  page_reply-IsSendable vm page bytes v = ground (arith, v.whole)

  pub read_put_request :
      (vm page : ℕ) (bytes : List ℕ)
      → IsPlaced vm page bytes
      → read_from lz4 (write_to (put_request lz4 vm page bytes))
        ≡ done (message Opcode.put_page vm page bytes, [])
  unfolding put_request
  read_put_request vm page bytes v =
      let base = message Opcode.put_page vm page bytes in
      let sendable = put_message-IsSendable vm page bytes v in
      elim (Option-cases (try_compress lz4 base)) [
        | inl plain ↦ rw plain (read_back base sendable refl)
        | inr (c, packed) ↦ rw packed (
            ap (read_from lz4) (sym (append-nil (write_to c)))
            ∙ (read_from-try_compress lz4 base c [] sendable refl packed).2)
      ]

  pub received-write_to :
      (m : Message) → IsSendable m → m.flags % 2 ≡ 0 → received lz4 (write_to m) ≡ some m
  unfolding received
  received-write_to m v e = rw (read_back m v e, received) refl

module _ {C : Type 0} (ops : CephOps C) (texts : Texts) (lz4 : Lz4) (limit : ℕ → ℕ) where
  server_step_lem :
      (max_pages now : ℕ) (frame : List ℕ) (m reply : Message) (s t : AnyStore C)
      → read_from lz4 frame ≡ done (m, [])
      → dispatch ops texts m s max_pages now ≡ (t, some reply)
      → server_step ops texts lz4 limit max_pages now frame s ≡ (t, write_to reply)
  unfolding server_step
  server_step_lem max_pages now frame m reply s t r d = rw (r, server_step, d) refl

  -- A request that is read as `m`, and served with a reply that can be sent.
  send_recv_answered :
      (now i : ℕ) (req m reply : Message) (t : AnyStore C) (p : Pool C)
      → read_from lz4 (write_to req) ≡ done (m, [])
      → dispatch ops texts m (p.store_at i) (limit i) now ≡ (t, some reply)
      → IsSendable reply
      → reply.flags % 2 ≡ 0
      → send_recv ops texts lz4 limit answered now i req p ≡ (with_store i t p, some reply)
  unfolding send_recv exchange
  send_recv_answered now i req m reply t p r d v e =
      rw
        (
          server_step_lem (limit i) now (write_to req) m reply (p.store_at i) t r d,
          received-write_to lz4 reply v e,
        )
        refl

  dispatch_put_lem :
      (max_pages now vm page : ℕ) (bytes : List ℕ) (s : PageStore)
      → IsPlaced vm page bytes
      → (ltb 0 max_pages && leb max_pages (len s)) ≡ false
      → dispatch ops texts (message Opcode.put_page vm page bytes) (ram s) max_pages now
        ≡ (ram (put s (key_of vm page) bytes now).0, some (ok_reply vm page))
  unfolding dispatch dispatch_op dispatch_put any_put any_len put
  dispatch_put_lem max_pages now vm page bytes s v room = ground (arith, v.whole)

  dispatch_get_lem :
      (max_pages now vm page t : ℕ) (bytes : List ℕ) (s : PageStore)
      → find (key_of vm page) s.pages ≡ some (bytes, t)
      → dispatch ops texts (get_page_request vm page) (ram s) max_pages now
        ≡ (ram (get s (key_of vm page) now).0, some (message Opcode.ok vm page bytes))
  unfolding dispatch dispatch_op dispatch_get any_get get
  dispatch_get_lem max_pages now vm page t bytes s found = ground (arith, found)

  -- A page that the store has room for.
  pub send_recv-put :
      (now i vm page : ℕ) (bytes : List ℕ) (s : PageStore) (p : Pool C)
      → IsPlaced vm page bytes
      → p.store_at i ≡ ram s
      → (ltb 0 (limit i) && leb (limit i) (len s)) ≡ false
      → send_recv ops texts lz4 limit answered now i (put_request lz4 vm page bytes) p
        ≡ (with_store i (ram (put s (key_of vm page) bytes now).0) p, some (ok_reply vm page))
  send_recv-put now i vm page bytes s p v at room =
      send_recv_answered now i (put_request lz4 vm page bytes)
        (message Opcode.put_page vm page bytes) (ok_reply vm page)
        (ram (put s (key_of vm page) bytes now).0) p (read_put_request lz4 vm page bytes v)
        (rw at (dispatch_put_lem (limit i) now vm page bytes s v room))
        (ok_reply-IsSendable lz4 vm page bytes v) refl

  pub send_recv-get :
      (now i vm page t : ℕ) (bytes : List ℕ) (s : PageStore) (p : Pool C)
      → IsPlaced vm page bytes
      → p.store_at i ≡ ram s
      → find (key_of vm page) s.pages ≡ some (bytes, t)
      → send_recv ops texts lz4 limit answered now i (get_page_request vm page) p ≡ (
        with_store i (ram (get s (key_of vm page) now).0) p,
        some (message Opcode.ok vm page bytes),
      )
  send_recv-get now i vm page t bytes s p v at found =
      send_recv_answered now i (get_page_request vm page) (get_page_request vm page)
        (message Opcode.ok vm page bytes) (ram (get s (key_of vm page) now).0) p
        (read_back lz4 (get_page_request vm page) (get_request-IsSendable lz4 vm page bytes v) refl)
        (rw at (dispatch_get_lem (limit i) now vm page t bytes s found))
        (page_reply-IsSendable lz4 vm page bytes v) refl
