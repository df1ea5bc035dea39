-- ===== src/Server/Batch.antt =====
-- `BatchPutPage` over the RAM backend.
use omega_fusion_core_proxmo.Prelude.{
  ℕ, suc, false, ◌≤◌, ltb, length-take, length-drop, ◌+◌, ◌*◌, ◌%◌, ◌^◌, ◌<◌, some, ◌≡◌, ◌≢◌, refl,
  ap, ◌∙◌, List, [], ◌∷◌, ◌++◌, arith, length, length-append, none, All, take, drop, take_prefix,
  drop_prefix,
}
use mathlib.Core.List.{append_assoc}
use native.Mathlib.Nat.{add-zero}
use omega_fusion_core_proxmo.Prelude.Assoc.{contains_key, length-insert}
use omega_fusion_core_proxmo.Wire.{Opcode, message, page_size}
use omega_fusion_core_proxmo.Wire.Bytes.{to_be, from_be, from_be-to_be, length-to_be}
use omega_fusion_core_proxmo.Wire.Batch.{batch_payload, ok_message}
use omega_fusion_core_proxmo.Wire.Batch.RoundTrip.{IsPage, length-batch_payload}
use omega_fusion_core_proxmo.Wire.Messages.{error_msg}
use omega_fusion_core_proxmo.Store.{PageKey, PageKey-discrete, PageStore, find, len, put}
use omega_fusion_core_proxmo.Server.{
  Texts, CephOps, AnyStore, ram, key_of, any_put, store_entries, any_len, dispatch, dispatch_op,
  dispatch_batch, batch_reply,
}

-- The pages of a batch, put one after the other.
abbrev pub put_pages : PageStore → ℕ → List (ℕ × List ℕ) → ℕ → PageStore
put_pages s vm [] now = s
put_pages s vm ((pid, bytes) ∷ pages) now =
    put_pages (put s (key_of vm pid) bytes now).0 vm pages now

-- The three parts of the first entry.
module _ (pid : ℕ) (bytes : List ℕ) (pages : List (ℕ × List ℕ)) (page : IsPage (pid, bytes)) where
  entry_id : from_be (take 8 (batch_payload ((pid, bytes) ∷ pages))) ≡ pid
  unfolding batch_payload
  entry_id =
      rw (take_prefix 8 (to_be 8 pid) (bytes ++ batch_payload pages) (length-to_be 8 pid))
        (from_be-to_be 8 pid (omega (arith, page.0)))

  entry_data : take page_size (drop 8 (batch_payload ((pid, bytes) ∷ pages))) ≡ bytes
  unfolding batch_payload
  entry_data =
      rw (drop_prefix 8 (to_be 8 pid) (bytes ++ batch_payload pages) (length-to_be 8 pid))
        (take_prefix page_size bytes (batch_payload pages) page.1)

  entry_rest : drop (8 + page_size) (batch_payload ((pid, bytes) ∷ pages)) ≡ batch_payload pages
  unfolding batch_payload
  entry_rest = rw (← append_assoc (to_be 8 pid) bytes (batch_payload pages)) (
      drop_prefix (8 + page_size) (to_be 8 pid ++ bytes) (batch_payload pages)
        (omega (arith, length-append (to_be 8 pid) bytes, length-to_be 8 pid, page.1)))

not_below : (a b : ℕ) → b ≤ a → ltb a b ≡ false
not_below a b h = ground arith

-- The payload has an entry where its page is whole.
whole_entry :
    (payload bytes : List ℕ)
    → take page_size (drop 8 payload) ≡ bytes
    → length bytes ≡ page_size
    → ltb (length payload) (8 + page_size) ≡ false
whole_entry payload bytes b h =
    not_below (length payload) (8 + page_size)
      (omega (arith, length-take page_size (drop 8 payload), length-drop 8 payload, ap length b, h))

regroup : (a b : ℕ) → a + 1 + b ≡ a + suc b
regroup a b = omega arith

len-put_new :
    (s : PageStore) (k : PageKey) (bytes : List ℕ) (now : ℕ)
    → length bytes ≡ page_size
    → find k s.pages ≡ none
    → len (put s k bytes now).0 ≡ len s + 1
unfolding put contains_key
len-put_new s k bytes now h absent =
    ground (arith, length-insert PageKey-discrete k (bytes, now) s.pages)

module _ {C : Type 0} (ops : CephOps C) (texts : Texts) where
  open texts use {corrupt_batch}

  any_put_page :
      (s : PageStore) (vm pid : ℕ) (bytes : List ℕ) (now : ℕ)
      → length bytes ≡ page_size
      → any_put ops texts (ram s) (key_of vm pid) bytes now
        ≡ (ram (put s (key_of vm pid) bytes now).0, none)
  unfolding any_put put
  any_put_page s vm pid bytes now h = ground arith

  store_entries-suc :
      (i : ℕ) (payload : List ℕ) (s : PageStore) (vm now ok failed pid : ℕ) (bytes rest : List ℕ)
      → from_be (take 8 payload) ≡ pid
      → take page_size (drop 8 payload) ≡ bytes
      → drop (8 + page_size) payload ≡ rest
      → length bytes ≡ page_size
      → store_entries ops texts (suc i) payload (ram s) vm now ok failed
        ≡ store_entries ops texts i rest
            (ram (put s (key_of vm pid) bytes now).0)
            vm
            now
            (ok + 1)
            failed
  unfolding store_entries
  store_entries-suc i payload s vm now ok failed pid bytes rest p b r h =
      let put_ok : any_put ops texts (ram s) (key_of vm (from_be (take 8 payload)))
            (take page_size (drop 8 payload)) now
          ≡ (ram (put s (key_of vm pid) bytes now).0, none) =
        rw (p, b) (any_put_page s vm pid bytes now h) in
      let long : ltb (length payload) (8 + page_size) ≡ false = whole_entry payload bytes b h in
      rw (long, store_entries, put_ok, r) (rw put_ok)

  store_entries-batch_payload :
      (pages : List (ℕ × List ℕ)) (s : PageStore) (vm now ok : ℕ)
      → All IsPage pages
      → store_entries ops texts (length pages) (batch_payload pages) (ram s) vm now ok 0
        ≡ (ram (put_pages s vm pages now), some (ok + length pages, 0))
  store_entries-batch_payload [] s vm now ok h = rw add-zero (unfold store_entries in refl)
  store_entries-batch_payload ((pid, bytes) ∷ pages) s vm now ok h =
      store_entries-suc (length pages) (batch_payload ((pid, bytes) ∷ pages)) s vm now ok 0 pid
        bytes (batch_payload pages) (entry_id pid bytes pages h.0) (entry_data pid bytes pages h.0)
        (entry_rest pid bytes pages h.0) h.0.1
      ∙ store_entries-batch_payload pages (put s (key_of vm pid) bytes now).0 vm now (ok + 1) h.1
      ∙ rw (regroup ok (length pages))

  -- A batch message of fewer than 2^32 whole pages is stored page by page into the RAM store,
  -- whatever `max_pages` says, and the reply counts every page as stored and none as failed.
  pub dispatch-batch_payload :
      (pages : List (ℕ × List ℕ)) (s : PageStore) (vm max_pages now : ℕ)
      → All IsPage pages
      → length pages < 2 ^ 32
      → dispatch ops texts
          (message Opcode.batch_put_page vm (length pages) (batch_payload pages))
          (ram s)
          max_pages
          now
        ≡ (ram (put_pages s vm pages now), some (ok_message vm (length pages) 0))
  unfolding dispatch dispatch_op dispatch_batch batch_reply
  dispatch-batch_payload pages s vm max_pages now h few =
      ground (arith, length-batch_payload pages h, store_entries-batch_payload pages s vm now 0 h)

  -- A batch message whose payload is not as long as its count of entries asks for in 64 bits is answered with
  -- an error, and the store stays as it was.
  pub dispatch_corrupt_batch :
      (vm count max_pages now : ℕ) (payload : List ℕ) (s : AnyStore C)
      → length payload ≢ count * (8 + page_size) % 2 ^ 64
      → dispatch ops texts (message Opcode.batch_put_page vm count payload) s max_pages now
        ≡ (s, some (error_msg corrupt_batch))
  unfolding dispatch dispatch_op dispatch_batch
  dispatch_corrupt_batch vm count max_pages now payload s h = ground arith

  -- A batch of one whole page that is not in the RAM store makes the store one page larger,
  -- although the limit `max_pages` is the number of pages it holds.
  pub dispatch_batch_over_limit :
      (vm pid now : ℕ) (bytes : List ℕ) (s : PageStore)
      → IsPage (pid, bytes)
      → find (key_of vm pid) s.pages ≡ none
      → any_len ops texts
          (dispatch ops texts
            (message Opcode.batch_put_page vm 1 (batch_payload ((pid, bytes) ∷ [])))
            (ram s)
            (len s)
            now).0
        ≡ len s + 1
  dispatch_batch_over_limit vm pid now bytes s page absent =
      ap (λ r. any_len ops texts r.0)
        (dispatch-batch_payload ((pid, bytes) ∷ []) s vm (len s) now (page, tt) (omega arith))
      ∙ unfold any_len in len-put_new s (key_of vm pid) bytes now page.1 absent
