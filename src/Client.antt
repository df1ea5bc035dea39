-- ===== src/Client.antt =====
-- node-a-agent/src/remote.rs: the client of the stores, from the choice of a store to the bytes of a
-- request and its reply. The environment says what becomes of each exchange (`Fate`); a pool of
-- connections drops the one on which an exchange failed, so no reply is read twice, and which
-- connection serves an exchange makes no difference.
pub mod Exchange
pub mod Replication
pub mod Availability
pub mod Durability
use omega_fusion_core_proxmo.Prelude.{
  ℕ, zero, suc, ◌+◌, ◌%◌, ◌^◌, Bool, true, false, not, ◌&&◌, Option, none, some, List, [], ◌∷◌, leb,
  ltb, ◌==◌, if◌then◌else◌, length, select,
}
use mathlib.Core.Option
use omega_fusion_core_proxmo.Wire.{
  Opcode, Message, message, Result, done, err, page_size, read_from, write_to, try_compress,
}
use omega_fusion_core_proxmo.Wire.Codec.{Lz4}
use omega_fusion_core_proxmo.Wire.Batch.{
  BatchPutRequest, BatchPutResponse, write_batch, read_reply, new_batch, push,
}
use omega_fusion_core_proxmo.Wire.Messages.{get_page_request, delete_page_request, ping_message}
use omega_fusion_core_proxmo.Server.{Texts, CephOps, AnyStore, dispatch}

-- An exchange is answered, or fails before the server has the request, or after it has served it.
pub data Fate : Type 0 where
  answered request_lost reply_lost : Fate

-- The stores by their index; those from `num_stores` on are never reached.
pub record Pool (C : Type 0) : Type 0 where
  pub num_stores : ℕ
  pub store_at : ℕ → AnyStore C

-- What the calls of `bail!` and `?` report.
pub data ClientError : Type 0 where
  transport : ClientError
  wrong_size : ℕ → ClientError
  refused : List ℕ → ClientError
  unexpected : Opcode → ClientError
  out_of_range : ℕ → ClientError

pub data Outcome {ℓ} (A : Type ℓ) : Type ℓ where
  ok : A → Outcome A
  bail : ClientError → Outcome A

module _ {C : Type 0} where
  unfoldable pub store_index : Pool C → ℕ → ℕ
  store_index p page = page % p.num_stores

  unfoldable pub replica_index : Pool C → ℕ → ℕ
  unfolding store_index
  replica_index p page = (store_index p page + 1) % p.num_stores

  abbrev pub with_store : ℕ → AnyStore C → Pool C → Pool C
  with_store i s p = record p { store_at = λ j. if j == i then s else p.store_at j }

unfoldable pub put_reply : Opcode → Message → Outcome (Unit {0})
put_reply Opcode.ok m = ok tt
put_reply Opcode.error m = bail (refused m.payload)
put_reply op m = bail (unexpected op)

unfoldable pub put_outcome : Option Message → Outcome (Unit {0})
unfolding put_reply
put_outcome none = bail transport
put_outcome (some m) = put_reply m.opcode m

-- `sized` says whether the length of a page is tested; `get_page_replica` does not test it.
unfoldable pub get_reply : Bool → Opcode → Message → Outcome (Option (List ℕ))
get_reply sized Opcode.ok m =
    if sized && not (length m.payload == page_size)
    then bail (wrong_size (length m.payload))
    else ok (some m.payload)
get_reply sized Opcode.not_found m = ok none
get_reply sized Opcode.error m = bail (refused m.payload)
get_reply sized op m = bail (unexpected op)

unfoldable pub get_outcome : Bool → Option Message → Outcome (Option (List ℕ))
unfolding get_reply
get_outcome sized none = bail transport
get_outcome sized (some m) = get_reply sized m.opcode m

unfoldable pub delete_reply : Opcode → Message → Outcome Bool
delete_reply Opcode.ok m = ok true
delete_reply Opcode.not_found m = ok false
delete_reply Opcode.error m = bail (refused m.payload)
delete_reply op m = bail (unexpected op)

unfoldable pub delete_outcome : Option Message → Outcome Bool
unfolding delete_reply
delete_outcome none = bail transport
delete_outcome (some m) = delete_reply m.opcode m

-- `delete_page_replica` takes an error for an unexpected reply.
unfoldable pub delete_replica_reply : Opcode → Outcome Bool
delete_replica_reply Opcode.ok = ok true
delete_replica_reply Opcode.not_found = ok false
delete_replica_reply op = bail (unexpected op)

unfoldable pub delete_replica_outcome : Option Message → Outcome Bool
unfolding delete_replica_reply
delete_replica_outcome none = bail transport
delete_replica_outcome (some m) = delete_replica_reply m.opcode

unfoldable pub is_pong : Opcode → Bool
is_pong Opcode.pong = true
is_pong _ = false

module _ (lz4 : Lz4) where
  unfoldable pub received : List ℕ → Option Message
  received bytes = elim (read_from lz4 bytes) [ err _ ↦ none | done (m, rest) ↦ some m ]

  -- `base.try_compress().unwrap_or(base)`.
  unfoldable pub put_request : ℕ → ℕ → List ℕ → Message
  put_request vm page bytes =
      let base = message Opcode.put_page vm page bytes in Option.get_or (try_compress lz4 base) base

-- `limit` is `max_pages` of each store.
module _ {C : Type 0} (ops : CephOps C) (texts : Texts) (lz4 : Lz4) (limit : ℕ → ℕ) where
  -- The server reads a frame, dispatches it, and the client reads the reply, if there is one.
  unfoldable pub server_step : ℕ → ℕ → List ℕ → AnyStore C → AnyStore C × List ℕ
  server_step max_pages now frame s = elim (read_from lz4 frame) [
    | err _ ↦ (s, [])
    | done (m, rest) ↦
        let (t, answer) = dispatch ops texts m s max_pages now in
        (t, elim answer [ none ↦ [] | some reply ↦ write_to reply ])
  ]

  -- The store and the bytes that come back.
  unfoldable pub exchange : Fate → ℕ → ℕ → List ℕ → AnyStore C → AnyStore C × List ℕ
  unfolding server_step
  exchange answered max_pages now frame s = server_step max_pages now frame s
  exchange request_lost max_pages now frame s = (s, [])
  exchange reply_lost max_pages now frame s = ((server_step max_pages now frame s).0, [])

  -- `ConnPool::send_recv` with the store of that index; `none` is an error.
  unfoldable pub send_recv : Fate → ℕ → ℕ → Message → Pool C → Pool C × Option Message
  unfolding received
  send_recv fate now i req p =
      let (s, bytes) = exchange fate (limit i) now (write_to req) (p.store_at i) in
      (with_store i s p, received lz4 bytes)

  unfoldable pub put_at : Fate → ℕ → ℕ → ℕ → ℕ → List ℕ → Pool C → Pool C × Outcome (Unit {0})
  unfolding put_outcome
  put_at fate now i vm page bytes p =
      let (q, reply) = send_recv fate now i (put_request lz4 vm page bytes) p in
      (q, put_outcome reply)

  unfoldable pub put_page : Fate → ℕ → ℕ → ℕ → List ℕ → Pool C → Pool C × Outcome (Unit {0})
  put_page fate now vm page bytes p =
      if length bytes == page_size
      then put_at fate now (store_index p page) vm page bytes p
      else (p, bail (wrong_size (length bytes)))

  -- For a page of `PAGE_SIZE` bytes; `Message::put_page` panics on any other.
  unfoldable pub put_page_replica : Fate → ℕ → ℕ → ℕ → List ℕ → Pool C → Pool C × Outcome (Unit {0})
  put_page_replica fate now vm page bytes p = put_at fate now (replica_index p page) vm page bytes p

  unfoldable pub put_page_to : Fate → ℕ → ℕ → ℕ → List ℕ → ℕ → Pool C → Pool C × Outcome (Unit {0})
  put_page_to fate now vm page bytes i p =
      if not (length bytes == page_size)
      then (p, bail (wrong_size (length bytes)))
      else if leb p.num_stores i
      then (p, bail (out_of_range i))
      else put_at fate now i vm page bytes p

  unfoldable pub get_at : Bool → Fate → ℕ → ℕ → ℕ → ℕ → Pool C → Pool C × Outcome (Option (List ℕ))
  unfolding get_outcome
  get_at sized fate now i vm page p =
      let (q, reply) = send_recv fate now i (get_page_request vm page) p in
      (q, get_outcome sized reply)

  unfoldable pub get_page : Fate → ℕ → ℕ → ℕ → Pool C → Pool C × Outcome (Option (List ℕ))
  get_page fate now vm page p = get_at true fate now (store_index p page) vm page p

  unfoldable pub get_page_replica : Fate → ℕ → ℕ → ℕ → Pool C → Pool C × Outcome (Option (List ℕ))
  get_page_replica fate now vm page p = get_at false fate now (replica_index p page) vm page p

  unfoldable pub get_page_from : Fate → ℕ → ℕ → ℕ → ℕ → Pool C → Pool C × Outcome (Option (List ℕ))
  get_page_from fate now vm page i p =
      if leb p.num_stores i then (p, bail (out_of_range i)) else get_at true fate now i vm page p

  unfoldable pub delete_at : Fate → ℕ → ℕ → ℕ → ℕ → Pool C → Pool C × Option Message
  delete_at fate now i vm page p = send_recv fate now i (delete_page_request vm page) p

  unfoldable pub delete_page : Fate → ℕ → ℕ → ℕ → Pool C → Pool C × Outcome Bool
  unfolding delete_at delete_outcome
  delete_page fate now vm page p =
      let (q, reply) = delete_at fate now (store_index p page) vm page p in
      (q, delete_outcome reply)

  unfoldable pub delete_page_replica : Fate → ℕ → ℕ → ℕ → Pool C → Pool C × Outcome Bool
  unfolding delete_at delete_replica_outcome
  delete_page_replica fate now vm page p =
      let (q, reply) = delete_at fate now (replica_index p page) vm page p in
      (q, delete_replica_outcome reply)

  unfoldable pub delete_page_from : Fate → ℕ → ℕ → ℕ → ℕ → Pool C → Pool C × Outcome Bool
  unfolding delete_at delete_outcome
  delete_page_from fate now vm page i p =
      let (q, reply) = delete_at fate now i vm page p in
      if leb p.num_stores i then (p, bail (out_of_range i)) else (q, delete_outcome reply)

  unfoldable pub ping : Fate → ℕ → ℕ → Pool C → Pool C × Bool
  unfolding is_pong
  ping fate now i p =
      let (q, reply) = send_recv fate now i ping_message p in
      (q, elim reply [ none ↦ false | some m ↦ is_pong m.opcode ])

  -- The pages of a batch that go to store `i`, in their order.
  unfoldable pub pages_of : Pool C → ℕ → List (ℕ × List ℕ) → List (ℕ × List ℕ)
  pages_of p i pages = select (λ e. store_index p e.0 == i) pages

  -- `left` stores from `i` on; `fates` gives the fate of the exchange with each.
  unfoldable pub batch_from :
      ℕ → ℕ → (ℕ → Fate) → ℕ → ℕ → List (ℕ × List ℕ) → ℕ → Pool C → Pool C × Outcome ℕ
  unfolding pages_of
  batch_from zero i fates now vm pages total p = (p, ok total)
  batch_from (suc left) i fates now vm pages total p =
      let mine = pages_of p i pages in
      let req : BatchPutRequest = record { vm_id = vm; pages = mine } in
      let (s, bytes) = exchange (fates i) (limit i) now (write_batch lz4 req) (p.store_at i) in
      elim mine [
        | [] ↦ batch_from left (i + 1) fates now vm pages total p
        | _ ∷ _ ↦ elim (read_reply lz4 bytes) [
          | err e ↦ (with_store i s p, bail transport)
          | done (r, rest) ↦
              batch_from left (i + 1) fates now vm pages ((total + r.stored) % 2 ^ 32)
                (with_store i s p)
        ]
      ]

  unfoldable pub batch_put_pages :
      (ℕ → Fate) → ℕ → ℕ → List (ℕ × List ℕ) → Pool C → Pool C × Outcome ℕ
  batch_put_pages fates now vm pages p = batch_from p.num_stores 0 fates now vm pages 0 p
