-- ===== src/Wire/Reader.antt =====
-- `read_from` on a stream whose header is known, and on what `write_to` wrote.
use omega_fusion_core_proxmo.Prelude.{
  ℕ, zero, suc, ◌+◌, ◌^◌, ◌≤◌, ◌<◌, ◌≡◌, refl, ap, ◌∙◌, List, [], ◌∷◌, ◌++◌, arith, length, take,
  drop,
}
use omega_fusion_core_proxmo.Wire.Bytes.{IsByte, to_be, from_be, from_be-to_be, take_byte}
use omega_fusion_core_proxmo.Wire.Codec.{Lz4}
use omega_fusion_core_proxmo.Wire.{
  Opcode, as_u8, try_from, Message, done, err, ◌>>=◌, magic, header_size, payload_limit, read_exact,
  write_to, unpack, read_from, unexpected_eof, payload_too_large,
}

-- The integer ranges of a message's fields, and the payload limit of the reader.
pub record IsSendable (m : Message) : Type 0 where
  pub flags_byte : IsByte m.flags
  pub vm_id_u32 : m.vm_id < 2 ^ 32
  pub page_id_u64 : m.page_id < 2 ^ 64
  pub payload_fits : length m.payload ≤ payload_limit m.opcode

-- Each opcode has its own byte, and the reader knows it.
pub try_from-as_u8 : (op : Opcode) → try_from (as_u8 op) ≡ done op
unfolding try_from as_u8
try_from-as_u8 Opcode.ping = refl
try_from-as_u8 _ = refl

pub as_u8-lt : (op : Opcode) → as_u8 op < 256
unfolding as_u8
as_u8-lt Opcode.ping = omega arith
as_u8-lt _ = omega arith

-- A byte that is taken for an opcode is that opcode's byte.
pub as_u8-try_from : (v : ℕ) (op : Opcode) → try_from v ≡ done op → as_u8 op ≡ v
unfolding try_from as_u8
as_u8-try_from v op h = ground arith

pub payload_limit-lt : (op : Opcode) → payload_limit op < 2 ^ 32
unfolding payload_limit
payload_limit-lt Opcode.batch_put_page = omega arith
payload_limit-lt _ = omega arith

-- `read_exact` splits off a prefix of its length.
pub read_exact-append : (xs ys : List ℕ) → read_exact (length xs) (xs ++ ys) ≡ done (xs, ys)
unfolding read_exact
read_exact-append [] ys = refl
read_exact-append (x ∷ xs) ys = rw (read_exact-append xs ys)

sucs : ℕ → ℕ → ℕ
sucs zero j = j
sucs (suc n) j = suc (sucs n j)

-- Too few bytes are the end of the stream.
pub read_exact_short : (n : ℕ) (s : List ℕ) → length s < n → read_exact n s ≡ err unexpected_eof
unfolding read_exact
read_exact_short zero s h = elim h [ ]
read_exact_short (suc n) [] h = refl
read_exact_short (suc n) (b ∷ s) h = rw (read_exact_short n s (omega arith))

pub length-write_to : (m : Message) → length (write_to m) ≡ 20 + length m.payload
unfolding write_to to_be
length-write_to m = omega arith

abbrev pub header : Message → List ℕ
header m =
    to_be 2 magic
    ++ (as_u8 m.opcode
        ∷ m.flags
        ∷ (to_be 4 m.vm_id ++ (to_be 8 m.page_id ++ to_be 4 (length m.payload))))

pub read_exact-header :
    (m : Message) (rest : List ℕ)
    → read_exact header_size (write_to m ++ rest) ≡ done (header m, m.payload ++ rest)
unfolding read_exact write_to to_be
read_exact-header m rest = refl

twenty : (j : ℕ) → j + 20 ≡ sucs 20 j
unfolding sucs
twenty j = omega arith

pub read_exact-header_cut :
    (m : Message) (k j : ℕ)
    → k ≡ j + 20
    → read_exact header_size (take k (write_to m)) ≡ done (header m, take j m.payload)
unfolding read_exact write_to to_be sucs
read_exact-header_cut m k j e = rw (e ∙ twenty j)

module _ (lz4 : Lz4) where
  read_from_lem :
      (hdr s s' s'' raw : List ℕ) (op : Opcode) (fl vm pg len : ℕ)
      → read_exact header_size s ≡ done (hdr, s')
      → from_be (take 2 hdr) ≡ magic
      → try_from (from_be (take 1 (drop 2 hdr))) ≡ done op
      → from_be (take 1 (drop 3 hdr)) ≡ fl
      → from_be (take 4 (drop 4 hdr)) ≡ vm
      → from_be (take 8 (drop 8 hdr)) ≡ pg
      → from_be (take 4 (drop 16 hdr)) ≡ len
      → len ≤ payload_limit op
      → read_exact len s' ≡ done (raw, s'')
      → read_from lz4 s ≡ (
          unpack lz4 fl raw >>= λ r.
          done (record { opcode = op; flags = r.1; vm_id = vm; page_id = pg; payload = r.0 }, s''))
  unfolding read_from
  read_from_lem hdr s s' s'' raw op fl vm pg len e m t f v p l fits r =
      rw (e, m, t, f, v, p, l, r) (ground arith)

  pub read_from_too_large :
      (hdr s s' : List ℕ) (op : Opcode) (len : ℕ)
      → read_exact header_size s ≡ done (hdr, s')
      → from_be (take 2 hdr) ≡ magic
      → try_from (from_be (take 1 (drop 2 hdr))) ≡ done op
      → from_be (take 4 (drop 16 hdr)) ≡ len
      → payload_limit op < len
      → read_from lz4 s ≡ err (payload_too_large len (payload_limit op))
  unfolding read_from
  read_from_too_large hdr s s' op len e m t l over = rw (e, m, t, l) (ground arith)

  pub read_from_eof :
      (s : List ℕ)
      → read_exact header_size s ≡ err unexpected_eof
      → read_from lz4 s ≡ err unexpected_eof
  unfolding read_from
  read_from_eof s e = rw e

  -- The header is whole and the payload is cut.
  pub read_from_cut :
      (hdr s s' : List ℕ) (op : Opcode) (len : ℕ)
      → read_exact header_size s ≡ done (hdr, s')
      → from_be (take 2 hdr) ≡ magic
      → try_from (from_be (take 1 (drop 2 hdr))) ≡ done op
      → from_be (take 4 (drop 16 hdr)) ≡ len
      → len ≤ payload_limit op
      → read_exact len s' ≡ err unexpected_eof
      → read_from lz4 s ≡ err unexpected_eof
  unfolding read_from
  read_from_cut hdr s s' op len e m t l fits r = rw (e, m, t, l, r) (ground arith)

  -- The reader on what the writer wrote, with the payload still to be unpacked.
  pub read_from-write_to-unpack :
      (m : Message) (rest : List ℕ)
      → IsSendable m
      → read_from lz4 (write_to m ++ rest) ≡ (
          unpack lz4 m.flags m.payload >>= λ r.
          done (record m { flags = r.1; payload = r.0 }, rest))
  unfolding to_be
  read_from-write_to-unpack m rest v =
      read_from_lem (header m) _ (m.payload ++ rest) rest m.payload m.opcode m.flags m.vm_id
        m.page_id (length m.payload) (read_exact-header m rest)
        (from_be-to_be 2 magic (omega arith)) (ap try_from (take_byte _) ∙ try_from-as_u8 m.opcode)
        (take_byte _) (from_be-to_be 4 m.vm_id (omega arith))
        (from_be-to_be 8 m.page_id (omega arith))
        (from_be-to_be 4 (length m.payload) (omega (arith, payload_limit-lt m.opcode)))
        v.payload_fits (read_exact-append m.payload rest)
