-- ===== src/Server/Connection.antt =====
-- The loop of one connection (`handle_connection` of node-bc-store/src/server.rs).
use omega_fusion_core_proxmo.Prelude.{
  leb, drop, ◌==◌, take, ℕ, zero, suc, ◌+◌, ◌-◌, ◌%◌, ◌≤◌, ◌<◌, ◌≡◌, ◌≢◌, ◌⊎◌, inl, inr, refl, ap,
  Option, none, some, ◌∙◌, List, [], ◌∷◌, ◌++◌, arith, length, All,
}
use omega_fusion_core_proxmo.Wire.{
  payload_too_large, payload_limit, bad_magic, magic, Message, Result, WireError, done, err,
  unexpected_eof, read_exact, header_size, guard, try_from, ◌>>=◌, unpack, read_from, write_to,
}
use omega_fusion_core_proxmo.Wire.Codec.{Lz4}
use omega_fusion_core_proxmo.Wire.Reader.{IsSendable, read_from_eof, read_exact_short}
use omega_fusion_core_proxmo.Wire.RoundTrip.{read_from-write_to}
use omega_fusion_core_proxmo.Server.{
  from_be, Texts, CephOps, AnyStore, Ending, closed, stuck, panicked, ending_of, dispatch, outcome,
  serve,
}

Result-cases {ℓ} :
    {A : Type ℓ} (r : Result A) → ((a : A) × (r ≡ done a)) ⊎ ((e : WireError) × (r ≡ err e))
Result-cases (done a) = inl (a, refl)
Result-cases (err e) = inr (e, refl)

>>=-eq-done {ℓ κ} :
    {A : Type ℓ} {B : Type κ} (r : Result A) (f : A → Result B) {b : B}
    → (r >>= f) ≡ done b
    → (a : A) × (r ≡ done a) × (f a ≡ done b)
>>=-eq-done (done a) f h = (a, refl, h)
>>=-eq-done (err e) f h = cc

read_exact-length :
    (n : ℕ) (s bs rest : List ℕ) → read_exact n s ≡ done (bs, rest) → length rest + n ≡ length s
unfolding read_exact
read_exact-length zero s bs rest h = ground arith
read_exact-length (suc n) [] bs rest h = cc
read_exact-length (suc n) (b ∷ s) bs rest h =
    let ((front, left), e, f) = >>=-eq-done (read_exact n s) _ h in
    let same : left ≡ rest = ground arith in
    omega (arith, read_exact-length n s front left e, ap length same)

-- A message that was read took at least its header from the stream.
read_from-length :
    (lz4 : Lz4) (s : List ℕ) (m : Message) (rest : List ℕ)
    → read_from lz4 s ≡ done (m, rest)
    → length rest + 20 ≤ length s
unfolding read_from
read_from-length lz4 s m rest h =
    let ((header, behind), e, h1) = >>=-eq-done (read_exact header_size s) _ h in
    let (_, _, h2) = >>=-eq-done (guard (from_be (take 2 header) == magic) bad_magic) _ h1 in
    let (op, _, h3) = >>=-eq-done (try_from (from_be (take 1 (drop 2 header)))) _ h2 in
    let size = from_be (take 4 (drop 16 header)) in
    let (_, _, h4) =
      >>=-eq-done (guard (leb size (payload_limit op)) (payload_too_large size (payload_limit op)))
        _ h3 in
    let ((raw, left), r, h5) = >>=-eq-done (read_exact size behind) _ h4 in
    let (unpacked, _, h6) = >>=-eq-done (unpack lz4 (from_be (take 1 (drop 3 header))) raw) _ h5 in
    let same : left ≡ rest = ground arith in
    omega (
      arith,
      read_exact-length header_size s header behind e,
      read_exact-length size behind raw left r,
      ap length same,
    )

panicked-ne-stuck : panicked ≢ stuck
panicked-ne-stuck = λ p. cc

ending-ne-stuck : (e : WireError) → ending_of e ≢ stuck
ending-ne-stuck unexpected_eof = λ p. cc
ending-ne-stuck _ = λ p. cc

read_from_nothing : (lz4 : Lz4) → read_from lz4 [] ≡ err unexpected_eof
read_from_nothing lz4 = read_from_eof lz4 [] (read_exact_short 20 [] (omega arith))

one_less : (f : ℕ) → suc f - 1 ≡ f
one_less f = omega arith

module _ {C : Type 0} (ops : CephOps C) (texts : Texts) (lz4 : Lz4) (max_pages : ℕ)
    (clock : ℕ → ℕ) where
  serve_err :
      (f : ℕ) (input : List ℕ) (s : AnyStore C) (e : WireError)
      → read_from lz4 input ≡ err e
      → serve ops texts lz4 max_pages clock (suc f) input s ≡ (s, [], ending_of e)
  unfolding serve
  serve_err f input s e h = rw (h, serve)

  serve_done :
      (f : ℕ) (input : List ℕ) (s : AnyStore C) (m : Message) (rest : List ℕ)
      → read_from lz4 input ≡ done (m, rest)
      → let r = dispatch ops texts m s max_pages (clock f) in
        let later = serve ops texts lz4 max_pages clock f rest r.0 in
        serve ops texts lz4 max_pages clock (suc f) input s ≡ outcome r.1 r.0 later
  unfolding serve
  serve_done f input s m rest h = rw (h, serve)

  goes_on :
      (o : Option Message) (t : AnyStore C) (later : AnyStore C × List ℕ × Ending)
      → later.2 ≢ stuck
      → (outcome o t later).2 ≢ stuck
  goes_on none t later h = panicked-ne-stuck
  goes_on (some reply) t later h = h

  -- With more rounds than the input has bytes, the loop of a connection never runs out of rounds:
  -- every input ends it.
  pub serve-ne-stuck :
      (f : ℕ) (input : List ℕ) (s : AnyStore C)
      → length input < f
      → (serve ops texts lz4 max_pages clock f input s).2 ≢ stuck
  unfolding serve
  serve-ne-stuck zero input s h = elim h [ ]
  serve-ne-stuck (suc f) input s h = elim (Result-cases (read_from lz4 input)) [
    | inl ((m, rest), e) ↦ rw (serve_done f input s m rest e) (
        goes_on (dispatch ops texts m s max_pages (clock f)).1
          (dispatch ops texts m s max_pages (clock f)).0
          (serve ops texts lz4 max_pages clock f rest
            (dispatch ops texts m s max_pages (clock f)).0)
          (serve-ne-stuck f rest (dispatch ops texts m s max_pages (clock f)).0
            (omega (arith, read_from-length lz4 input m rest e))))
    | inr (x, e) ↦ rw (serve_err f input s x e) (ending-ne-stuck x)
  ]

  -- The store behind a list of messages, the responses, and the end: the first panic is the last.
  abbrev pub answer : ℕ → List Message → AnyStore C → AnyStore C × List ℕ × Ending
  answer f [] s = (s, [], closed)
  answer f (m ∷ ms) s =
      let (t, o) = dispatch ops texts m s max_pages (clock (f - 1)) in
      outcome o t (answer (f - 1) ms t)

  abbrev pub frames : List Message → List ℕ
  frames [] = []
  frames (m ∷ ms) = write_to m ++ frames ms

  -- When a connection carries sendable messages without the compression bit one after the other and
  -- then ends, and there are more rounds than messages, the loop answers each of them in order with
  -- the response of `dispatch` on the store that the earlier ones left and ends as closed, or,
  -- where a message makes the task panic, ends there as panicked without an answer to it.
  pub serve-frames :
      (ms : List Message) (f : ℕ) (s : AnyStore C)
      → length ms < f
      → All (λ m. IsSendable m × (m.flags % 2 ≡ 0)) ms
      → serve ops texts lz4 max_pages clock f (frames ms) s ≡ answer f ms s
  unfolding serve
  serve-frames ms zero s h a = elim h [ ]
  serve-frames [] (suc f) s h a = serve_err f [] s unexpected_eof (read_from_nothing lz4)
  serve-frames (m ∷ ms) (suc f) s h a =
      serve_done f (frames (m ∷ ms)) s m (frames ms)
        (read_from-write_to lz4 m (frames ms) a.0.0 a.0.1)
      ∙ rw (serve-frames ms f (dispatch ops texts m s max_pages (clock f)).0 (omega arith) a.1)
          (rw (one_less f))
