-- ===== src/Handler/Frontier/Split.antt =====
-- The responses to a frontier request, against the entries that the bytes stand for.
use nanocap.Prelude.{
  ℕ, zero, suc, ◌+◌, ◌≤◌, ◌<◌, ◌≡◌, sym, ◌∙◌, ap, arith, true, false, none, List, [], ◌∷◌, ◌++◌,
  length, take, drop, take-append, drop-append, length-append, append_assoc, append-nil, All, leb,
}
use nanocap.Stream.{KStream, Bytes}
use nanocap.Flow.{CircularBuffer, NanoPacket, capacity, accumulate}
use nanocap.Flow.Buffer.{contents-accumulate}
use nanocap.Protocol.Bootstrap.{FrontierEntry}
use nanocap.Protocol.Encode.{encode_frontier_entry, IsFrontierEntry}
use nanocap.Protocol.RoundTrip.Bootstrap.{read_frontier_entry-Decodes}
use nanocap.Db.{Env}
use nanocap.Handler.Session.{Session, all_zero, end_response}
use nanocap.Handler.Session.Ended.{IsEnded, ended}
use nanocap.Util.Text.{codes}
use nanocap.Handler.Frontier.{accept_frontier, frontier_loop, handle_frontier}

-- An entry that does not end the response.
pub record IsOpen (e : FrontierEntry) : Type 0 where
  pub sizes : IsFrontierEntry e
  pub nonzero : all_zero e.account ≡ false

length-encode : (e : FrontierEntry) → IsFrontierEntry e → length (encode_frontier_entry e) ≡ 64
length-encode e h = omega (
  arith,
  h.account_ok,
  h.frontier_hash_ok,
  length-append e.account (e.frontier_hash ++ []),
  length-append e.frontier_hash [],
)

-- The bytes of a response without its end.
abbrev pub wire : List FrontierEntry → Bytes
wire [] = []
wire (e ∷ es) = encode_frontier_entry e ++ wire es

module _ (k : KStream) (cb : CircularBuffer) (env : Env) where
  open cb use {Buffer, contents, erase_begin}

  -- Every entry is accepted in turn.
  abbrev pub accept_all : List FrontierEntry → Session cb → Session cb
  accept_all [] s = s
  accept_all (e ∷ es) s = accept_all es (accept_frontier k cb env e 64 s)

  -- What the buffer of a connection holds.
  abbrev pub bytes_of : Session cb → Bytes
  bytes_of s = contents (s.0).accumulated_data

  contents-accept :
      (e : FrontierEntry) (s : Session cb) (tail : Bytes)
      → IsFrontierEntry e
      → bytes_of s ≡ encode_frontier_entry e ++ tail
      → bytes_of (accept_frontier k cb env e 64 s) ≡ tail
  unfolding accept_frontier
  contents-accept e s tail he h =
      let l = length-encode e he in
      cb.contents-erase_begin 64 (s.0).accumulated_data
        (omega (arith, ap length h, length-append (encode_frontier_entry e) tail))
      ∙ ap (drop 64) h
      ∙ rw (← l) (drop-append (encode_frontier_entry e) tail)

  -- One round over an entry that lies whole in the buffer.
  round :
      (fuel : ℕ) (info : NanoPacket) (e : FrontierEntry) (s : Session cb) (tail : Bytes)
      → IsOpen e
      → bytes_of s ≡ encode_frontier_entry e ++ tail
      → frontier_loop k cb env (suc fuel) info s
        ≡ frontier_loop k cb env fuel info (accept_frontier k cb env e 64 s)
  unfolding frontier_loop
  round fuel info e (flow, db) tail he h =
      let l = length-encode e he.sizes in
      let enough : leb 64 (length (contents flow.accumulated_data)) ≡ true =
        let n : 64 ≤ length (contents flow.accumulated_data) =
          omega (arith, ap length h, length-append (encode_frontier_entry e) tail) in
        ground arith in
      let front : take 64 (contents flow.accumulated_data) ≡ encode_frontier_entry e =
        ap (take 64) h ∙ rw (← l) (take-append (encode_frontier_entry e) tail) in
      let (ks, parsed, _, moved) =
        (read_frontier_entry-Decodes k e he.sizes).decoded
          (k.open_stream (take 64 (contents flow.accumulated_data))) []
          (k.remaining-open_stream _ ∙ front ∙ sym (append-nil _)) in
      let at : k.pos ks ≡ 64 =
        omega (arith, k.pos-open_stream (take 64 (contents flow.accumulated_data))) in
      rw (enough, parsed, he.nonzero, at)

  -- The entries in the buffer are accepted in order, and a part of one stays for the next packet.
  loop-open :
      (es : List FrontierEntry) (fuel : ℕ) (info : NanoPacket) (s : Session cb) (rest : Bytes)
      → All IsOpen es
      → bytes_of s ≡ wire es ++ rest
      → length rest < 64
      → length es < fuel
      → (frontier_loop k cb env fuel info s ≡ (accept_all es s, none))
        × (bytes_of (accept_all es s) ≡ rest)
  unfolding frontier_loop
  loop-open es zero info s rest hs h few lt = absurd (omega arith)
  loop-open [] (suc fuel) info (flow, db) rest hs h few lt =
      let short : leb 64 (length (contents flow.accumulated_data)) ≡ false =
        let n : length (contents flow.accumulated_data) < 64 = omega (arith, ap length h) in
        ground arith in
      (rw short, h)
  loop-open (e ∷ es) (suc fuel) info s rest (he, hs) h few lt =
      let h' = h ∙ append_assoc (encode_frontier_entry e) (wire es) rest in
      let (run, left) =
        loop-open es fuel info (accept_frontier k cb env e 64 s) rest hs
          (contents-accept e s (wire es ++ rest) he.sizes h') few (omega arith) in
      (round fuel info e s (wire es ++ rest) he h' ∙ run, left)

  -- An entry whose account is zero ends the response, whatever follows it.
  loop-end :
      (es : List FrontierEntry) (z : FrontierEntry) (fuel : ℕ) (info : NanoPacket) (s : Session cb)
      (rest : Bytes)
      → All IsOpen es
      → IsFrontierEntry z
      → all_zero z.account ≡ true
      → bytes_of s ≡ wire es ++ (encode_frontier_entry z ++ rest)
      → length es < fuel
      → frontier_loop k cb env fuel info s ≡ (
        end_response cb env
            (codes "end of frontier_req, responses. valid: ")
            info
            (accept_all es s),
        none,
      )
  unfolding frontier_loop
  loop-end es z zero info s rest hs hz zeros h lt = absurd (omega arith)
  loop-end [] z (suc fuel) info (flow, db) rest hs hz zeros h lt =
      let l = length-encode z hz in
      let enough : leb 64 (length (contents flow.accumulated_data)) ≡ true =
        let n : 64 ≤ length (contents flow.accumulated_data) =
          omega (arith, ap length h, length-append (encode_frontier_entry z) rest) in
        ground arith in
      let front : take 64 (contents flow.accumulated_data) ≡ encode_frontier_entry z =
        ap (take 64) h ∙ rw (← l) (take-append (encode_frontier_entry z) rest) in
      let (ks, parsed, _, moved) =
        (read_frontier_entry-Decodes k z hz).decoded
          (k.open_stream (take 64 (contents flow.accumulated_data))) []
          (k.remaining-open_stream _ ∙ front ∙ sym (append-nil _)) in
      rw (enough, parsed, zeros)
  loop-end (e ∷ es) z (suc fuel) info s rest (he, hs) hz zeros h lt =
      let tail = wire es ++ (encode_frontier_entry z ++ rest) in
      let h' =
        h ∙ append_assoc (encode_frontier_entry e) (wire es) (encode_frontier_entry z ++ rest) in
      round fuel info e s tail he h'
      ∙ loop-end es z fuel info (accept_frontier k cb env e 64 s) rest hs hz zeros
          (contents-accept e s tail he.sizes h') (omega arith)

  length-wire : (es : List FrontierEntry) → All IsOpen es → length es ≤ length (wire es)
  length-wire [] hs = omega arith
  length-wire (e ∷ es) (he, hs) = omega (
    arith,
    length-wire es hs,
    length-append (encode_frontier_entry e) (wire es),
    length-encode e he.sizes,
  )

  -- The connection with the data of a packet in its buffer.
  abbrev pub with_payload : NanoPacket → Session cb → Session cb
  with_payload info (flow, db) =
      (record flow { accumulated_data = accumulate cb info.payload flow.accumulated_data }, db)

  abbrev fuel_for : NanoPacket → Session cb → ℕ
  fuel_for info (flow, db) =
      suc (length (contents (accumulate cb info.payload flow.accumulated_data)))

  -- If the buffer and a packet together hold at most 4096 bytes, which are open entries and less
  -- than one more, then exactly these entries are accepted, in order, and the rest stays in the
  -- buffer; no exception leaves the loop.
  pub handle_frontier-open :
      (info : NanoPacket) (s : Session cb) (es : List FrontierEntry) (rest : Bytes)
      → All IsOpen es
      → bytes_of s ++ info.payload ≡ wire es ++ rest
      → length rest < 64
      → length (bytes_of s) + length info.payload ≤ capacity
      → (handle_frontier k cb env info s ≡ (accept_all es (with_payload info s), none))
        × (bytes_of (accept_all es (with_payload info s)) ≡ rest)
  unfolding handle_frontier
  handle_frontier-open info (flow, db) es rest hs h few fits =
      let held = contents-accumulate cb info.payload flow.accumulated_data fits ∙ h in
      loop-open es (fuel_for info (flow, db)) info (with_payload info (flow, db)) rest hs held few
        (omega (arith, ap length held, length-append (wire es) rest, length-wire es hs))

  -- If the buffer and a packet together hold at most 4096 bytes, which are open entries, an entry
  -- whose account is zero, and anything behind it, then the open entries are accepted and the
  -- response ends: the connection waits for no response, its counts are zero and its buffer is
  -- empty, so that what follows in the packet is dropped. Beyond the accepted entries the database
  -- only gets the event with the counts of the response, where bootstrap details are configured.
  -- No exception leaves the loop.
  pub handle_frontier-end :
      (info : NanoPacket) (s : Session cb) (es : List FrontierEntry) (z : FrontierEntry)
      (rest : Bytes)
      → All IsOpen es
      → IsFrontierEntry z
      → all_zero z.account ≡ true
      → bytes_of s ++ info.payload ≡ wire es ++ (encode_frontier_entry z ++ rest)
      → length (bytes_of s) + length info.payload ≤ capacity
      → IsEnded cb env
          (codes "end of frontier_req, responses. valid: ")
          info
          (accept_all es (with_payload info s))
          (handle_frontier k cb env info s)
  unfolding handle_frontier
  handle_frontier-end info (flow, db) es z rest hs hz zeros h fits =
      let held = contents-accumulate cb info.payload flow.accumulated_data fits ∙ h in
      ended cb env (codes "end of frontier_req, responses. valid: ") info
        (accept_all es (with_payload info (flow, db))) _
        (loop-end es z (fuel_for info (flow, db)) info (with_payload info (flow, db)) rest hs hz
          zeros held
          (omega (
            arith,
            ap length held,
            length-append (wire es) (encode_frontier_entry z ++ rest),
            length-wire es hs,
          )))
