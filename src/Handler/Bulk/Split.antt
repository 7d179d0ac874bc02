-- ===== src/Handler/Bulk/Split.antt =====
-- The responses to a bulk pull and the entries of a bulk push, against the blocks that the bytes
-- stand for.
use nanocap.Prelude.{
  ℕ, zero, suc, ◌+◌, ◌≤◌, ◌<◌, ◌≡◌, inl, inr, refl, ◌∙◌, ap, arith, false, none, List, [], ◌∷◌,
  ◌++◌, length, drop, drop-append, length-append, append_assoc, All, throw, runtime_error, Parser,
  Bool-cases, ◌==◌,
}
use nanocap.Stream.{KStream, Bytes}
use nanocap.Stream.Decodes.{Decodes}
use nanocap.Flow.{CircularBuffer, NanoPacket, capacity, accumulate}
use nanocap.Flow.Buffer.{contents-accumulate}
use nanocap.Protocol.Block.{
  Block, block_state, block_send, block_receive, block_open, block_change, block_ignored,
}
use nanocap.Protocol.Bootstrap.{BulkEntry}
use nanocap.Protocol.RoundTrip.Entry.{
  IsBlock, encode_entry, entry_of_block, type_number, block_size,
}
use nanocap.Db.{Env}
use nanocap.Handler.Session.{Session, end_response}
use nanocap.Handler.Bulk.{bulk_loop, bulk_body, bulk_round, accept_bulk, handle_bulk}
use nanocap.Handler.Bulk.Ends.{KeepsBuffer}

-- The bytes of entries, and what may follow them: nothing, or the type of a block and less than the
-- block.
abbrev pub entries_wire : List Block → Bytes
entries_wire [] = []
entries_wire (b ∷ bs) = encode_entry b ++ entries_wire bs

pub data IsPart : Bytes → Type 0 where
  nothing : IsPart []
  part :
      (b : Block) (xs : Bytes) → IsBlock b → length xs < block_size b → IsPart (type_number b ∷ xs)

not_sentinel : (b : Block) → IsBlock b → (type_number b == 1) ≡ false
not_sentinel (block_send b) h = refl
not_sentinel (block_receive b) h = refl
not_sentinel (block_open b) h = refl
not_sentinel (block_change b) h = refl
not_sentinel (block_state b) h = refl
not_sentinel (block_ignored b) h = refl

module _ (k : KStream) (cb : CircularBuffer) (env : Env) where
  open cb use {Buffer, contents, erase_begin}

  abbrev pub held : Session cb → Bytes
  held s = contents (s.0).accumulated_data

  abbrev pub received : NanoPacket → Session cb → Session cb
  received info (flow, db) =
      (record flow { accumulated_data = accumulate cb info.payload flow.accumulated_data }, db)

  -- Blocks are accepted in turn.
  abbrev pub accept_blocks :
      (BulkEntry → NanoPacket → Session cb → Session cb)
      → List Block
      → NanoPacket
      → Session cb
      → Session cb
  accept_blocks put [] info s = s
  accept_blocks put (b ∷ bs) info s =
      accept_blocks put bs info
        (accept_bulk k cb env put (entry_of_block b) (length (encode_entry b)) info s)

  module _ (read : Parser k.Stream BulkEntry)
      (put : BulkEntry → NanoPacket → Session cb → Session cb) (what : Bytes)
      (keeps : KeepsBuffer k cb env put)
      (reads : (b : Block) → IsBlock b → Decodes k read (entry_of_block b) (encode_entry b))
      (short : (b : Block) (xs : Bytes)
        → IsBlock b
        → length xs < block_size b
        → read (k.open_stream (type_number b ∷ xs)) ≡ throw runtime_error) where
    held-accept :
        (b : Block) (info : NanoPacket) (s : Session cb) (tail : Bytes)
        → held s ≡ encode_entry b ++ tail
        → held (accept_bulk k cb env put (entry_of_block b) (length (encode_entry b)) info s) ≡ tail
    unfolding accept_bulk KeepsBuffer
    held-accept b info s tail h =
        let erased : contents (erase_begin (length (encode_entry b)) s.0.accumulated_data) ≡ tail =
          cb.contents-erase_begin (length (encode_entry b)) s.0.accumulated_data
            (omega (arith, ap length h, length-append (encode_entry b) tail))
          ∙ ap (drop (length (encode_entry b))) h
          ∙ drop-append (encode_entry b) tail in
        elim (Bool-cases env.config.bootstrap_details) [
          | inl d ↦ rw (d, keeps (entry_of_block b) info s) erased
          | inr d ↦ rw d erased
        ]

    round :
        (fuel : ℕ) (info : NanoPacket) (b : Block) (s : Session cb) (tail : Bytes)
        → IsBlock b
        → held s ≡ encode_entry b ++ tail
        → bulk_loop k cb env read put what (suc fuel) info s
          ≡ bulk_loop k cb env read put what fuel info
              (accept_bulk k cb env put (entry_of_block b) (length (encode_entry b)) info s)
    unfolding bulk_loop bulk_body bulk_round
    round fuel info b (flow, db) tail hb h =
        let (ks, parsed, _, moved) =
          (reads b hb).decoded (k.open_stream (encode_entry b ++ tail)) tail
            (k.remaining-open_stream _) in
        let at : k.pos ks ≡ length (encode_entry b) =
          omega (arith, k.pos-open_stream (encode_entry b ++ tail)) in
        rw (h, not_sentinel b hb, parsed, at) refl

    loop-open :
        (bs : List Block) (fuel : ℕ) (info : NanoPacket) (s : Session cb) (rest : Bytes)
        → All IsBlock bs
        → IsPart rest
        → held s ≡ entries_wire bs ++ rest
        → length bs < fuel
        → (bulk_loop k cb env read put what fuel info s ≡ (accept_blocks put bs info s, none))
          × (held (accept_blocks put bs info s) ≡ rest)
    unfolding bulk_loop bulk_body bulk_round
    loop-open bs zero info s rest hs hr h lt = absurd (omega arith)
    loop-open [] (suc fuel) info (flow, db) _ hs nothing h lt = (rw h refl, h)
    loop-open [] (suc fuel) info (flow, db) _ hs (part b xs hb few) h lt =
        (rw (h, not_sentinel b hb, short b xs hb few) refl, h)
    loop-open (b ∷ bs) (suc fuel) info s rest (hb, hs) hr h lt =
        let h' = h ∙ append_assoc (encode_entry b) (entries_wire bs) rest in
        let s' = accept_bulk k cb env put (entry_of_block b) (length (encode_entry b)) info s in
        let (run, left) =
          loop-open bs fuel info s' rest hs hr (held-accept b info s (entries_wire bs ++ rest) h')
            (omega arith) in
        (round fuel info b s (entries_wire bs ++ rest) hb h' ∙ run, left)

    loop-end :
        (bs : List Block) (fuel : ℕ) (info : NanoPacket) (s : Session cb) (rest : Bytes)
        → All IsBlock bs
        → held s ≡ entries_wire bs ++ (1 ∷ rest)
        → length bs < fuel
        → bulk_loop k cb env read put what fuel info s
          ≡ (end_response cb env what info (accept_blocks put bs info s), none)
    unfolding bulk_loop bulk_body bulk_round
    loop-end bs zero info s rest hs h lt = absurd (omega arith)
    loop-end [] (suc fuel) info (flow, db) rest hs h lt = rw h refl
    loop-end (b ∷ bs) (suc fuel) info s rest (hb, hs) h lt =
        let h' = h ∙ append_assoc (encode_entry b) (entries_wire bs) (1 ∷ rest) in
        let s' = accept_bulk k cb env put (entry_of_block b) (length (encode_entry b)) info s in
        round fuel info b s (entries_wire bs ++ (1 ∷ rest)) hb h'
        ∙ loop-end bs fuel info s' rest hs (held-accept b info s (entries_wire bs ++ (1 ∷ rest)) h')
            (omega arith)

    length-entries : (bs : List Block) → length bs ≤ length (entries_wire bs)
    length-entries [] = omega arith
    length-entries (b ∷ bs) =
        omega (arith, length-entries bs, length-append (encode_entry b) (entries_wire bs))

    pub handle_bulk-open :
        (info : NanoPacket) (s : Session cb) (bs : List Block) (rest : Bytes)
        → All IsBlock bs
        → IsPart rest
        → held s ++ info.payload ≡ entries_wire bs ++ rest
        → length (held s) + length info.payload ≤ capacity
        → (handle_bulk k cb env read put what info s
            ≡ (accept_blocks put bs info (received info s), none))
          × (held (accept_blocks put bs info (received info s)) ≡ rest)
    unfolding handle_bulk
    handle_bulk-open info (flow, db) bs rest hs hr h fits =
        let all = contents-accumulate cb info.payload flow.accumulated_data fits ∙ h in
        loop-open bs (suc (length (contents (accumulate cb info.payload flow.accumulated_data))))
          info (received info (flow, db)) rest hs hr all
          (omega (arith, ap length all, length-append (entries_wire bs) rest, length-entries bs))

    pub handle_bulk-end :
        (info : NanoPacket) (s : Session cb) (bs : List Block) (rest : Bytes)
        → All IsBlock bs
        → held s ++ info.payload ≡ entries_wire bs ++ (1 ∷ rest)
        → length (held s) + length info.payload ≤ capacity
        → handle_bulk k cb env read put what info s
          ≡ (end_response cb env what info (accept_blocks put bs info (received info s)), none)
    unfolding handle_bulk
    handle_bulk-end info (flow, db) bs rest hs h fits =
        let all = contents-accumulate cb info.payload flow.accumulated_data fits ∙ h in
        loop-end bs (suc (length (contents (accumulate cb info.payload flow.accumulated_data))))
          info (received info (flow, db)) rest hs all
          (omega
            (arith, ap length all, length-append (entries_wire bs) (1 ∷ rest), length-entries bs))
