-- ===== src/Handler/Bulk/Ends.antt =====
-- The loops over the blocks of bulk pull responses and bulk pushes end.
use nanocap.Prelude.{
  ℕ, zero, suc, ◌+◌, ◌≤◌, ◌<◌, ◌≡◌, refl, sym, ◌∙◌, ap, arith, none, [], ◌∷◌, length, length-drop,
  ◌==◌, Bool-cases, inl, inr, ◌⊎◌, Parser,
}
use nanocap.Stream.{KStream, Bytes}
use nanocap.Stream.Reads.{Reads, Outcome-cases}
use nanocap.Stream.Quiet.{Quiet, Quiet-runtime}
use nanocap.Util.Text.{codes}
use nanocap.Flow.{CircularBuffer, NanoPacket, accumulate}
use nanocap.Protocol.Bootstrap.{BulkEntry}
use nanocap.Protocol.Reads.{read_bulk_pull_entry-Reads, read_bulk_push_entry-Reads}
use nanocap.Protocol.Quiet.{read_bulk_pull_entry-Quiet, read_bulk_push_entry-Quiet}
use nanocap.Db.{Env, Db}
use nanocap.Db.Bootstrap.{put_bulk_pull_entry, put_bulk_push_entry, note_invalid, link_block}
use nanocap.Handler.Session.{Session}
use nanocap.Handler.Bulk.{
  bulk_loop, bulk_body, accept_bulk, handle_bulk, handle_bulk_pull, handle_bulk_push,
}

bytes-cases : (xs : Bytes) → (xs ≡ []) ⊎ ((b : ℕ) × (bs : Bytes) × (xs ≡ b ∷ bs))
bytes-cases [] = inl refl
bytes-cases (b ∷ bs) = inr (b, bs, refl)

module _ (k : KStream) (cb : CircularBuffer) (env : Env) where
  open cb use {Buffer, contents, erase_begin}

  -- What stores an entry leaves the buffer as it is.
  unfoldable pub KeepsBuffer : (BulkEntry → NanoPacket → Session cb → Session cb) → Type 0
  KeepsBuffer put =
      (e : BulkEntry) (info : NanoPacket) (s : Session cb)
      → (put e info s).0.accumulated_data ≡ s.0.accumulated_data

  link-KeepsBuffer :
      (table : Bytes) (row : Db → Db) (event : Bytes) (info : NanoPacket) (s : Session cb)
      → (link_block env table row event info s).0.accumulated_data ≡ s.0.accumulated_data
  unfolding note_invalid
  link-KeepsBuffer [] row event info s = refl
  link-KeepsBuffer (c ∷ cs) row event info s = refl

  pub pull-KeepsBuffer : KeepsBuffer (put_bulk_pull_entry env)
  unfolding put_bulk_pull_entry KeepsBuffer
  pull-KeepsBuffer e info s = link-KeepsBuffer _ _ _ info _

  pub push-KeepsBuffer : KeepsBuffer (put_bulk_push_entry env)
  unfolding put_bulk_push_entry KeepsBuffer
  push-KeepsBuffer e info s = link-KeepsBuffer _ _ _ info _

  module _ (read : Parser k.Stream BulkEntry)
      (put : BulkEntry → NanoPacket → Session cb → Session cb) (what : Bytes)
      (reads : Reads k read 1) (quiet : Quiet k read) (keeps : KeepsBuffer put) where
    pub length-accept :
        (e : BulkEntry) (n : ℕ) (info : NanoPacket) (s : Session cb)
        → n ≤ length (contents s.0.accumulated_data)
        → length (contents (accept_bulk k cb env put e n info s).0.accumulated_data) + n
          ≡ length (contents s.0.accumulated_data)
    unfolding accept_bulk KeepsBuffer
    length-accept e n info s le = elim (Bool-cases env.config.bootstrap_details) [
      | inl d ↦
          rw (d, keeps e info s)
            (omega (
              arith,
              ap length (cb.contents-erase_begin n s.0.accumulated_data le),
              length-drop n (contents s.0.accumulated_data),
            ))
      | inr d ↦ rw d (
          omega (
            arith,
            ap length (cb.contents-erase_begin n s.0.accumulated_data le),
            length-drop n (contents s.0.accumulated_data),
          ))
    ]

    bulk_loop-ends :
        (fuel : ℕ) (info : NanoPacket) (s : Session cb)
        → length (contents s.0.accumulated_data) < fuel
        → (bulk_loop k cb env read put what fuel info s).1 ≡ none
    unfolding bulk_loop bulk_body
    bulk_loop-ends zero info s lt = absurd (omega arith)
    bulk_loop-ends (suc fuel) info (flow, db) lt =
        elim (bytes-cases (contents flow.accumulated_data)) [
          | inl e ↦ rw e refl
          | inr (b, bs, e) ↦ rw e (elim (Bool-cases (b == 1)) [
            | inl one ↦ rw one refl
            | inr other ↦ rw other (elim (Outcome-cases (read (k.open_stream (b ∷ bs)))) [
              | inr (x, t) ↦ rw (t, Quiet-runtime k _ x quiet (reads _) t) refl
              | inl ((entry, ks), t) ↦
                  let (m, le, after) = (reads (k.open_stream (b ∷ bs))).moves ks entry t in
                  let at : k.pos ks ≡ m = omega (arith, after.moved, k.pos-open_stream (b ∷ bs)) in
                  let held : length (k.remaining (k.open_stream (b ∷ bs)))
                      ≡ length (contents flow.accumulated_data) =
                    ap length (k.remaining-open_stream (b ∷ bs) ∙ sym e) in
                  rw t (
                    bulk_loop-ends fuel info
                      (accept_bulk k cb env put entry (k.pos ks) info (flow, db))
                      (omega (
                        arith,
                        length-accept entry (k.pos ks) info (flow, db) (omega (arith, after.fits)),
                      )))
            ])
          ])
        ]

    handle_bulk-ends :
        (info : NanoPacket) (s : Session cb) → (handle_bulk k cb env read put what info s).1 ≡ none
    unfolding handle_bulk
    handle_bulk-ends info (flow, db) =
        let data' = accumulate cb info.payload flow.accumulated_data in
        bulk_loop-ends (suc (length (contents data'))) info
          (record flow { accumulated_data = data' }, db) (omega arith)

  -- Whatever bytes arrive, in whatever state, the loop over the responses to a bulk pull ends by
  -- its test, a sentinel or a caught `runtime_error`, and no exception leaves the loop.
  pub handle_bulk_pull-ends :
      (info : NanoPacket) (s : Session cb) → (handle_bulk_pull k cb env info s).1 ≡ none
  unfolding handle_bulk_pull
  handle_bulk_pull-ends info s =
      handle_bulk-ends _ _ (codes "end of bulk_pull. valid entries: ")
        (read_bulk_pull_entry-Reads k) (read_bulk_pull_entry-Quiet k) pull-KeepsBuffer info s

  -- Whatever bytes arrive, in whatever state, the loop over the entries of a bulk push ends by
  -- its test, a sentinel or a caught `runtime_error`, and no exception leaves the loop.
  pub handle_bulk_push-ends :
      (info : NanoPacket) (s : Session cb) → (handle_bulk_push k cb env info s).1 ≡ none
  unfolding handle_bulk_push
  handle_bulk_push-ends info s =
      handle_bulk-ends _ _ (codes "end of bulk_push. valid entries: ")
        (read_bulk_push_entry-Reads k) (read_bulk_push_entry-Quiet k) push-KeepsBuffer info s
