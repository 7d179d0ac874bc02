-- ===== src/Handler/Bulk.antt =====
-- The responses to a bulk pull, and the entries of a bulk push: blocks up to a sentinel byte. The
-- two loops differ in the class of the entry, the table and the text of the event.
pub mod Ends
pub mod Split
pub mod Accepts
use nanocap.Prelude.{
  ℕ, zero, suc, ◌+◌, some, none, Outcome, ok, throw, out_of_fuel, [], ◌∷◌, length, ◌==◌,
  if◌then◌else◌, Parser,
}
use nanocap.Stream.{KStream, Bytes}
use nanocap.Util.Text.{codes}
use nanocap.Flow.{CircularBuffer, NanoPacket, accumulate}
use nanocap.Protocol.Bootstrap.{BulkEntry, read_bulk_pull_entry, read_bulk_push_entry}
use nanocap.Db.{Env}
use nanocap.Db.Bootstrap.{put_bulk_pull_entry, put_bulk_push_entry}
use nanocap.Handler.Session.{Session, Ended, caught, end_response}

module _ (k : KStream) (cb : CircularBuffer) (env : Env) where
  open k use {Stream, open_stream, pos}
  open cb use {Buffer, contents, erase_begin}

  -- `put` may count the entry as invalid; it counts as a response all the same.
  unfoldable pub accept_bulk :
      (BulkEntry → NanoPacket → Session cb → Session cb)
      → BulkEntry
      → ℕ
      → NanoPacket
      → Session cb
      → Session cb
  accept_bulk put entry consumed info s =
      let (flow, db) = if env.bootstrap_details then put entry info s else s in
      (
        record flow {
          response_count = flow.response_count + 1;
          accumulated_data = erase_begin consumed flow.accumulated_data;
        },
        db,
      )

  module _ (read : Parser Stream BulkEntry) (put : BulkEntry → NanoPacket → Session cb → Session cb)
      (what : Bytes) where
    unfoldable pub bulk_round :
        (Session cb → Ended cb) → NanoPacket → Session cb → Outcome (BulkEntry × Stream) → Ended cb
    unfolding accept_bulk
    bulk_round next info s (ok (entry, ks)) = next (accept_bulk put entry (pos ks) info s)
    bulk_round next info s (throw e) = caught cb e s

    -- A round, by the bytes in the buffer.
    unfoldable pub bulk_body : (Session cb → Ended cb) → NanoPacket → Session cb → Bytes → Ended cb
    unfolding bulk_round end_response
    bulk_body next info s [] = (s, none)
    bulk_body next info s (b ∷ bs) =
        if b == 1
        then (end_response cb env what info s, none)
        else bulk_round next info s (read (open_stream (b ∷ bs)))

    unfoldable pub bulk_loop : ℕ → NanoPacket → Session cb → Ended cb
    unfolding bulk_body
    bulk_loop zero info s = (s, some out_of_fuel)
    bulk_loop (suc fuel) info (flow, db) =
        bulk_body (bulk_loop fuel info) info (flow, db) (contents flow.accumulated_data)

    -- Each round takes a byte at least.
    unfoldable pub handle_bulk : NanoPacket → Session cb → Ended cb
    unfolding bulk_loop accumulate
    handle_bulk info (flow, db) =
        let data' = accumulate cb info.payload flow.accumulated_data in
        bulk_loop (suc (length (contents data'))) info
          (record flow { accumulated_data = data' }, db)

  unfoldable pub handle_bulk_pull : NanoPacket → Session cb → Ended cb
  unfolding handle_bulk
  handle_bulk_pull =
      handle_bulk (read_bulk_pull_entry k) (put_bulk_pull_entry env)
        (codes "end of bulk_pull. valid entries: ")

  unfoldable pub handle_bulk_push : NanoPacket → Session cb → Ended cb
  unfolding handle_bulk
  handle_bulk_push =
      handle_bulk (read_bulk_push_entry k) (put_bulk_push_entry env)
        (codes "end of bulk_push. valid entries: ")
