-- ===== src/Handler/Frontier.antt =====
-- The responses to a frontier request: entries of 64 bytes, up to one whose account is zero.
pub mod Split
pub mod Chunks
pub mod Ends
use nanocap.Prelude.{
  ℕ, zero, suc, ◌+◌, some, none, Outcome, ok, throw, runtime_error, other_error, out_of_fuel, leb,
  length, take, if◌then◌else◌,
}
use nanocap.Stream.{KStream}
use nanocap.Util.Text.{codes}
use nanocap.Flow.{CircularBuffer, NanoPacket, accumulate}
use nanocap.Protocol.Bootstrap.{FrontierEntry, read_frontier_entry}
use nanocap.Db.{Env}
use nanocap.Db.Bootstrap.{put_frontier_entry}
use nanocap.Handler.Session.{Session, Ended, all_zero, if_details, end_response}

module _ (k : KStream) (cb : CircularBuffer) (env : Env) where
  open k use {Stream, open_stream, pos}
  open cb use {Buffer, contents, erase_begin}

  -- An entry is stored and counted, and its bytes are erased.
  unfoldable pub accept_frontier : FrontierEntry → ℕ → Session cb → Session cb
  accept_frontier entry consumed (flow, db) = (
    record flow {
      response_count = flow.response_count + 1;
      accumulated_data = erase_begin consumed flow.accumulated_data;
    },
    if_details cb env (put_frontier_entry env entry flow) db,
  )

  unfoldable pub frontier_round :
      (Session cb → Ended cb)
      → NanoPacket
      → Session cb
      → Outcome (FrontierEntry × Stream)
      → Ended cb
  unfolding accept_frontier all_zero end_response
  frontier_round next info s (ok (entry, ks)) =
      if all_zero entry.account
      then (end_response cb env (codes "end of frontier_req, responses. valid: ") info s, none)
      else next (accept_frontier entry (pos ks) s)
  frontier_round next info (flow, db) (throw runtime_error) =
      ((record flow { invalid_response_count = flow.invalid_response_count + 1 }, db), none)
  frontier_round next info s (throw other_error) = (s, some other_error)
  frontier_round next info s (throw out_of_fuel) = (s, some out_of_fuel)

  unfoldable pub frontier_loop : ℕ → NanoPacket → Session cb → Ended cb
  unfolding frontier_round
  frontier_loop zero info s = (s, some out_of_fuel)
  frontier_loop (suc fuel) info (flow, db) =
      if leb 64 (length (contents flow.accumulated_data))
      then frontier_round (frontier_loop fuel info) info (flow, db)
          (read_frontier_entry k (open_stream (take 64 (contents flow.accumulated_data))))
      else ((flow, db), none)

  -- Each round takes 64 bytes, so that the size of the buffer bounds the rounds.
  unfoldable pub handle_frontier : NanoPacket → Session cb → Ended cb
  unfolding frontier_loop accumulate
  handle_frontier info (flow, db) =
      let data' = accumulate cb info.payload flow.accumulated_data in
      frontier_loop (suc (length (contents data'))) info
        (record flow { accumulated_data = data' }, db)
