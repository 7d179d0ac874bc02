-- ===== src/Handler/Account.antt =====
-- The responses to a bulk pull of an account: a frontier with a balance, then entries whose fields
-- depend on the flags of the request.
pub mod Rounds
pub mod First
use nanocap.Prelude.{
  ℕ, zero, suc, ◌+◌, ◌||◌, some, none, Outcome, ok, throw, out_of_fuel, [], ◌∷◌, drop, ◌==◌,
  if◌then◌else◌,
}
use nanocap.Stream.{KStream, Bytes}
use nanocap.Util.Text.{codes}
use nanocap.Flow.{CircularBuffer, NanoPacket, accumulate}
use nanocap.Protocol.Bootstrap.{
  FrontierBalanceEntry, BulkPullAccountEntry, read_frontier_balance_entry,
  read_bulk_pull_account_entry,
}
use nanocap.Db.{Env}
use nanocap.Db.Bootstrap.{put_frontier_balance_entry, put_bulk_pull_account_entry}
use nanocap.Handler.Session.{Session, Ended, all_zero, caught, if_details, end_response}

module _ (k : KStream) (cb : CircularBuffer) (env : Env) where
  open k use {Stream, open_stream, pos}
  open cb use {Buffer, contents, erase_begin, view_after_erase}

  -- The frontier is stored, its bytes are erased, and the entries are next.
  unfoldable pub accept_balance : FrontierBalanceEntry → ℕ → Session cb → Session cb
  accept_balance entry consumed (flow, db) = (
    record flow {
      step = flow.step + 1;
      accumulated_data = erase_begin consumed flow.accumulated_data;
    },
    if_details cb env (put_frontier_balance_entry env entry flow) db,
  )

  -- An entry is stored and counted. Its bytes stay in the buffer.
  unfoldable pub accept_account : BulkPullAccountEntry → Session cb → Session cb
  accept_account entry (flow, db) = (
    record flow { response_count = flow.response_count + 1 },
    if_details cb env (put_bulk_pull_account_entry env entry flow) db,
  )

  -- The last entry resets the connection, and the loop goes on with its test.
  unfoldable pub account_entry :
      (Session cb → Ended cb)
      → NanoPacket
      → Session cb
      → Outcome (BulkPullAccountEntry × Stream)
      → Ended cb
  unfolding accept_account all_zero end_response
  account_entry next info s (ok (entry, ks)) =
      if all_zero entry.source || all_zero entry.hash
      then next (end_response cb env (codes "end of bulk_pull_account. valid entries: ") info s)
      else next (accept_account entry s)
  account_entry next info s (throw e) = caught cb e s

  -- The stream goes on behind the frontier, in memory from which the frontier was erased.
  unfoldable pub account_frontier :
      (Session cb → Ended cb)
      → NanoPacket
      → Session cb
      → Outcome (FrontierBalanceEntry × Stream)
      → Ended cb
  unfolding accept_balance account_entry
  account_frontier next info (flow, db) (ok (entry, ks)) =
      let view = drop (pos ks) (view_after_erase (pos ks) flow.accumulated_data) in
      account_entry next info (accept_balance entry (pos ks) (flow, db))
        (read_bulk_pull_account_entry k flow.request_flags (open_stream view))
  account_frontier next info s (throw e) = caught cb e s

  unfoldable pub account_body : (Session cb → Ended cb) → NanoPacket → Session cb → Bytes → Ended cb
  unfolding account_frontier account_entry
  account_body next info s [] = (s, none)
  account_body next info (flow, db) (b ∷ bs) =
      if flow.step == 0
      then account_frontier next info (flow, db)
          (read_frontier_balance_entry k (open_stream (b ∷ bs)))
      else if flow.step == 1
      then account_entry next info (flow, db)
          (read_bulk_pull_account_entry k flow.request_flags (open_stream (b ∷ bs)))
      else next (flow, db)

  -- No number of rounds is enough for every buffer: the fuel is an argument.
  unfoldable pub account_loop : ℕ → NanoPacket → Session cb → Ended cb
  unfolding account_body
  account_loop zero info s = (s, some out_of_fuel)
  account_loop (suc fuel) info (flow, db) =
      account_body (account_loop fuel info) info (flow, db) (contents flow.accumulated_data)

  unfoldable pub handle_account : ℕ → NanoPacket → Session cb → Ended cb
  unfolding account_loop accumulate
  handle_account fuel info (flow, db) =
      account_loop fuel info
        (record flow { accumulated_data = accumulate cb info.payload flow.accumulated_data }, db)
