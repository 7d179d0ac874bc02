-- ===== src/Handler/Tcp/Writes/Account.antt =====
-- What the responses to a bulk pull of an account write to the database.
use nanocap.Prelude.{if_both, ℕ, zero, suc, Outcome, ok, throw, [], ◌∷◌, drop, ◌==◌, ◌||◌}
use nanocap.Stream.{KStream, Bytes}
use nanocap.Util.Text.{codes}
use nanocap.Flow.{CircularBuffer, NanoPacket, accumulate}
use nanocap.Protocol.Bootstrap.{
  FrontierBalanceEntry, BulkPullAccountEntry, read_bulk_pull_account_entry,
}
use nanocap.Db.{Env}
use nanocap.Handler.Session.{Session, Ended, all_zero}
use nanocap.Handler.Account.{
  accept_balance, accept_account, account_entry, account_frontier, account_body, account_loop,
  handle_account,
}
use nanocap.Handler.Tcp.Writes.{
  Growth, Ends, ends, after, Goes, if_details-Writes, end_response-Writes, caught-Ends,
}

module _ (k : KStream) (cb : CircularBuffer) (env : Env) (w : Growth env) where
  account_entry-Ends :
      (next : Session cb → Ended cb) (info : NanoPacket) (s : Session cb)
      (r : Outcome (BulkPullAccountEntry × k.Stream))
      → Goes k cb env w next
      → Ends k cb env w s (account_entry k cb env next info s r)
  unfolding account_entry accept_account
  account_entry-Ends next info (flow, db) (ok (e, ks)) h =
      if_both (Ends k cb env w (flow, db)) (all_zero e.source || all_zero e.hash)
        (after k cb env w _
          (end_response-Writes k cb env w (codes "end of bulk_pull_account. valid entries: ") info
            (flow, db))
          (h _))
        (after k cb env w (accept_account k cb env e (flow, db))
          (if_details-Writes k cb env w db _ (w.put_bulk_pull_account_entry_ok e flow db)) (h _))
  account_entry-Ends next info s (throw e) h = caught-Ends k cb env w e s

  account_frontier-Ends :
      (next : Session cb → Ended cb) (info : NanoPacket) (s : Session cb)
      (r : Outcome (FrontierBalanceEntry × k.Stream))
      → Goes k cb env w next
      → Ends k cb env w s (account_frontier k cb env next info s r)
  unfolding account_frontier accept_balance
  account_frontier-Ends next info (flow, db) (ok (e, ks)) h =
      after k cb env w (accept_balance k cb env e (k.pos ks) (flow, db))
        (if_details-Writes k cb env w db _ (w.put_frontier_balance_entry_ok e flow db))
        (account_entry-Ends next info (accept_balance k cb env e (k.pos ks) (flow, db))
          (read_bulk_pull_account_entry k flow.request_flags (
            k.open_stream (drop (k.pos ks) (cb.view_after_erase (k.pos ks) flow.accumulated_data))))
          h)
  account_frontier-Ends next info s (throw e) h = caught-Ends k cb env w e s

  account_body-Ends :
      (next : Session cb → Ended cb) (info : NanoPacket) (s : Session cb) (bs : Bytes)
      → Goes k cb env w next
      → Ends k cb env w s (account_body k cb env next info s bs)
  unfolding account_body
  account_body-Ends next info s [] h = ends k cb env w (w.same s.1)
  account_body-Ends next info (flow, db) (b ∷ bs) h =
      if_both (Ends k cb env w (flow, db)) (flow.step == 0)
        (account_frontier-Ends next info (flow, db) _ h)
        (if_both (Ends k cb env w (flow, db)) (flow.step == 1)
          (account_entry-Ends next info (flow, db)
            (read_bulk_pull_account_entry k flow.request_flags (k.open_stream (b ∷ bs))) h)
          (h (flow, db)))

  account_loop-Ends :
      (fuel : ℕ) (info : NanoPacket) → Goes k cb env w (account_loop k cb env fuel info)
  unfolding account_loop
  account_loop-Ends zero info s = ends k cb env w (w.same s.1)
  account_loop-Ends (suc fuel) info (flow, db) =
      account_body-Ends _ info (flow, db) (cb.contents flow.accumulated_data)
        (account_loop-Ends fuel info)

  pub handle_account-Writes :
      (fuel : ℕ) (info : NanoPacket) (s : Session cb)
      → w.Writes s.1 (handle_account k cb env fuel info s).0.1
  unfolding handle_account
  handle_account-Writes fuel info (flow, db) =
      let r =
        account_loop-Ends fuel info (
          record flow { accumulated_data = accumulate cb info.payload flow.accumulated_data },
          db,
        ) in
      r.grows
