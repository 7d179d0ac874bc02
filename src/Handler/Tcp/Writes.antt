-- ===== src/Handler/Tcp/Writes.antt =====
-- What the loops over responses write to the database: any relation of databases that the puts of
-- their entries respect.
pub mod Account
use nanocap.Prelude.{
  if_both, ℕ, zero, suc, ◌≡◌, Bool, Parser, Option, Exception, none, some, Outcome, ok, throw,
  runtime_error, other_error, out_of_fuel, List, [], ◌∷◌, length, leb, take, drop, ◌==◌, ◌||◌,
  if◌then◌else◌,
}
use nanocap.Stream.{KStream, Bytes}
use nanocap.Util.Text.{codes}
use nanocap.Flow.{CircularBuffer, NanoPacket, TcpFlowData, accumulate}
use nanocap.Protocol.Bootstrap.{
  FrontierEntry, FrontierBalanceEntry, BulkEntry, BulkPullAccountEntry, read_frontier_entry,
  read_bulk_pull_entry, read_bulk_push_entry, read_frontier_balance_entry,
  read_bulk_pull_account_entry,
}
use nanocap.Db.{Env, Db, put_connection}
use nanocap.Db.Bootstrap.{
  put_frontier_entry, put_frontier_balance_entry, put_bulk_pull_entry, put_bulk_push_entry,
  put_bulk_pull_account_entry,
}
use nanocap.Handler.Session.{Session, Ended, all_zero, caught, end_event, end_response}
use nanocap.Handler.Frontier.{accept_frontier, frontier_round, frontier_loop, handle_frontier}
use nanocap.Handler.Bulk.{
  accept_bulk, bulk_round, bulk_body, bulk_loop, handle_bulk, handle_bulk_pull, handle_bulk_push,
}
use nanocap.Handler.Account.{
  accept_balance, accept_account, account_entry, account_frontier, account_body, account_loop,
  handle_account,
}

-- A relation of a database and a later one that holds of the event and of every put of a loop.
pub record Growth (env : Env) : Type 1 where
  pub Writes : Db → Db → Type 0
  pub same : (db : Db) → Writes db db
  pub trans : {a b c : Db} → Writes a b → Writes b c → Writes a c
  pub put_connection_ok :
      (info : NanoPacket) (event : Bytes) (db : Db) → Writes db (put_connection info event db)
  pub put_frontier_entry_ok :
      {B : Type 0} (e : FrontierEntry) (flow : TcpFlowData B) (db : Db)
      → Writes db (put_frontier_entry env e flow db)
  pub put_frontier_balance_entry_ok :
      {B : Type 0} (e : FrontierBalanceEntry) (flow : TcpFlowData B) (db : Db)
      → Writes db (put_frontier_balance_entry env e flow db)
  pub put_bulk_pull_entry_ok :
      {B : Type 0} (e : BulkEntry) (info : NanoPacket) (flow : TcpFlowData B) (db : Db)
      → Writes db (put_bulk_pull_entry env e info (flow, db)).1
  pub put_bulk_push_entry_ok :
      {B : Type 0} (e : BulkEntry) (info : NanoPacket) (flow : TcpFlowData B) (db : Db)
      → Writes db (put_bulk_push_entry env e info (flow, db)).1
  pub put_bulk_pull_account_entry_ok :
      {B : Type 0} (e : BulkPullAccountEntry) (flow : TcpFlowData B) (db : Db)
      → Writes db (put_bulk_pull_account_entry env e flow db)

module _ (k : KStream) (cb : CircularBuffer) (env : Env) (w : Growth env) where
  -- What ends, ends with a database that grew.
  pub record Ends (s : Session cb) (r : Ended cb) : Type 0 where
    pub grows : w.Writes s.1 r.0.1

  pub ends : {s : Session cb} {r : Ended cb} → w.Writes s.1 r.0.1 → Ends s r
  ends h = record { grows = h }

  pub after :
      {s : Session cb} (s' : Session cb) {r : Ended cb} → w.Writes s.1 s'.1 → Ends s' r → Ends s r
  after s' h e = record { grows = w.trans h e.grows }

  -- A continuation that only grows the database.
  abbrev pub Goes : (Session cb → Ended cb) → Type 0
  Goes next = (s : Session cb) → Ends s (next s)

  pub if_details-Writes :
      (db db' : Db) → w.Writes db db' → w.Writes db (if env.bootstrap_details then db' else db)
  if_details-Writes db db' h =
      if_both (λ (d : Db). w.Writes db d) env.bootstrap_details h (w.same db)

  pub end_response-Writes :
      (what : Bytes) (info : NanoPacket) (s : Session cb)
      → w.Writes s.1 (end_response cb env what info s).1
  unfolding end_response
  end_response-Writes what info (flow, db) = if_details-Writes db _ (
      w.put_connection_ok info
        (end_event cb env what flow.response_count flow.invalid_response_count) db)

  accept_frontier-Writes :
      (e : FrontierEntry) (n : ℕ) (s : Session cb) → w.Writes s.1 (accept_frontier k cb env e n s).1
  unfolding accept_frontier
  accept_frontier-Writes e n (flow, db) = if_details-Writes db _ (w.put_frontier_entry_ok e flow db)

  frontier_round-Ends :
      (next : Session cb → Ended cb) (info : NanoPacket) (s : Session cb)
      (r : Outcome (FrontierEntry × k.Stream))
      → Goes next
      → Ends s (frontier_round k cb env next info s r)
  unfolding frontier_round
  frontier_round-Ends next info s (ok (e, ks)) h =
      if_both (Ends s) (all_zero e.account)
        (ends (end_response-Writes (codes "end of frontier_req, responses. valid: ") info s))
        (after _ (accept_frontier-Writes e (k.pos ks) s) (h _))
  frontier_round-Ends next info (flow, db) (throw runtime_error) h = ends (w.same db)
  frontier_round-Ends next info s (throw other_error) h = ends (w.same s.1)
  frontier_round-Ends next info s (throw out_of_fuel) h = ends (w.same s.1)

  frontier_loop-Ends : (fuel : ℕ) (info : NanoPacket) → Goes (frontier_loop k cb env fuel info)
  unfolding frontier_loop
  frontier_loop-Ends zero info s = ends (w.same s.1)
  frontier_loop-Ends (suc fuel) info (flow, db) =
      if_both (Ends (flow, db)) (leb 64 (length (cb.contents flow.accumulated_data)))
        (frontier_round-Ends _ info (flow, db)
          (read_frontier_entry k (k.open_stream (take 64 (cb.contents flow.accumulated_data))))
          (frontier_loop-Ends fuel info))
        (ends {r = ((flow, db), none)} (w.same db))

  pub handle_frontier-Writes :
      (info : NanoPacket) (s : Session cb) → w.Writes s.1 (handle_frontier k cb env info s).0.1
  unfolding handle_frontier
  handle_frontier-Writes info (flow, db) =
      let data' = accumulate cb info.payload flow.accumulated_data in
      let r =
        frontier_loop-Ends (suc (length (cb.contents data'))) info
          (record flow { accumulated_data = data' }, db) in
      r.grows

  pub caught-Ends : (e : Exception) (s : Session cb) → Ends s (caught cb e s)
  caught-Ends runtime_error s = ends (w.same s.1)
  caught-Ends other_error s = ends (w.same s.1)
  caught-Ends out_of_fuel s = ends (w.same s.1)

  module _ (read : Parser k.Stream BulkEntry)
      (put : BulkEntry → NanoPacket → Session cb → Session cb) (what : Bytes)
      (grows : (e : BulkEntry) (info : NanoPacket) (s : Session cb)
        → w.Writes s.1 (put e info s).1) where
    accept_bulk-Writes :
        (e : BulkEntry) (n : ℕ) (info : NanoPacket) (s : Session cb)
        → w.Writes s.1 (accept_bulk k cb env put e n info s).1
    unfolding accept_bulk
    accept_bulk-Writes e n info s =
        if_both (λ (r : Session cb). w.Writes s.1 r.1) env.bootstrap_details (grows e info s)
          (w.same s.1)

    bulk_round-Ends :
        (next : Session cb → Ended cb) (info : NanoPacket) (s : Session cb)
        (r : Outcome (BulkEntry × k.Stream))
        → Goes next
        → Ends s (bulk_round k cb env read put what next info s r)
    unfolding bulk_round
    bulk_round-Ends next info s (ok (e, ks)) h =
        after _ (accept_bulk-Writes e (k.pos ks) info s) (h _)
    bulk_round-Ends next info s (throw e) h = caught-Ends e s

    bulk_body-Ends :
        (next : Session cb → Ended cb) (info : NanoPacket) (s : Session cb) (bs : Bytes)
        → Goes next
        → Ends s (bulk_body k cb env read put what next info s bs)
    unfolding bulk_body
    bulk_body-Ends next info s [] h = ends (w.same s.1)
    bulk_body-Ends next info s (b ∷ bs) h =
        if_both (Ends s) (b == 1) (ends (end_response-Writes what info s))
          (bulk_round-Ends next info s (read (k.open_stream (b ∷ bs))) h)

    bulk_loop-Ends :
        (fuel : ℕ) (info : NanoPacket) → Goes (bulk_loop k cb env read put what fuel info)
    unfolding bulk_loop
    bulk_loop-Ends zero info s = ends (w.same s.1)
    bulk_loop-Ends (suc fuel) info (flow, db) =
        bulk_body-Ends _ info (flow, db) (cb.contents flow.accumulated_data)
          (bulk_loop-Ends fuel info)

    handle_bulk-Writes :
        (info : NanoPacket) (s : Session cb)
        → w.Writes s.1 (handle_bulk k cb env read put what info s).0.1
    unfolding handle_bulk
    handle_bulk-Writes info (flow, db) =
        let data' = accumulate cb info.payload flow.accumulated_data in
        let r =
          bulk_loop-Ends (suc (length (cb.contents data'))) info
            (record flow { accumulated_data = data' }, db) in
        r.grows

  pub handle_bulk_pull-Writes :
      (info : NanoPacket) (s : Session cb) → w.Writes s.1 (handle_bulk_pull k cb env info s).0.1
  unfolding handle_bulk_pull
  handle_bulk_pull-Writes =
      handle_bulk-Writes (read_bulk_pull_entry k) (put_bulk_pull_entry env)
        (codes "end of bulk_pull. valid entries: ")
        λ e info (flow, db). w.put_bulk_pull_entry_ok e info flow db

  pub handle_bulk_push-Writes :
      (info : NanoPacket) (s : Session cb) → w.Writes s.1 (handle_bulk_push k cb env info s).0.1
  unfolding handle_bulk_push
  handle_bulk_push-Writes =
      handle_bulk-Writes (read_bulk_push_entry k) (put_bulk_push_entry env)
        (codes "end of bulk_push. valid entries: ")
        λ e info (flow, db). w.put_bulk_push_entry_ok e info flow db
