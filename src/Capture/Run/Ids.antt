-- ===== src/Capture/Run/Ids.antt =====
-- The ids of the rows that a run of the capture leads to. A put of the source takes its id before
-- it locks the database, so that ids follow the calls only where one thread writes.
use nanocap.Prelude.{ℕ, ◌≡◌, sym, subst, some, if_both, List, [], ◌∷◌, ◌++◌, map}
use nanocap.Stream.{KStream, Bytes}
use nanocap.Util.Text.{codes}
use nanocap.Flow.{CircularBuffer, NanoPacket}
use nanocap.Db.{Env, SqlCall}
use nanocap.Db.Ids.{ids, Ascends, Calls-trans, Grows, Grows-refl}
use nanocap.Db.Ids.Puts.{put_connection-Grows}
use nanocap.Handler.Tcp.Ids.{tcp-Grows}
use nanocap.Capture.{
  ConnectionData, packet_of, Capture, has_missing_data, message_ready, connection_start,
  connection_end, take_packet, stop_packet_processing_thread, handle_packet, handle_on,
}
use nanocap.Capture.Run.{
  Action, handled, Step, message_step, start_step, end_step, stop_step, take_step, handle_step, Run,
  done, then_step,
}
use nanocap.Capture.Run.Order.{handle_packet-some}

module _ (k : KStream) (cb : CircularBuffer) (env : Env) (fuel : ℕ) where
  message-Grows :
      (c : ConnectionData) (payload : Bytes) (side : ℕ) (s : Capture cb)
      → Grows s.db (message_ready cb c payload side s).db
  unfolding message_ready
  message-Grows c [] side s = Grows-refl s.db
  message-Grows c (b ∷ bs) side s =
      if_both (λ (t : Capture cb). Grows s.db t.db) (has_missing_data (b ∷ bs)) (Grows-refl s.db)
        (Grows-refl s.db)

  handle-Grows :
      (s s' : Capture cb) (info : NanoPacket)
      → handle_packet cb k env fuel info s ≡ some s'
      → Grows s.db s'.db
  unfolding handle_on
  handle-Grows s s' info e =
      let (flow, (found, at')) = handle_packet-some k cb env fuel s s' info e in
      subst (λ (t : Capture cb). Grows s.db t.db) (sym at')
        (tcp-Grows k cb env fuel info s.handler (flow, s.db))

  Step-Grows :
      {s s' : Capture cb} {arrived : List NanoPacket} {log : List Action}
      → Step k cb env fuel s arrived log s'
      → Grows s.db s'.db
  unfolding connection_start connection_end take_packet stop_packet_processing_thread
  Step-Grows (message_step s c payload side) = message-Grows c payload side s
  Step-Grows (start_step s c) =
      put_connection-Grows (packet_of c [] 0) (codes "open connection") s.db
  Step-Grows (end_step s c) =
      put_connection-Grows (packet_of c [] 0) (codes "close connection") s.db
  Step-Grows (stop_step s) = Grows-refl s.db
  Step-Grows (take_step s info rest on idle front) = Grows-refl s.db
  Step-Grows (handle_step s s' info busy e returned) = handle-Grows s s' info e

  Run-Grows :
      {s s' : Capture cb} {arrived : List NanoPacket} {log : List Action}
      → Run k cb env fuel s arrived log s'
      → Grows s.db s'.db
  Run-Grows (done s) = Grows-refl s.db
  Run-Grows (then_step s s' s'' arrived arrived' log log' r st) =
      Calls-trans (Run-Grows r) (Step-Grows st)

  -- In every run in which no connection opens or closes, so that only the processing thread writes
  -- to the database, and whatever the packets hold, the database only gets calls after those it
  -- had, and the ids that the new calls bind ascend strictly, from the next id on, to below the
  -- next id afterwards.
  pub Run-ids :
      (ps : List NanoPacket)
      → {s s' : Capture cb} {arrived : List NanoPacket}
      → Run k cb env fuel s arrived (map handled ps) s'
      → (new : List SqlCall) × ((s'.db.calls ≡ s.db.calls ++ new)
          × Ascends s.db.next_id (ids new) s'.db.next_id)
  Run-ids ps r = let g = Run-Grows r in (g.new, (g.grown, g.ascending))
