-- ===== src/Handler/Tcp/Ids.antt =====
-- The ids of the rows that messages and whole packets lead to.
use nanocap.Prelude.{if_both, ℕ, Outcome, ok, throw, [], ◌∷◌}
use nanocap.Stream.{KStream, Bytes}
use nanocap.Flow.{CircularBuffer, NanoPacket}
use nanocap.Protocol.Enums.{
  MsgType, invalid, not_a_type, keepalive, publish, confirm_req, confirm_ack, bulk_pull, bulk_push,
  frontier_req, bulk_pull_blocks, node_id_handshake, bulk_pull_account, telemetry_req,
  telemetry_ack, other_msg,
}
use nanocap.Protocol.Header.{MessageHeader}
use nanocap.Protocol.Nano.{
  Nano, Body, keepalive_body, confirm_ack_body, confirm_req_body, publish_body,
  node_id_handshake_body, bulk_pull_body, bulk_push_body, frontier_req_body, bulk_pull_account_body,
  telemetry_req_body, telemetry_ack_body, bulk_pull_blocks_body, ignored_body,
}
use nanocap.Db.{Env, Db}
use nanocap.Db.Ids.{Calls-trans, Grows, Grows-refl}
use nanocap.Db.Ids.Puts.{
  put_connection-Grows, put_keepalive-Grows, put_confirm_ack-Grows, put_confirm_req-Grows,
  put_publish-Grows, put_node_id_handshake-Grows, put_telemetry_req-Grows, put_telemetry_ack-Grows,
}
use nanocap.Db.Ids.Bootstrap.{
  put_frontier_req-Grows, put_bulk_pull-Grows, put_bulk_push-Grows, put_bulk_pull_account-Grows,
  put_frontier_entry-Grows, put_frontier_balance_entry-Grows, put_bulk_pull_entry-Grows,
  put_bulk_push_entry-Grows, put_bulk_pull_account_entry-Grows,
}
use nanocap.Handler.Session.{Session}
use nanocap.Handler.Message.{
  connection_event, enter, handle_keepalive, handle_confirm_ack, handle_confirm_req, handle_publish,
  handle_node_id_handshake, handle_frontier_req, handle_telemetry_req, handle_telemetry_ack,
  handle_msg_bulk_pull, handle_msg_bulk_push, handle_msg_bulk_pull_account, handle_message,
}
use nanocap.Handler.Tcp.{PacketHandler, handle_parsed, process, handle_tcp}
use nanocap.Handler.Tcp.Writes.Account.{handle_account-Writes}
use nanocap.Handler.Tcp.Writes.{
  Growth, handle_frontier-Writes, handle_bulk_pull-Writes, handle_bulk_push-Writes,
}

abbrev growing : (env : Env) → Growth env
growing env = record {
  Writes = Grows;
  same = Grows-refl;
  trans = Calls-trans;
  put_connection_ok = put_connection-Grows;
  put_frontier_entry_ok = put_frontier_entry-Grows env;
  put_frontier_balance_entry_ok = put_frontier_balance_entry-Grows env;
  put_bulk_pull_entry_ok = put_bulk_pull_entry-Grows env;
  put_bulk_push_entry_ok = put_bulk_push_entry-Grows env;
  put_bulk_pull_account_entry_ok = put_bulk_pull_account_entry-Grows env;
}

module _ (k : KStream) (cb : CircularBuffer) (env : Env) where
  event-Grows :
      (event : Bytes) (info : NanoPacket) (db : Db)
      → Grows db (connection_event cb env event info db)
  unfolding connection_event
  event-Grows event info db =
      if_both (λ (d : Db). Grows db d) env.connection_details (put_connection-Grows info event db)
        (Grows-refl db)

  message-Grows :
      (h : MessageHeader) (body : Body) (info : NanoPacket) (s : Session cb)
      → Grows s.1 (handle_message cb env h body info s).1
  unfolding handle_message enter handle_keepalive handle_confirm_ack handle_confirm_req
      handle_publish handle_node_id_handshake handle_frontier_req handle_telemetry_req
      handle_telemetry_ack handle_msg_bulk_pull handle_msg_bulk_push handle_msg_bulk_pull_account
  message-Grows h (keepalive_body m) info (flow, db) =
      Calls-trans (event-Grows _ info db) (put_keepalive-Grows env h m info _)
  message-Grows h (confirm_ack_body m) info (flow, db) =
      Calls-trans (event-Grows _ info db) (put_confirm_ack-Grows env h m info _)
  message-Grows h (confirm_req_body m) info (flow, db) =
      Calls-trans (event-Grows _ info db) (put_confirm_req-Grows env h m info _)
  message-Grows h (publish_body m) info (flow, db) =
      Calls-trans (event-Grows _ info db) (put_publish-Grows env h m info _)
  message-Grows h (node_id_handshake_body m) info (flow, db) =
      Calls-trans (event-Grows _ info db) (put_node_id_handshake-Grows env h m info _)
  message-Grows h (bulk_pull_body m) info (flow, db) =
      Calls-trans (event-Grows _ info db) (put_bulk_pull-Grows env h m info flow _)
  message-Grows h (bulk_push_body m) info (flow, db) =
      Calls-trans (event-Grows _ info db) (put_bulk_push-Grows env h m info flow _)
  message-Grows h (frontier_req_body m) info (flow, db) =
      Calls-trans (event-Grows _ info db) (put_frontier_req-Grows env h m info flow _)
  message-Grows h (bulk_pull_account_body m) info (flow, db) =
      Calls-trans (event-Grows _ info db) (put_bulk_pull_account-Grows env h m info flow _)
  message-Grows h (telemetry_req_body m) info (flow, db) =
      Calls-trans (event-Grows _ info db) (put_telemetry_req-Grows env h m info _)
  message-Grows h (telemetry_ack_body m) info (flow, db) =
      Calls-trans (event-Grows _ info db) (put_telemetry_ack-Grows env h m info _)
  message-Grows h (bulk_pull_blocks_body m) info (flow, db) = Grows-refl db
  message-Grows h (ignored_body m) info (flow, db) = Grows-refl db

  parsed-Grows :
      (info : NanoPacket) (s : Session cb) (r : Outcome (Nano × k.Stream))
      → Grows s.1 (handle_parsed k cb env info s r).0.1
  unfolding handle_parsed
  parsed-Grows info (flow, db) (ok (nano, ks)) = message-Grows nano.header nano.body info _
  parsed-Grows info (flow, db) (throw e) = Grows-refl db

  process-Grows :
      (fuel : ℕ) (t : MsgType) (data' : Bytes) (info : NanoPacket) (s : Session cb)
      → Grows s.1 (process k cb env fuel t data' info s).0.1
  unfolding process
  process-Grows fuel frontier_req (b ∷ bs) info s =
      handle_frontier-Writes k cb env (growing env) info s
  process-Grows fuel bulk_pull (b ∷ bs) info s =
      handle_bulk_pull-Writes k cb env (growing env) info s
  process-Grows fuel bulk_push (b ∷ bs) info s =
      handle_bulk_push-Writes k cb env (growing env) info s
  process-Grows fuel bulk_pull_account (b ∷ bs) info s =
      handle_account-Writes k cb env (growing env) fuel info s
  process-Grows fuel frontier_req [] info s = parsed-Grows info s _
  process-Grows fuel bulk_pull [] info s = parsed-Grows info s _
  process-Grows fuel bulk_push [] info s = parsed-Grows info s _
  process-Grows fuel bulk_pull_account [] info s = parsed-Grows info s _
  process-Grows fuel invalid bs info s = parsed-Grows info s _
  process-Grows fuel not_a_type bs info s = parsed-Grows info s _
  process-Grows fuel keepalive bs info s = parsed-Grows info s _
  process-Grows fuel publish bs info s = parsed-Grows info s _
  process-Grows fuel confirm_req bs info s = parsed-Grows info s _
  process-Grows fuel confirm_ack bs info s = parsed-Grows info s _
  process-Grows fuel bulk_pull_blocks bs info s = parsed-Grows info s _
  process-Grows fuel node_id_handshake bs info s = parsed-Grows info s _
  process-Grows fuel telemetry_req bs info s = parsed-Grows info s _
  process-Grows fuel telemetry_ack bs info s = parsed-Grows info s _
  process-Grows fuel (other_msg n) bs info s = parsed-Grows info s _

  -- Whatever a packet holds, and whatever response its connection waits for.
  pub tcp-Grows :
      (fuel : ℕ) (info : NanoPacket) (p : PacketHandler) (s : Session cb)
      → Grows s.1 (handle_tcp k cb env fuel info (p, s)).1.1
  unfolding handle_tcp
  tcp-Grows fuel info p (flow, db) =
      process-Grows fuel flow.current_msg_type info.payload info (flow, db)
