-- ===== src/Handler/Message.antt =====
-- The overloads of `handle_message`: each resets the connection for its type, writes an event where
-- connection details are configured, and stores the message.
pub mod Fresh
use nanocap.Prelude.{ℕ, ◌%◌, ◌^◌, if◌then◌else◌}
use nanocap.Stream.{Bytes}
use nanocap.Util.Text.{codes}
use nanocap.Flow.{CircularBuffer, NanoPacket, reset}
use nanocap.Protocol.Enums.{
  MsgType, keepalive, publish, confirm_req, confirm_ack, bulk_pull, bulk_push, frontier_req,
  node_id_handshake, bulk_pull_account, telemetry_req, telemetry_ack, flags_number,
}
use nanocap.Protocol.Header.{MessageHeader}
use nanocap.Protocol.Messages.{
  MsgKeepalive, MsgConfirmReq, MsgConfirmAck, MsgPublish, MsgNodeIdHandshake, MsgTelemetryReq,
  MsgTelemetryAck,
}
use nanocap.Protocol.Bootstrap.{MsgBulkPull, MsgFrontierReq, MsgBulkPullAccount, MsgBulkPush}
use nanocap.Protocol.Nano.{
  Body, keepalive_body, confirm_ack_body, confirm_req_body, publish_body, node_id_handshake_body,
  bulk_pull_body, bulk_push_body, frontier_req_body, bulk_pull_account_body, telemetry_req_body,
  telemetry_ack_body, bulk_pull_blocks_body, ignored_body,
}
use nanocap.Db.{Env, Db, put_connection}
use nanocap.Db.Messages.{
  put_keepalive, put_confirm_ack, put_confirm_req, put_publish, put_node_id_handshake,
  put_telemetry_req, put_telemetry_ack,
}
use nanocap.Db.Bootstrap.{put_frontier_req, put_bulk_pull, put_bulk_push, put_bulk_pull_account}
use nanocap.Handler.Session.{Session}

module _ (cb : CircularBuffer) (env : Env) where
  -- The event of a message.
  unfoldable pub connection_event : Bytes → NanoPacket → Db → Db
  unfolding put_connection
  connection_event event info db =
      if env.connection_details then put_connection info event db else db

  unfoldable pub enter : MsgType → Bytes → NanoPacket → Session cb → Session cb
  unfolding reset connection_event
  enter message_type event info (flow, db) =
      (reset cb message_type flow, connection_event event info db)

  abbrev pub store : (Db → Db) → Session cb → Session cb
  store put (flow, db) = (flow, put db)

  unfoldable pub handle_keepalive :
      MessageHeader → MsgKeepalive → NanoPacket → Session cb → Session cb
  unfolding enter
  handle_keepalive h msg info s =
      store (put_keepalive env h msg info) (enter keepalive (codes "keepalive") info s)

  unfoldable pub handle_confirm_ack :
      MessageHeader → MsgConfirmAck → NanoPacket → Session cb → Session cb
  unfolding enter
  handle_confirm_ack h msg info s =
      store (put_confirm_ack env h msg info) (enter confirm_ack (codes "confirm_ack") info s)

  unfoldable pub handle_confirm_req :
      MessageHeader → MsgConfirmReq → NanoPacket → Session cb → Session cb
  unfolding enter
  handle_confirm_req h msg info s =
      store (put_confirm_req env h msg info) (enter confirm_req (codes "confirm_req") info s)

  unfoldable pub handle_publish : MessageHeader → MsgPublish → NanoPacket → Session cb → Session cb
  unfolding enter
  handle_publish h msg info s =
      store (put_publish env h msg info) (enter publish (codes "publish") info s)

  unfoldable pub handle_node_id_handshake :
      MessageHeader → MsgNodeIdHandshake → NanoPacket → Session cb → Session cb
  unfolding enter
  handle_node_id_handshake h msg info s =
      store (put_node_id_handshake env h msg info)
        (enter node_id_handshake (codes "node_id_handshake") info s)

  unfoldable pub handle_frontier_req :
      MessageHeader → MsgFrontierReq → NanoPacket → Session cb → Session cb
  unfolding enter put_frontier_req
  handle_frontier_req h msg info s =
      put_frontier_req env h msg info (enter frontier_req (codes "frontier_req") info s)

  unfoldable pub handle_telemetry_req :
      MessageHeader → MsgTelemetryReq → NanoPacket → Session cb → Session cb
  unfolding enter
  handle_telemetry_req h msg info s =
      store (put_telemetry_req env h msg info) (enter telemetry_req (codes "telemetry_req") info s)

  unfoldable pub handle_telemetry_ack :
      MessageHeader → MsgTelemetryAck → NanoPacket → Session cb → Session cb
  unfolding enter
  handle_telemetry_ack h msg info s =
      store (put_telemetry_ack env h msg info) (enter telemetry_ack (codes "telemetry_ack") info s)

  unfoldable pub handle_msg_bulk_pull :
      MessageHeader → MsgBulkPull → NanoPacket → Session cb → Session cb
  unfolding enter put_bulk_pull
  handle_msg_bulk_pull h msg info s =
      put_bulk_pull env h msg info (enter bulk_pull (codes "bulk_pull") info s)

  unfoldable pub handle_msg_bulk_push :
      MessageHeader → MsgBulkPush → NanoPacket → Session cb → Session cb
  unfolding enter put_bulk_push
  handle_msg_bulk_push h msg info s =
      put_bulk_push env h msg info (enter bulk_push (codes "bulk_push") info s)

  -- The flags are kept in a byte.
  abbrev pub keep_flags : ℕ → Session cb → Session cb
  keep_flags flags (flow, db) = (record flow { request_flags = flags % 2 ^ 8 }, db)

  unfoldable pub handle_msg_bulk_pull_account :
      MessageHeader → MsgBulkPullAccount → NanoPacket → Session cb → Session cb
  unfolding enter put_bulk_pull_account
  handle_msg_bulk_pull_account h msg info s = put_bulk_pull_account env h msg info (
      keep_flags (flags_number msg.flags)
        (enter bulk_pull_account (codes "bulk_pull_account") info s))

  -- The switch of `handle_tcp`: the class of the body follows from the type of the message.
  unfoldable pub handle_message : MessageHeader → Body → NanoPacket → Session cb → Session cb
  unfolding handle_keepalive handle_confirm_ack handle_confirm_req handle_publish
      handle_node_id_handshake handle_msg_bulk_pull handle_msg_bulk_push handle_frontier_req
      handle_msg_bulk_pull_account handle_telemetry_req handle_telemetry_ack
  handle_message h (keepalive_body m) info s = handle_keepalive h m info s
  handle_message h (confirm_ack_body m) info s = handle_confirm_ack h m info s
  handle_message h (confirm_req_body m) info s = handle_confirm_req h m info s
  handle_message h (publish_body m) info s = handle_publish h m info s
  handle_message h (node_id_handshake_body m) info s = handle_node_id_handshake h m info s
  handle_message h (bulk_pull_body m) info s = handle_msg_bulk_pull h m info s
  handle_message h (bulk_push_body m) info s = handle_msg_bulk_push h m info s
  handle_message h (frontier_req_body m) info s = handle_frontier_req h m info s
  handle_message h (bulk_pull_account_body m) info s = handle_msg_bulk_pull_account h m info s
  handle_message h (telemetry_req_body m) info s = handle_telemetry_req h m info s
  handle_message h (telemetry_ack_body m) info s = handle_telemetry_ack h m info s
  handle_message h (bulk_pull_blocks_body m) info s = s
  handle_message h (ignored_body m) info s = s
