-- ===== src/Protocol/Nano.antt =====
-- `nano_t`: a header, and the body that its message type selects.
use nanocap.Prelude.{Parser, pure, ◌>>=◌}
use nanocap.Stream.{KStream}
use nanocap.Protocol.Enums.{
  MsgType, invalid, not_a_type, keepalive, publish, confirm_req, confirm_ack, bulk_pull, bulk_push,
  frontier_req, bulk_pull_blocks, node_id_handshake, bulk_pull_account, telemetry_req,
  telemetry_ack, other_msg,
}
use nanocap.Protocol.Header.{MessageHeader, read_message_header}
use nanocap.Protocol.Block.{IgnoreUntilEof, read_ignore_until_eof}
use nanocap.Protocol.Messages.{
  MsgKeepalive, MsgConfirmReq, MsgConfirmAck, MsgPublish, MsgNodeIdHandshake, MsgTelemetryReq,
  MsgTelemetryAck, read_msg_keepalive, read_msg_confirm_req, read_msg_confirm_ack, read_msg_publish,
  read_msg_node_id_handshake, read_msg_telemetry_req, read_msg_telemetry_ack,
}
use nanocap.Protocol.Bootstrap.{
  MsgBulkPull, MsgFrontierReq, MsgBulkPullAccount, MsgBulkPullBlocks, MsgBulkPush,
  read_msg_bulk_pull, read_msg_frontier_req, read_msg_bulk_pull_account, read_msg_bulk_pull_blocks,
  read_msg_bulk_push,
}

pub data Body : Type 0 where
  confirm_req_body : MsgConfirmReq → Body
  confirm_ack_body : MsgConfirmAck → Body
  bulk_pull_body : MsgBulkPull → Body
  bulk_pull_account_body : MsgBulkPullAccount → Body
  keepalive_body : MsgKeepalive → Body
  bulk_push_body : MsgBulkPush → Body
  telemetry_ack_body : MsgTelemetryAck → Body
  node_id_handshake_body : MsgNodeIdHandshake → Body
  frontier_req_body : MsgFrontierReq → Body
  bulk_pull_blocks_body : MsgBulkPullBlocks → Body
  publish_body : MsgPublish → Body
  telemetry_req_body : MsgTelemetryReq → Body
  ignored_body : IgnoreUntilEof → Body

pub record Nano : Type 0 where
  pub header : MessageHeader
  pub body : Body

module _ (k : KStream) where
  open k use {Stream}

  unfoldable pub read_body : MsgType → MessageHeader → Parser Stream Body
  read_body confirm_req h = do m ← read_msg_confirm_req k h; pure (confirm_req_body m)
  read_body confirm_ack h = do m ← read_msg_confirm_ack k h; pure (confirm_ack_body m)
  read_body bulk_pull h = do m ← read_msg_bulk_pull k h; pure (bulk_pull_body m)
  read_body bulk_pull_account h = do
    m ← read_msg_bulk_pull_account k
    pure (bulk_pull_account_body m)
  read_body keepalive h = do m ← read_msg_keepalive k; pure (keepalive_body m)
  read_body bulk_push h = do m ← read_msg_bulk_push k; pure (bulk_push_body m)
  read_body telemetry_ack h = do m ← read_msg_telemetry_ack k; pure (telemetry_ack_body m)
  read_body node_id_handshake h = do
    m ← read_msg_node_id_handshake k h
    pure (node_id_handshake_body m)
  read_body frontier_req h = do m ← read_msg_frontier_req k; pure (frontier_req_body m)
  read_body bulk_pull_blocks h = do m ← read_msg_bulk_pull_blocks k; pure (bulk_pull_blocks_body m)
  read_body publish h = do m ← read_msg_publish k h; pure (publish_body m)
  read_body telemetry_req h = do m ← read_msg_telemetry_req k; pure (telemetry_req_body m)
  read_body invalid h = do m ← read_ignore_until_eof k; pure (ignored_body m)
  read_body not_a_type h = do m ← read_ignore_until_eof k; pure (ignored_body m)
  read_body (other_msg n) h = do m ← read_ignore_until_eof k; pure (ignored_body m)

  unfoldable pub read_nano : Parser Stream Nano
  read_nano = do
    header ← read_message_header k
    body ← read_body header.message_type header
    pure (record { header = header; body = body })
