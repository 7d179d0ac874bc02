-- ===== src/Handler/Message/Fresh.antt =====
-- The state of a connection after a message.
use nanocap.Prelude.{ℕ, ◌≡◌, refl, []}
use nanocap.Flow.{CircularBuffer, TcpFlowData, NanoPacket, reset}
use nanocap.Protocol.Enums.{
  MsgType, invalid, keepalive, publish, confirm_req, confirm_ack, bulk_pull, bulk_push,
  frontier_req, node_id_handshake, bulk_pull_account, telemetry_req, telemetry_ack,
}
use nanocap.Protocol.Header.{MessageHeader}
use nanocap.Protocol.Nano.{
  Body, keepalive_body, confirm_ack_body, confirm_req_body, publish_body, node_id_handshake_body,
  bulk_pull_body, bulk_push_body, frontier_req_body, bulk_pull_account_body, telemetry_req_body,
  telemetry_ack_body, bulk_pull_blocks_body, ignored_body,
}
use nanocap.Db.{Env, Db}
use nanocap.Db.Bootstrap.{put_frontier_req, put_bulk_pull, put_bulk_push, put_bulk_pull_account}
use nanocap.Handler.Message.{
  enter, handle_message, handle_keepalive, handle_confirm_ack, handle_confirm_req, handle_publish,
  handle_node_id_handshake, handle_msg_bulk_pull, handle_msg_bulk_push, handle_frontier_req,
  handle_msg_bulk_pull_account, handle_telemetry_req, handle_telemetry_ack,
}

-- The messages that a connection is entered for.
abbrev pub entered : Body → MsgType
entered (keepalive_body m) = keepalive
entered (confirm_ack_body m) = confirm_ack
entered (confirm_req_body m) = confirm_req
entered (publish_body m) = publish
entered (node_id_handshake_body m) = node_id_handshake
entered (bulk_pull_body m) = bulk_pull
entered (bulk_push_body m) = bulk_push
entered (frontier_req_body m) = frontier_req
entered (bulk_pull_account_body m) = bulk_pull_account
entered (telemetry_req_body m) = telemetry_req
entered (telemetry_ack_body m) = telemetry_ack
entered (bulk_pull_blocks_body m) = invalid
entered (ignored_body m) = invalid

module _ (cb : CircularBuffer) (env : Env) where
  -- A connection that waits for the first byte of a response to a message of a type.
  pub record IsFresh (t : MsgType) (flow : TcpFlowData cb.Buffer) : Type 0 where
    pub type_ok : flow.current_msg_type ≡ t
    pub step_ok : flow.step ≡ 0
    pub responses_ok : flow.response_count ≡ 0
    pub invalid_ok : flow.invalid_response_count ≡ 0
    pub empty : cb.contents flow.accumulated_data ≡ []

  pub reset-IsFresh : (t : MsgType) (flow : TcpFlowData cb.Buffer) → IsFresh t (reset cb t flow)
  unfolding reset
  reset-IsFresh t flow = record {
    type_ok = refl;
    step_ok = refl;
    responses_ok = refl;
    invalid_ok = refl;
    empty = cb.contents-clear flow.accumulated_data;
  }

  -- The ids and the flags of a request do not matter.
  kept :
      {t : MsgType} {f : TcpFlowData cb.Buffer} {packet_id message_id request_flags : ℕ}
      → IsFresh t f
      → IsFresh t (record f {
        packet_id = packet_id;
        message_id = message_id;
        request_flags = request_flags;
      })
  kept h = record {
    type_ok = h.type_ok;
    step_ok = h.step_ok;
    responses_ok = h.responses_ok;
    invalid_ok = h.invalid_ok;
    empty = h.empty;
  }

  -- Whatever state a connection was in, once a message is parsed and handled it waits for the
  -- responses to that message: its type is that of the body (or `invalid` for a body that is not
  -- handled), the counts are zero, and no byte of an older response is left.
  pub handle_message-IsFresh :
      (h : MessageHeader) (body : Body) (info : NanoPacket) (flow : TcpFlowData cb.Buffer) (db : Db)
      → IsFresh (entered body) (handle_message cb env h body info (reset cb invalid flow, db)).0
  unfolding handle_message enter reset put_frontier_req put_bulk_pull put_bulk_push
      put_bulk_pull_account handle_keepalive handle_confirm_ack handle_confirm_req handle_publish
      handle_node_id_handshake handle_msg_bulk_pull handle_msg_bulk_push handle_frontier_req
      handle_msg_bulk_pull_account handle_telemetry_req handle_telemetry_ack
  handle_message-IsFresh h (keepalive_body m) info flow db =
      reset-IsFresh keepalive (reset cb invalid flow)
  handle_message-IsFresh h (confirm_ack_body m) info flow db =
      reset-IsFresh confirm_ack (reset cb invalid flow)
  handle_message-IsFresh h (confirm_req_body m) info flow db =
      reset-IsFresh confirm_req (reset cb invalid flow)
  handle_message-IsFresh h (publish_body m) info flow db =
      reset-IsFresh publish (reset cb invalid flow)
  handle_message-IsFresh h (node_id_handshake_body m) info flow db =
      reset-IsFresh node_id_handshake (reset cb invalid flow)
  handle_message-IsFresh h (bulk_pull_body m) info flow db =
      kept (reset-IsFresh bulk_pull (reset cb invalid flow))
  handle_message-IsFresh h (bulk_push_body m) info flow db =
      kept (reset-IsFresh bulk_push (reset cb invalid flow))
  handle_message-IsFresh h (frontier_req_body m) info flow db =
      kept (reset-IsFresh frontier_req (reset cb invalid flow))
  handle_message-IsFresh h (bulk_pull_account_body m) info flow db =
      kept (reset-IsFresh bulk_pull_account (reset cb invalid flow))
  handle_message-IsFresh h (telemetry_req_body m) info flow db =
      reset-IsFresh telemetry_req (reset cb invalid flow)
  handle_message-IsFresh h (telemetry_ack_body m) info flow db =
      reset-IsFresh telemetry_ack (reset cb invalid flow)
  handle_message-IsFresh h (bulk_pull_blocks_body m) info flow db = reset-IsFresh invalid flow
  handle_message-IsFresh h (ignored_body m) info flow db = reset-IsFresh invalid flow
