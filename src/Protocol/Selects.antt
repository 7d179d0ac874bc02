-- ===== src/Protocol/Selects.antt =====
-- The class of a body follows from the message type of its header.
use nanocap.Prelude.{ℕ, ◌<◌, ◌≡◌, ◌≢◌, refl, subst, arith, Outcome, ok, pure, ◌>>=◌, Parser}
use nanocap.Stream.{KStream}
use nanocap.Stream.Reads.{bind-ok}
use nanocap.Protocol.Enums.{
  MsgType, invalid, not_a_type, keepalive, publish, confirm_req, confirm_ack, bulk_pull, bulk_push,
  frontier_req, bulk_pull_blocks, node_id_handshake, bulk_pull_account, telemetry_req,
  telemetry_ack, other_msg, msg_number,
}
use nanocap.Protocol.Header.{MessageHeader, read_message_header}
use nanocap.Protocol.Block.{IgnoreUntilEof, read_ignore_until_eof}
use nanocap.Protocol.Messages.{
  MsgKeepalive, MsgConfirmReq, MsgConfirmAck, MsgPublish, MsgNodeIdHandshake, MsgTelemetryReq,
  MsgTelemetryAck, read_msg_keepalive, read_msg_confirm_req, read_msg_confirm_ack, read_msg_publish,
  read_msg_node_id_handshake, read_msg_telemetry_req, read_msg_telemetry_ack,
}
use nanocap.Protocol.Bootstrap.{
  MsgBulkPull, MsgFrontierReq, MsgBulkPullAccount, MsgBulkPullBlocks, MsgBulkPush,
  read_msg_bulk_pull, read_msg_frontier_req, read_msg_bulk_pull_account, read_msg_bulk_pull_blocks,
  read_msg_bulk_push,
}
use nanocap.Protocol.Nano.{
  Nano, Body, read_body, read_nano, keepalive_body, confirm_ack_body, confirm_req_body,
  publish_body, node_id_handshake_body, bulk_pull_body, bulk_push_body, frontier_req_body,
  bulk_pull_account_body, telemetry_req_body, telemetry_ack_body, bulk_pull_blocks_body,
  ignored_body,
}

-- The classes to which the handler casts, by the type of the message.
pub data Selects : MsgType → Body → Type 0 where
  of_keepalive : (m : MsgKeepalive) → Selects keepalive (keepalive_body m)
  of_publish : (m : MsgPublish) → Selects publish (publish_body m)
  of_confirm_req : (m : MsgConfirmReq) → Selects confirm_req (confirm_req_body m)
  of_confirm_ack : (m : MsgConfirmAck) → Selects confirm_ack (confirm_ack_body m)
  of_bulk_pull : (m : MsgBulkPull) → Selects bulk_pull (bulk_pull_body m)
  of_bulk_push : (m : MsgBulkPush) → Selects bulk_push (bulk_push_body m)
  of_frontier_req : (m : MsgFrontierReq) → Selects frontier_req (frontier_req_body m)
  of_bulk_pull_blocks : (m : MsgBulkPullBlocks) → Selects bulk_pull_blocks (bulk_pull_blocks_body m)
  of_node_id_handshake :
      (m : MsgNodeIdHandshake) → Selects node_id_handshake (node_id_handshake_body m)
  of_bulk_pull_account :
      (m : MsgBulkPullAccount) → Selects bulk_pull_account (bulk_pull_account_body m)
  of_telemetry_req : (m : MsgTelemetryReq) → Selects telemetry_req (telemetry_req_body m)
  of_telemetry_ack : (m : MsgTelemetryAck) → Selects telemetry_ack (telemetry_ack_body m)
  of_invalid : (m : IgnoreUntilEof) → Selects invalid (ignored_body m)
  of_not_a_type : (m : IgnoreUntilEof) → Selects not_a_type (ignored_body m)
  of_other : (n : ℕ) (m : IgnoreUntilEof) → Selects (other_msg n) (ignored_body m)

ok-value {ℓ} :
    {A B : Type ℓ} {a b : A} {s t : B} → ◌≡◌ {A = Outcome (A × B)} (ok (a, s)) (ok (b, t)) → a ≡ b
ok-value h = cc

-- The bodies of the classes have types below 32.
pub Selects-count :
    (t : MsgType) (body : Body)
    → Selects t body
    → ((m : IgnoreUntilEof) → body ≢ ignored_body m)
    → msg_number t < 32
unfolding msg_number
Selects-count t body (of_keepalive m) stored = omega arith
Selects-count t body (of_publish m) stored = omega arith
Selects-count t body (of_confirm_req m) stored = omega arith
Selects-count t body (of_confirm_ack m) stored = omega arith
Selects-count t body (of_bulk_pull m) stored = omega arith
Selects-count t body (of_bulk_push m) stored = omega arith
Selects-count t body (of_frontier_req m) stored = omega arith
Selects-count t body (of_bulk_pull_blocks m) stored = omega arith
Selects-count t body (of_node_id_handshake m) stored = omega arith
Selects-count t body (of_bulk_pull_account m) stored = omega arith
Selects-count t body (of_telemetry_req m) stored = omega arith
Selects-count t body (of_telemetry_ack m) stored = omega arith
Selects-count t body (of_invalid m) stored = absurd (stored m refl)
Selects-count t body (of_not_a_type m) stored = absurd (stored m refl)
Selects-count t body (of_other n m) stored = absurd (stored m refl)

module _ (k : KStream) where
  -- A body that a class makes of its message.
  wrapped :
      {M : Type 0} (t : MsgType) (read : Parser k.Stream M) (wrap : M → Body) (s s' : k.Stream)
      (body : Body)
      → ((m : M) → Selects t (wrap m))
      → (read >>= (λ m. pure (wrap m))) s ≡ ok (body, s')
      → Selects t body
  unfolding pure
  wrapped t read wrap s s' body selects e =
      let (m, s₁, first, rest) = bind-ok read (λ n. pure (wrap n)) s s' body e in
      subst (Selects t) (ok-value rest) (selects m)

  read_body-Selects :
      (t : MsgType) (h : MessageHeader) (s s' : k.Stream) (body : Body)
      → read_body k t h s ≡ ok (body, s')
      → Selects t body
  unfolding read_body
  read_body-Selects confirm_req h s s' body e =
      wrapped confirm_req (read_msg_confirm_req k h) confirm_req_body s s' body of_confirm_req e
  read_body-Selects confirm_ack h s s' body e =
      wrapped confirm_ack (read_msg_confirm_ack k h) confirm_ack_body s s' body of_confirm_ack e
  read_body-Selects bulk_pull h s s' body e =
      wrapped bulk_pull (read_msg_bulk_pull k h) bulk_pull_body s s' body of_bulk_pull e
  read_body-Selects bulk_pull_account h s s' body e =
      wrapped bulk_pull_account (read_msg_bulk_pull_account k) bulk_pull_account_body s s' body
        of_bulk_pull_account e
  read_body-Selects keepalive h s s' body e =
      wrapped keepalive (read_msg_keepalive k) keepalive_body s s' body of_keepalive e
  read_body-Selects bulk_push h s s' body e =
      wrapped bulk_push (read_msg_bulk_push k) bulk_push_body s s' body of_bulk_push e
  read_body-Selects telemetry_ack h s s' body e =
      wrapped telemetry_ack (read_msg_telemetry_ack k) telemetry_ack_body s s' body of_telemetry_ack
        e
  read_body-Selects node_id_handshake h s s' body e =
      wrapped node_id_handshake (read_msg_node_id_handshake k h) node_id_handshake_body s s' body
        of_node_id_handshake e
  read_body-Selects frontier_req h s s' body e =
      wrapped frontier_req (read_msg_frontier_req k) frontier_req_body s s' body of_frontier_req e
  read_body-Selects bulk_pull_blocks h s s' body e =
      wrapped bulk_pull_blocks (read_msg_bulk_pull_blocks k) bulk_pull_blocks_body s s' body
        of_bulk_pull_blocks e
  read_body-Selects publish h s s' body e =
      wrapped publish (read_msg_publish k h) publish_body s s' body of_publish e
  read_body-Selects telemetry_req h s s' body e =
      wrapped telemetry_req (read_msg_telemetry_req k) telemetry_req_body s s' body of_telemetry_req
        e
  read_body-Selects invalid h s s' body e =
      wrapped invalid (read_ignore_until_eof k) ignored_body s s' body of_invalid e
  read_body-Selects not_a_type h s s' body e =
      wrapped not_a_type (read_ignore_until_eof k) ignored_body s s' body of_not_a_type e
  read_body-Selects (other_msg n) h s s' body e =
      wrapped (other_msg n) (read_ignore_until_eof k) ignored_body s s' body (of_other n) e

  -- A message that is read has the body of the class that its message type stands for, so that
  -- every cast that the handler makes by the type is to the class of the object: a body of a type
  -- with no class, or of none of the types, is ignored bytes.
  pub read_nano-Selects :
      (s s' : k.Stream) (nano : Nano)
      → read_nano k s ≡ ok (nano, s')
      → Selects nano.header.message_type nano.body
  unfolding read_nano pure
  read_nano-Selects s s' nano e =
      let (h, s₁, first, rest) = bind-ok (read_message_header k) _ s s' nano e in
      let (body, s₂, second, last) = bind-ok (read_body k h.message_type h) _ s₁ s' nano rest in
      subst (λ (n : Nano). Selects n.header.message_type n.body) (ok-value last)
        (read_body-Selects h.message_type h s₁ s₂ body second)
