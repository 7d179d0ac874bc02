-- ===== src/Handler/Tcp/Counts.antt =====
-- The counts per message type after a packet.
use nanocap.Prelude.{
  if_both, ℕ, ◌≤◌, ◌≡◌, ◌≢◌, refl, ◌∙◌, ap, arith, Bool, true, false, Bool-cases, inl, inr, Outcome,
  ok, throw, [], ◌∷◌, ◌==◌, if◌then◌else◌,
}
use nanocap.Stream.Reads.{Outcome-cases}
use nanocap.Protocol.Selects.{Selects-count, read_nano-Selects}
use nanocap.Stream.{KStream, Bytes}
use nanocap.Flow.{CircularBuffer, NanoPacket}
use nanocap.Protocol.Enums.{
  MsgType, invalid, not_a_type, keepalive, publish, confirm_req, confirm_ack, bulk_pull, bulk_push,
  frontier_req, bulk_pull_blocks, node_id_handshake, bulk_pull_account, telemetry_req,
  telemetry_ack, other_msg, msg_number,
}
use nanocap.Protocol.Header.{MessageHeader}
use nanocap.Protocol.Block.{IgnoreUntilEof}
use nanocap.Protocol.Nano.{
  read_nano, Nano, Body, keepalive_body, confirm_ack_body, confirm_req_body, publish_body,
  node_id_handshake_body, bulk_pull_body, bulk_push_body, frontier_req_body, bulk_pull_account_body,
  telemetry_req_body, telemetry_ack_body, bulk_pull_blocks_body, ignored_body,
}
use nanocap.Db.{Env, Db, count_type}
use nanocap.Db.Counts.{
  Same, put_connection-Same, put_keepalive-Counted, put_confirm_ack-Counted,
  put_confirm_req-Counted, put_publish-Counted, put_node_id_handshake-Counted,
  put_telemetry_req-Counted, put_telemetry_ack-Counted,
}
use nanocap.Db.Counts.Bootstrap.{
  put_frontier_entry-Same, put_frontier_balance_entry-Same, put_bulk_pull_entry-Same,
  put_bulk_push_entry-Same, put_bulk_pull_account_entry-Same, put_frontier_req-Counted,
  put_bulk_pull-Counted, put_bulk_push-Counted, put_bulk_pull_account-Counted,
}
use nanocap.Handler.Session.{Session}
use nanocap.Handler.Message.{
  connection_event, enter, handle_keepalive, handle_confirm_ack, handle_confirm_req, handle_publish,
  handle_node_id_handshake, handle_frontier_req, handle_telemetry_req, handle_telemetry_ack,
  handle_msg_bulk_pull, handle_msg_bulk_push, handle_msg_bulk_pull_account, handle_message,
}
use nanocap.Handler.Tcp.{PacketHandler, handle_parsed, process, handle_tcp}
use nanocap.Handler.Tcp.Writes.Account.{handle_account-Writes}
use nanocap.Handler.Tcp.Writes.{
  Growth, handle_frontier-Writes, handle_bulk_pull-Writes, handle_bulk_push-Writes,
}

-- The bodies that the handler stores.
abbrev stored : Body → Bool
stored (keepalive_body m) = true
stored (confirm_ack_body m) = true
stored (confirm_req_body m) = true
stored (publish_body m) = true
stored (node_id_handshake_body m) = true
stored (bulk_pull_body m) = true
stored (bulk_push_body m) = true
stored (frontier_req_body m) = true
stored (bulk_pull_account_body m) = true
stored (telemetry_req_body m) = true
stored (telemetry_ack_body m) = true
stored (bulk_pull_blocks_body m) = false
stored (ignored_body m) = false

-- A packet with data on a connection that waits for responses brings responses and no message.
abbrev pub brings_response : MsgType → Bytes → Bool
brings_response frontier_req (b ∷ bs) = true
brings_response bulk_pull (b ∷ bs) = true
brings_response bulk_push (b ∷ bs) = true
brings_response bulk_pull_account (b ∷ bs) = true
brings_response _ _ = false

abbrev counting : (env : Env) → Growth env
counting env = record {
  Writes = Same;
  same = λ db. refl;
  trans = λ h h'. h' ∙ h;
  put_connection_ok = put_connection-Same;
  put_frontier_entry_ok = put_frontier_entry-Same env;
  put_frontier_balance_entry_ok = put_frontier_balance_entry-Same env;
  put_bulk_pull_entry_ok = put_bulk_pull_entry-Same env;
  put_bulk_push_entry_ok = put_bulk_push_entry-Same env;
  put_bulk_pull_account_entry_ok = put_bulk_pull_account_entry-Same env;
}

-- The counts after a message is read, or is not.
abbrev pub counts_after : {S : Type 0} → Outcome (Nano × S) → (ℕ → ℕ) → ℕ → ℕ
counts_after (throw e) counts = counts
counts_after (ok (nano, ks)) counts =
    if stored nano.body then count_type nano.header.message_type counts else counts

module _ (k : KStream) (cb : CircularBuffer) (env : Env) where
  event-Same :
      (event : Bytes) (info : NanoPacket) (db : Db)
      → Same db (connection_event cb env event info db)
  unfolding connection_event
  event-Same event info db =
      if_both (λ (d : Db). Same db d) env.connection_details (put_connection-Same info event db)
        refl

  message-counts :
      (h : MessageHeader) (body : Body) (info : NanoPacket) (s : Session cb)
      → (handle_message cb env h body info s).1.count_per_type
        ≡ (if stored body then count_type h.message_type s.1.count_per_type else s.1.count_per_type)
  unfolding handle_message enter handle_keepalive handle_confirm_ack handle_confirm_req
      handle_publish handle_node_id_handshake handle_frontier_req handle_telemetry_req
      handle_telemetry_ack handle_msg_bulk_pull handle_msg_bulk_push handle_msg_bulk_pull_account
  message-counts h (keepalive_body m) info (flow, db) =
      put_keepalive-Counted env h m info _ ∙ ap (count_type h.message_type) (event-Same _ info db)
  message-counts h (confirm_ack_body m) info (flow, db) =
      put_confirm_ack-Counted env h m info _ ∙ ap (count_type h.message_type) (event-Same _ info db)
  message-counts h (confirm_req_body m) info (flow, db) =
      put_confirm_req-Counted env h m info _ ∙ ap (count_type h.message_type) (event-Same _ info db)
  message-counts h (publish_body m) info (flow, db) =
      put_publish-Counted env h m info _ ∙ ap (count_type h.message_type) (event-Same _ info db)
  message-counts h (node_id_handshake_body m) info (flow, db) =
      put_node_id_handshake-Counted env h m info _
      ∙ ap (count_type h.message_type) (event-Same _ info db)
  message-counts h (bulk_pull_body m) info (flow, db) =
      put_bulk_pull-Counted env h m info flow _
      ∙ ap (count_type h.message_type) (event-Same _ info db)
  message-counts h (bulk_push_body m) info (flow, db) =
      put_bulk_push-Counted env h m info flow _
      ∙ ap (count_type h.message_type) (event-Same _ info db)
  message-counts h (frontier_req_body m) info (flow, db) =
      put_frontier_req-Counted env h m info flow _
      ∙ ap (count_type h.message_type) (event-Same _ info db)
  message-counts h (bulk_pull_account_body m) info (flow, db) =
      put_bulk_pull_account-Counted env h m info flow _
      ∙ ap (count_type h.message_type) (event-Same _ info db)
  message-counts h (telemetry_req_body m) info (flow, db) =
      put_telemetry_req-Counted env h m info _
      ∙ ap (count_type h.message_type) (event-Same _ info db)
  message-counts h (telemetry_ack_body m) info (flow, db) =
      put_telemetry_ack-Counted env h m info _
      ∙ ap (count_type h.message_type) (event-Same _ info db)
  message-counts h (bulk_pull_blocks_body m) info (flow, db) = refl
  message-counts h (ignored_body m) info (flow, db) = refl

  parsed-counts :
      (info : NanoPacket) (s : Session cb) (r : Outcome (Nano × k.Stream))
      → (handle_parsed k cb env info s r).0.1.count_per_type ≡ counts_after r s.1.count_per_type
  unfolding handle_parsed
  parsed-counts info (flow, db) (ok (nano, ks)) = message-counts nano.header nano.body info _
  parsed-counts info (flow, db) (throw e) = refl

  process-counts :
      (fuel : ℕ) (t : MsgType) (data' : Bytes) (info : NanoPacket) (s : Session cb)
      → (process k cb env fuel t data' info s).0.1.count_per_type ≡ (
          if brings_response t data'
          then s.1.count_per_type
          else counts_after (read_nano k (k.open_stream info.payload)) s.1.count_per_type)
  unfolding process
  process-counts fuel frontier_req (b ∷ bs) info s =
      handle_frontier-Writes k cb env (counting env) info s
  process-counts fuel bulk_pull (b ∷ bs) info s =
      handle_bulk_pull-Writes k cb env (counting env) info s
  process-counts fuel bulk_push (b ∷ bs) info s =
      handle_bulk_push-Writes k cb env (counting env) info s
  process-counts fuel bulk_pull_account (b ∷ bs) info s =
      handle_account-Writes k cb env (counting env) fuel info s
  process-counts fuel frontier_req [] info s = parsed-counts info s _
  process-counts fuel bulk_pull [] info s = parsed-counts info s _
  process-counts fuel bulk_push [] info s = parsed-counts info s _
  process-counts fuel bulk_pull_account [] info s = parsed-counts info s _
  process-counts fuel invalid bs info s = parsed-counts info s _
  process-counts fuel not_a_type bs info s = parsed-counts info s _
  process-counts fuel keepalive bs info s = parsed-counts info s _
  process-counts fuel publish bs info s = parsed-counts info s _
  process-counts fuel confirm_req bs info s = parsed-counts info s _
  process-counts fuel confirm_ack bs info s = parsed-counts info s _
  process-counts fuel bulk_pull_blocks bs info s = parsed-counts info s _
  process-counts fuel node_id_handshake bs info s = parsed-counts info s _
  process-counts fuel telemetry_req bs info s = parsed-counts info s _
  process-counts fuel telemetry_ack bs info s = parsed-counts info s _
  process-counts fuel (other_msg n) bs info s = parsed-counts info s _

  -- Whatever a packet holds and whatever state its connection is in, its handling changes the counts
  -- per message type as follows: responses count nothing; data that is read as a message with a
  -- stored body counts one message of the type of its header; and other data, among it what is no
  -- message, counts nothing.
  pub handle_tcp-counts :
      (fuel : ℕ) (info : NanoPacket) (p : PacketHandler) (s : Session cb)
      → (handle_tcp k cb env fuel info (p, s)).1.1.count_per_type ≡ (
          if brings_response s.0.current_msg_type info.payload
          then s.1.count_per_type
          else counts_after (read_nano k (k.open_stream info.payload)) s.1.count_per_type)
  unfolding handle_tcp
  handle_tcp-counts fuel info p (flow, db) =
      process-counts fuel flow.current_msg_type info.payload info (flow, db)

  stored-count : (body : Body) → stored body ≡ true → (m : IgnoreUntilEof) → body ≢ ignored_body m
  stored-count (ignored_body x) h m e = absurd cc
  stored-count (keepalive_body x) h m e = cc
  stored-count (confirm_ack_body x) h m e = cc
  stored-count (confirm_req_body x) h m e = cc
  stored-count (publish_body x) h m e = cc
  stored-count (node_id_handshake_body x) h m e = cc
  stored-count (bulk_pull_body x) h m e = cc
  stored-count (bulk_push_body x) h m e = cc
  stored-count (frontier_req_body x) h m e = cc
  stored-count (bulk_pull_account_body x) h m e = cc
  stored-count (telemetry_req_body x) h m e = cc
  stored-count (telemetry_ack_body x) h m e = cc
  stored-count (bulk_pull_blocks_body x) h m e = cc

  counts_after-small :
      (bs : Bytes) (counts : ℕ → ℕ) (n : ℕ)
      → 32 ≤ n
      → counts_after (read_nano k (k.open_stream bs)) counts n ≡ counts n
  unfolding count_type
  counts_after-small bs counts n le = elim (Outcome-cases (read_nano k (k.open_stream bs))) [
    | inr (x, e) ↦ rw e refl
    | inl ((nano, ks), e) ↦ elim (Bool-cases (stored nano.body)) [
      | inr other ↦ rw (e, other) refl
      | inl is_stored ↦
          let lt =
            Selects-count nano.header.message_type nano.body
              (read_nano-Selects k (k.open_stream bs) ks nano e)
              (stored-count nano.body is_stored) in
          let apart : (n == msg_number nano.header.message_type) ≡ false = ground arith in
          rw (e, is_stored, apart) refl
    ]
  ]

  -- Whatever a packet holds and whatever state its connection is in, its handling leaves every
  -- count from 32 on as it is: no index beyond the 32 counts is written.
  pub handle_tcp-count_bounds :
      (fuel : ℕ) (info : NanoPacket) (p : PacketHandler) (s : Session cb) (n : ℕ)
      → 32 ≤ n
      → (handle_tcp k cb env fuel info (p, s)).1.1.count_per_type n ≡ s.1.count_per_type n
  handle_tcp-count_bounds fuel info p s n le =
      ap (λ (counts : ℕ → ℕ). counts n) (handle_tcp-counts fuel info p s)
      ∙ if_both (λ (counts : ℕ → ℕ). counts n ≡ s.1.count_per_type n)
          (brings_response s.0.current_msg_type info.payload) refl
          (counts_after-small info.payload s.1.count_per_type n le)
