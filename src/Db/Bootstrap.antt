-- ===== src/Db/Bootstrap.antt =====
-- `put` for the bootstrap requests, and for the entries of their responses. The ids of the packet
-- and of the request are kept in the state of the connection.
pub mod Invalid
use nanocap.Prelude.{
  ℕ, ◌+◌, ◌||◌, List, [], ◌∷◌, ◌++◌, Option, some, none, String, ◌==◌, if◌then◌else◌,
}
use nanocap.Stream.{Bytes}
use nanocap.Util.Text.{codes, to_hex}
use nanocap.Util.Account.{pub_to_account, balance_to_dec}
use nanocap.Flow.{NanoPacket, TcpFlowData}
use nanocap.Protocol.Enums.{flags_number}
use nanocap.Protocol.Header.{MessageHeader}
use nanocap.Protocol.Bootstrap.{
  ExtendedParameters, MsgFrontierReq, MsgBulkPull, MsgBulkPush, MsgBulkPullAccount, BulkEntry,
  FrontierEntry, FrontierBalanceEntry, BulkPullAccountEntry,
}
use nanocap.Db.{
  Env, Db, Value, exec, reset_statement, integer, text, execute, call, fetch_id, packet,
  frontier_request, frontier_response, bulk_pull_request, bulk_pull_response, bulk_push_entry,
  bulk_pull_account_request, bulk_pull_account_response, bulk_pull_account_response_entry,
  put_connection,
}
use nanocap.Db.Blocks.{put_block}
use nanocap.Db.Messages.{start_packet}

abbrev pub extended_count : Option ExtendedParameters → ℕ
extended_count none = 0
extended_count (some e) = e.count

unfoldable pub bulk_pull_row : ℕ → ℕ → Bytes → Db → Db
unfolding execute
bulk_pull_row request_id content_id content_table db =
    let (id, db₁) = fetch_id db in
    execute bulk_pull_response
      ((":id", integer id)
        ∷ (":bulk_pull_request_id", integer request_id)
        ∷ (":content_id", integer content_id)
        ∷ (":content_table", text content_table)
        ∷ [])
      db₁

unfoldable pub bulk_push_row : ℕ → ℕ → Bytes → Db → Db
unfolding execute
bulk_push_row packet_id content_id content_table db =
    let (id, db₁) = fetch_id db in
    execute bulk_push_entry
      ((":id", integer id)
        ∷ (":packet_id", integer packet_id)
        ∷ (":content_id", integer content_id)
        ∷ (":content_table", text content_table)
        ∷ [])
      db₁

-- The columns that the flags of the request ask for.
unfoldable pub account_entry_fields : ℕ → BulkPullAccountEntry → List (String × Value)
account_entry_fields request_flags entry =
    let address_only = request_flags == 1 in
    let include_address = request_flags == 2 in
    (if address_only
      then []
      else ((":hash", text (to_hex entry.hash))
          ∷ (":amount", text (balance_to_dec entry.amount))
          ∷ []))
    ++ (if address_only || include_address
        then (":source", text (to_hex entry.source)) ∷ []
        else [])

module _ (env : Env) {B : Type 0} where
  open env use {blake2b}

  unfoldable pub put_frontier_req :
      MessageHeader → MsgFrontierReq → NanoPacket → TcpFlowData B × Db → TcpFlowData B × Db
  unfolding start_packet call execute
  put_frontier_req h msg info (flow, db) =
      let (packet_id, db₁) = fetch_id db in
      let db₂ = call (exec packet ∷ []) (start_packet env h info packet_id db₁) in
      let (message_id, db₃) = fetch_id db₂ in
      let db₄ =
        execute frontier_request
          ((":id", integer message_id)
            ∷ (":packet_id", integer packet_id)
            ∷ (":start", text msg.start)
            ∷ (":age", integer msg.age)
            ∷ (":count", integer msg.count)
            ∷ [])
          db₃ in
      (
        record flow { packet_id = packet_id; message_id = message_id },
        call (reset_statement packet ∷ []) db₄,
      )

  unfoldable pub put_frontier_entry : FrontierEntry → TcpFlowData B → Db → Db
  unfolding execute
  put_frontier_entry entry flow db =
      let (id, db₁) = fetch_id db in
      execute frontier_response
        ((":id", integer id)
          ∷ (":frontier_request_id", integer flow.message_id)
          ∷ (":account", text (pub_to_account blake2b entry.account))
          ∷ (":frontier_hash", text (to_hex entry.frontier_hash))
          ∷ [])
        db₁

  unfoldable pub put_bulk_pull :
      MessageHeader → MsgBulkPull → NanoPacket → TcpFlowData B × Db → TcpFlowData B × Db
  unfolding start_packet call execute
  put_bulk_pull h msg info (flow, db) =
      let (packet_id, db₁) = fetch_id db in
      let db₂ = call (exec packet ∷ []) (start_packet env h info packet_id db₁) in
      let (message_id, db₃) = fetch_id db₂ in
      let db₄ =
        execute bulk_pull_request
          ((":id", integer message_id)
            ∷ (":packet_id", integer packet_id)
            ∷ (":start", text (pub_to_account blake2b msg.start))
            ∷ (":end", text (pub_to_account blake2b msg.end))
            ∷ (":extended_count", integer (extended_count msg.extended))
            ∷ [])
          db₃ in
      (
        record flow { packet_id = packet_id; message_id = message_id },
        call (reset_statement packet ∷ []) db₄,
      )

  -- An entry whose block went to no table counts as invalid, and the first one is an event.
  unfoldable pub note_invalid : Bytes → NanoPacket → TcpFlowData B × Db → TcpFlowData B × Db
  unfolding put_connection
  note_invalid event info (flow, db) =
      let n = flow.invalid_response_count + 1 in
      (
        record flow { invalid_response_count = n },
        if n == 1 then put_connection info event db else db,
      )

  -- The row of an entry whose block was inserted in a table.
  abbrev pub link_block :
      Bytes → (Db → Db) → Bytes → NanoPacket → TcpFlowData B × Db → TcpFlowData B × Db
  link_block [] row event info (flow, db) = note_invalid event info (flow, db)
  link_block (c ∷ cs) row event info (flow, db) = (flow, row db)

  unfoldable pub put_bulk_pull_entry :
      BulkEntry → NanoPacket → TcpFlowData B × Db → TcpFlowData B × Db
  unfolding put_block bulk_pull_row note_invalid
  put_bulk_pull_entry entry info (flow, db) =
      let (content_id, db₁) = fetch_id db in
      let (content_table, db₂) = put_block env (some entry.block) content_id flow.packet_id db₁ in
      link_block content_table (bulk_pull_row flow.message_id content_id content_table)
        (codes "first invalid bulk_pull response") info (flow, db₂)

  unfoldable pub put_bulk_push_entry :
      BulkEntry → NanoPacket → TcpFlowData B × Db → TcpFlowData B × Db
  unfolding put_block bulk_push_row note_invalid
  put_bulk_push_entry entry info (flow, db) =
      let (content_id, db₁) = fetch_id db in
      let (content_table, db₂) = put_block env (some entry.block) content_id flow.packet_id db₁ in
      link_block content_table (bulk_push_row flow.packet_id content_id content_table)
        (codes "first invalid bulk_push entry") info (flow, db₂)

  unfoldable pub put_bulk_pull_account :
      MessageHeader → MsgBulkPullAccount → NanoPacket → TcpFlowData B × Db → TcpFlowData B × Db
  unfolding start_packet call execute
  put_bulk_pull_account h msg info (flow, db) =
      let (packet_id, db₁) = fetch_id db in
      let (message_id, db₂) = fetch_id db₁ in
      let db₃ = call (exec packet ∷ []) (start_packet env h info packet_id db₂) in
      let db₄ =
        execute bulk_pull_account_request
          ((":id", integer message_id)
            ∷ (":packet_id", integer packet_id)
            ∷ (":account", text (pub_to_account blake2b msg.account))
            ∷ (":minimum_amount", text (balance_to_dec msg.minimum_amount))
            ∷ (":flags", integer (flags_number msg.flags))
            ∷ [])
          db₃ in
      (
        record flow { packet_id = packet_id; message_id = message_id },
        call (reset_statement packet ∷ []) db₄,
      )

  unfoldable pub put_frontier_balance_entry : FrontierBalanceEntry → TcpFlowData B → Db → Db
  unfolding execute
  put_frontier_balance_entry entry flow db =
      let (id, db₁) = fetch_id db in
      execute bulk_pull_account_response
        ((":id", integer id)
          ∷ (":bulk_pull_account_request_id", integer flow.message_id)
          ∷ (":frontier_hash", text (to_hex entry.frontier_hash))
          ∷ (":balance", text (balance_to_dec entry.balance))
          ∷ [])
        db₁

  unfoldable pub put_bulk_pull_account_entry : BulkPullAccountEntry → TcpFlowData B → Db → Db
  unfolding execute account_entry_fields
  put_bulk_pull_account_entry entry flow db =
      let (id, db₁) = fetch_id db in
      execute bulk_pull_account_response_entry
        ((":id", integer id)
          ∷ (":bulk_pull_account_request_id", integer flow.message_id)
          ∷ account_entry_fields flow.request_flags entry)
        db₁

  unfoldable pub put_bulk_push :
      MessageHeader → MsgBulkPush → NanoPacket → TcpFlowData B × Db → TcpFlowData B × Db
  unfolding start_packet call
  put_bulk_push h msg info (flow, db) =
      let (packet_id, db₁) = fetch_id db in
      (
        record flow { packet_id = packet_id },
        call (exec packet ∷ reset_statement packet ∷ []) (start_packet env h info packet_id db₁),
      )
