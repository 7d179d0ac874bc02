-- ===== src/Db/Ids/Bootstrap.antt =====
-- The bootstrap requests and the entries of their responses take fresh ids.
use nanocap.Prelude.{if_both, ℕ, ◌+◌, ◌≡◌, refl, arith, inl, inr, Bool-cases, [], ◌∷◌, some, ◌==◌}
use nanocap.Stream.{Bytes}
use nanocap.Flow.{NanoPacket, TcpFlowData}
use nanocap.Protocol.Header.{MessageHeader}
use nanocap.Protocol.Bootstrap.{
  MsgFrontierReq, MsgBulkPull, MsgBulkPush, MsgBulkPullAccount, BulkEntry, FrontierEntry,
  FrontierBalanceEntry, BulkPullAccountEntry,
}
use nanocap.Db.{
  Env, Db, exec, reset_statement, execute, call, packet, bulk_pull_account_response_entry, bind_all,
}
use nanocap.Db.Blocks.{put_block}
use nanocap.Db.Bootstrap.{
  bulk_pull_row, bulk_push_row, account_entry_fields, put_frontier_req, put_frontier_entry,
  put_bulk_pull, note_invalid, link_block, put_bulk_pull_entry, put_bulk_push_entry,
  put_bulk_pull_account, put_frontier_balance_entry, put_bulk_pull_account_entry, put_bulk_push,
}
use nanocap.Db.Ids.{ids, Calls-trans, Calls-none, Calls-append, ids-append, Grows, Grows-refl}
use nanocap.Db.Ids.Puts.{put_connection-Grows, put_block-Binds, after_packet}

bulk_pull_row-Grows :
    (request_id content_id : ℕ) (content_table : Bytes) (db : Db)
    → Grows db (bulk_pull_row request_id content_id content_table db)
unfolding bulk_pull_row execute call
bulk_pull_row-Grows request_id content_id content_table db =
    Calls-append _ db.calls _ _ (omega arith)

bulk_push_row-Grows :
    (packet_id content_id : ℕ) (content_table : Bytes) (db : Db)
    → Grows db (bulk_push_row packet_id content_id content_table db)
unfolding bulk_push_row execute call
bulk_push_row-Grows packet_id content_id content_table db =
    Calls-append _ db.calls _ _ (omega arith)

account_fields-ids :
    (request_flags : ℕ) (e : BulkPullAccountEntry)
    → ids (bind_all bulk_pull_account_response_entry (account_entry_fields request_flags e)) ≡ []
unfolding account_entry_fields
account_fields-ids n e = elim (Bool-cases (n == 1)) [
  | inl a ↦ rw a refl
  | inr a ↦ elim (Bool-cases (n == 2)) [ inl b ↦ rw (a, b) refl | inr b ↦ rw (a, b) refl ]
]

module _ (env : Env) {B : Type 0} where
  pub put_frontier_entry-Grows :
      (e : FrontierEntry) (flow : TcpFlowData B) (db : Db)
      → Grows db (put_frontier_entry env e flow db)
  unfolding put_frontier_entry execute call
  put_frontier_entry-Grows e flow db = Calls-append _ db.calls _ _ (omega arith)

  pub put_frontier_balance_entry-Grows :
      (e : FrontierBalanceEntry) (flow : TcpFlowData B) (db : Db)
      → Grows db (put_frontier_balance_entry env e flow db)
  unfolding put_frontier_balance_entry execute call
  put_frontier_balance_entry-Grows e flow db = Calls-append _ db.calls _ _ (omega arith)

  note_invalid-Grows :
      (event : Bytes) (info : NanoPacket) (flow : TcpFlowData B) (db : Db)
      → Grows db (note_invalid env event info (flow, db)).1
  unfolding note_invalid
  note_invalid-Grows event info flow db =
      if_both (λ (d : Db). Grows db d) (flow.invalid_response_count + 1 == 1)
        (put_connection-Grows info event db) (Grows-refl db)

  link_block-Grows :
      (content_table : Bytes) (row : Db → Db) (event : Bytes) (info : NanoPacket)
      (flow : TcpFlowData B) (db : Db)
      → Grows db (row db)
      → Grows db (link_block env content_table row event info (flow, db)).1
  link_block-Grows [] row event info flow db h = note_invalid-Grows event info flow db
  link_block-Grows (c ∷ cs) row event info flow db h = h

  pub put_frontier_req-Grows :
      (h : MessageHeader) (m : MsgFrontierReq) (info : NanoPacket) (flow : TcpFlowData B) (db : Db)
      → Grows db (put_frontier_req env h m info (flow, db)).1
  unfolding put_frontier_req execute call
  put_frontier_req-Grows h m info flow db = after_packet env h info db (db.next_id + 1) _ _ λ kept.
      Calls-trans (Calls-append _ _ (exec packet ∷ []) (db.next_id + 1) (omega arith)) (
        Calls-trans (Calls-append _ _ _ (db.next_id + 2) (omega arith))
          (Calls-append _ _ (reset_statement packet ∷ []) _ (omega arith)))

  pub put_bulk_pull-Grows :
      (h : MessageHeader) (m : MsgBulkPull) (info : NanoPacket) (flow : TcpFlowData B) (db : Db)
      → Grows db (put_bulk_pull env h m info (flow, db)).1
  unfolding put_bulk_pull execute call
  put_bulk_pull-Grows h m info flow db = after_packet env h info db (db.next_id + 1) _ _ λ kept.
      Calls-trans (Calls-append _ _ (exec packet ∷ []) (db.next_id + 1) (omega arith)) (
        Calls-trans (Calls-append _ _ _ (db.next_id + 2) (omega arith))
          (Calls-append _ _ (reset_statement packet ∷ []) _ (omega arith)))

  pub put_bulk_pull_account-Grows :
      (h : MessageHeader) (m : MsgBulkPullAccount) (info : NanoPacket) (flow : TcpFlowData B)
      (db : Db)
      → Grows db (put_bulk_pull_account env h m info (flow, db)).1
  unfolding put_bulk_pull_account execute call
  put_bulk_pull_account-Grows h m info flow db =
      after_packet env h info db (db.next_id + 1 + 1) _ _ λ kept.
        Calls-trans (Calls-append _ _ (exec packet ∷ []) (db.next_id + 1) (omega arith)) (
          Calls-trans (Calls-append _ _ _ (db.next_id + 2) (omega arith))
            (Calls-append _ _ (reset_statement packet ∷ []) _ (omega arith)))

  pub put_bulk_push-Grows :
      (h : MessageHeader) (m : MsgBulkPush) (info : NanoPacket) (flow : TcpFlowData B) (db : Db)
      → Grows db (put_bulk_push env h m info (flow, db)).1
  unfolding put_bulk_push call
  put_bulk_push-Grows h m info flow db =
      after_packet env h info db (db.next_id + 1) _ _
        λ kept. Calls-append _ _ (exec packet ∷ reset_statement packet ∷ []) _ (omega arith)

  put_entry-Grows :
      (e : BulkEntry) (row : ℕ → Bytes → Db → Db) (event : Bytes) (info : NanoPacket)
      (flow : TcpFlowData B) (db : Db)
      → ((id : ℕ) (table : Bytes) (d : Db) → Grows d (row id table d))
      → (let inserted =
            put_block env
              (some e.block)
              db.next_id
              flow.packet_id
              (record db { next_id = db.next_id + 1 }) in
          Grows db
            (link_block env inserted.0 (row db.next_id inserted.0) event info (flow, inserted.1)).1)
  put_entry-Grows e row event info flow db h =
      let taken = record db { next_id = db.next_id + 1 } in
      let inserted = put_block env (some e.block) db.next_id flow.packet_id taken in
      let block = put_block-Binds env (some e.block) db.next_id flow.packet_id taken in
      Calls-trans block.made (
        Calls-trans (Calls-none _ inserted.1.calls inserted.1.next_id (omega (arith, block.kept))) (
          link_block-Grows inserted.0 (row db.next_id inserted.0) event info flow inserted.1
            (h db.next_id inserted.0 inserted.1)))

  pub put_bulk_pull_entry-Grows :
      (e : BulkEntry) (info : NanoPacket) (flow : TcpFlowData B) (db : Db)
      → Grows db (put_bulk_pull_entry env e info (flow, db)).1
  unfolding put_bulk_pull_entry
  put_bulk_pull_entry-Grows e info flow db =
      put_entry-Grows e (bulk_pull_row flow.message_id) _ info flow db
        (bulk_pull_row-Grows flow.message_id)

  pub put_bulk_push_entry-Grows :
      (e : BulkEntry) (info : NanoPacket) (flow : TcpFlowData B) (db : Db)
      → Grows db (put_bulk_push_entry env e info (flow, db)).1
  unfolding put_bulk_push_entry
  put_bulk_push_entry-Grows e info flow db =
      put_entry-Grows e (bulk_push_row flow.packet_id) _ info flow db
        (bulk_push_row-Grows flow.packet_id)

  pub put_bulk_pull_account_entry-Grows :
      (e : BulkPullAccountEntry) (flow : TcpFlowData B) (db : Db)
      → Grows db (put_bulk_pull_account_entry env e flow db)
  unfolding put_bulk_pull_account_entry execute call
  put_bulk_pull_account_entry-Grows e flow db =
      let entry =
        bind_all bulk_pull_account_response_entry (account_entry_fields flow.request_flags e) in
      Calls-append _ db.calls _ _ (
        rw
          (
            ids-append entry (
                exec bulk_pull_account_response_entry
                ∷ reset_statement bulk_pull_account_response_entry
                ∷ []),
            account_fields-ids flow.request_flags e,
          )
          (omega arith))
