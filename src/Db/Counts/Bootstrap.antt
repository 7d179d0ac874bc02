-- ===== src/Db/Counts/Bootstrap.antt =====
-- The counts per message type: bootstrap requests are counted, the entries of responses are not.
use nanocap.Prelude.{if_both, ℕ, ◌+◌, refl, ◌∙◌, [], ◌∷◌, some, ◌==◌}
use nanocap.Stream.{Bytes}
use nanocap.Flow.{NanoPacket, TcpFlowData}
use nanocap.Protocol.Header.{MessageHeader}
use nanocap.Protocol.Bootstrap.{
  MsgFrontierReq, MsgBulkPull, MsgBulkPush, MsgBulkPullAccount, BulkEntry, FrontierEntry,
  FrontierBalanceEntry, BulkPullAccountEntry,
}
use nanocap.Db.{Env, Db, execute, call}
use nanocap.Db.Blocks.{put_block}
use nanocap.Db.Bootstrap.{
  bulk_pull_row, bulk_push_row, put_frontier_req, put_frontier_entry, put_bulk_pull, note_invalid,
  link_block, put_bulk_pull_entry, put_bulk_push_entry, put_bulk_pull_account,
  put_frontier_balance_entry, put_bulk_pull_account_entry, put_bulk_push,
}
use nanocap.Db.Counts.{Same, Counted, put_connection-Same, start_packet-Counted, put_block-Same}

module _ (env : Env) {B : Type 0} where
  pub put_frontier_entry-Same :
      (e : FrontierEntry) (flow : TcpFlowData B) (db : Db)
      → Same db (put_frontier_entry env e flow db)
  unfolding put_frontier_entry execute call
  put_frontier_entry-Same e flow db = refl

  pub put_frontier_balance_entry-Same :
      (e : FrontierBalanceEntry) (flow : TcpFlowData B) (db : Db)
      → Same db (put_frontier_balance_entry env e flow db)
  unfolding put_frontier_balance_entry execute call
  put_frontier_balance_entry-Same e flow db = refl

  pub put_bulk_pull_account_entry-Same :
      (e : BulkPullAccountEntry) (flow : TcpFlowData B) (db : Db)
      → Same db (put_bulk_pull_account_entry env e flow db)
  unfolding put_bulk_pull_account_entry execute call
  put_bulk_pull_account_entry-Same e flow db = refl

  link_block-Same :
      (content_table : Bytes) (row : Db → Db) (event : Bytes) (info : NanoPacket)
      (flow : TcpFlowData B) (db : Db)
      → Same db (row db)
      → Same db (link_block env content_table row event info (flow, db)).1
  unfolding note_invalid
  link_block-Same [] row event info flow db h =
      if_both (λ (d : Db). Same db d) (flow.invalid_response_count + 1 == 1)
        (put_connection-Same info event db) refl
  link_block-Same (c ∷ cs) row event info flow db h = h

  put_entry-Same :
      (e : BulkEntry) (row : ℕ → Bytes → Db → Db) (event : Bytes) (info : NanoPacket)
      (flow : TcpFlowData B) (db : Db)
      → ((id : ℕ) (table : Bytes) (d : Db) → Same d (row id table d))
      → (let inserted =
            put_block env
              (some e.block)
              db.next_id
              flow.packet_id
              (record db { next_id = db.next_id + 1 }) in
          Same db
            (link_block env inserted.0 (row db.next_id inserted.0) event info (flow, inserted.1)).1)
  put_entry-Same e row event info flow db h =
      let taken = record db { next_id = db.next_id + 1 } in
      let inserted = put_block env (some e.block) db.next_id flow.packet_id taken in
      link_block-Same inserted.0 (row db.next_id inserted.0) event info flow inserted.1
        (h db.next_id inserted.0 inserted.1)
      ∙ put_block-Same env (some e.block) db.next_id flow.packet_id taken

  pub put_bulk_pull_entry-Same :
      (e : BulkEntry) (info : NanoPacket) (flow : TcpFlowData B) (db : Db)
      → Same db (put_bulk_pull_entry env e info (flow, db)).1
  unfolding put_bulk_pull_entry bulk_pull_row execute call
  put_bulk_pull_entry-Same e info flow db =
      put_entry-Same e (bulk_pull_row flow.message_id) _ info flow db λ id table d. refl

  pub put_bulk_push_entry-Same :
      (e : BulkEntry) (info : NanoPacket) (flow : TcpFlowData B) (db : Db)
      → Same db (put_bulk_push_entry env e info (flow, db)).1
  unfolding put_bulk_push_entry bulk_push_row execute call
  put_bulk_push_entry-Same e info flow db =
      put_entry-Same e (bulk_push_row flow.packet_id) _ info flow db λ id table d. refl

  pub put_frontier_req-Counted :
      (h : MessageHeader) (m : MsgFrontierReq) (info : NanoPacket) (flow : TcpFlowData B) (db : Db)
      → Counted h db (put_frontier_req env h m info (flow, db)).1
  unfolding put_frontier_req execute call
  put_frontier_req-Counted h m info flow db = start_packet-Counted env h info db.next_id _

  pub put_bulk_pull-Counted :
      (h : MessageHeader) (m : MsgBulkPull) (info : NanoPacket) (flow : TcpFlowData B) (db : Db)
      → Counted h db (put_bulk_pull env h m info (flow, db)).1
  unfolding put_bulk_pull execute call
  put_bulk_pull-Counted h m info flow db = start_packet-Counted env h info db.next_id _

  pub put_bulk_pull_account-Counted :
      (h : MessageHeader) (m : MsgBulkPullAccount) (info : NanoPacket) (flow : TcpFlowData B)
      (db : Db)
      → Counted h db (put_bulk_pull_account env h m info (flow, db)).1
  unfolding put_bulk_pull_account execute call
  put_bulk_pull_account-Counted h m info flow db = start_packet-Counted env h info db.next_id _

  pub put_bulk_push-Counted :
      (h : MessageHeader) (m : MsgBulkPush) (info : NanoPacket) (flow : TcpFlowData B) (db : Db)
      → Counted h db (put_bulk_push env h m info (flow, db)).1
  unfolding put_bulk_push call
  put_bulk_push-Counted h m info flow db = start_packet-Counted env h info db.next_id _
