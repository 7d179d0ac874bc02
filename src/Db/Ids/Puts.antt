-- ===== src/Db/Ids/Puts.antt =====
-- The messages of the live protocol take fresh ids.
use nanocap.Prelude.{
  if_both, ℕ, suc, ◌+◌, ◌≡◌, ◌%◌, refl, arith, List, [], ◌∷◌, Option, none, some, ◌==◌,
}
use nanocap.Stream.{Bytes}
use nanocap.Flow.{NanoPacket}
use nanocap.Protocol.Header.{MessageHeader}
use nanocap.Protocol.Block.{
  Block, BlockSelector, block_state, block_send, block_receive, block_open, block_change,
  block_ignored,
}
use nanocap.Protocol.Messages.{
  Peer, VoteByHash, NodeIdQuery, NodeIdResponse, MsgKeepalive, MsgConfirmAck, MsgConfirmReq,
  MsgPublish, MsgNodeIdHandshake, MsgTelemetryReq, MsgTelemetryAck,
}
use nanocap.Db.{
  Env, Db, SqlCall, exec, reset_statement, packet, vote, call, execute, flush_internal, commit,
  begin_transaction, check_size, bind_header_fields, bind_packet_fields, bind_all, time_binding,
  put_connection,
}
use nanocap.Db.Blocks.{put_block, insert_block}
use nanocap.Db.Messages.{
  start_packet, put_hosts, or_empty, bind_vote, vote_by_hash_fields, hash_fields, put_with_block,
  put_query, put_response, put_keepalive, put_confirm_ack, put_confirm_req, put_publish,
  put_node_id_handshake, put_telemetry_req, put_telemetry_ack,
}
use nanocap.Db.Ids.{
  ids, Calls, Calls-trans, Calls-none, Calls-append, Binds, Binds-trans, Binds-none, call-Binds,
  Grows, Grows-refl,
}

pub put_connection-Grows :
    (info : NanoPacket) (event : Bytes) (db : Db) → Grows db (put_connection info event db)
unfolding put_connection execute call
put_connection-Grows info event db = Calls-append _ db.calls _ _ (omega arith)

hash_fields-ids : (hs : List Bytes) → ids (bind_all vote (hash_fields hs)) ≡ []
unfolding hash_fields
hash_fields-ids [] = refl
hash_fields-ids (h ∷ hs) = refl

module _ (env : Env) where
  time_binding-ids : (t : Option Bytes) → ids (bind_all packet (time_binding env t)) ≡ []
  time_binding-ids none = refl
  time_binding-ids (some t) = refl

  check_size-Binds : (lo : ℕ) (db : Db) → Binds lo db (check_size env db) lo
  unfolding check_size flush_internal call
  check_size-Binds lo db =
      let flushed = Calls-append lo db.calls (commit ∷ begin_transaction ∷ []) lo (omega arith) in
      if_both (λ d. Binds lo db d lo) _ (record { made = flushed; kept = refl })
        (record { made = flushed; kept = refl })

  packet_fields-Binds :
      (lo : ℕ) (info : NanoPacket) (db : Db) → Binds lo db (bind_packet_fields env info db) lo
  unfolding bind_packet_fields
  packet_fields-Binds lo info db =
      call-Binds lo _ db lo (rw (time_binding-ids (env.time_string info.timestamp)) (omega arith))

  header_fields-Binds :
      (h : MessageHeader) (id : ℕ) (db : Db) → Binds id db (bind_header_fields env h id db) (suc id)
  unfolding bind_header_fields call
  header_fields-Binds h id db =
      let sized =
        if_both (λ d. Binds id db d id) (db.next_id % 10000 == 0) (check_size-Binds id db)
          (Binds-none id db id (omega arith)) in
      record {
        made = Calls-trans sized.made (Calls-append id _ _ (suc id) (omega arith));
        kept = sized.kept;
      }

  -- The row of a packet binds the id that it is given.
  pub start_packet-Binds :
      (h : MessageHeader) (info : NanoPacket) (id : ℕ) (db : Db)
      → Binds id db (start_packet env h info id db) (suc id)
  unfolding start_packet
  start_packet-Binds h info id db =
      Binds-trans (header_fields-Binds h id db) (packet_fields-Binds (suc id) info _)

  insert_block-Binds :
      (b : Block) (id packet_id : ℕ) (db : Db)
      → Binds id db (insert_block env b id packet_id db) (suc id)
  unfolding insert_block execute
  insert_block-Binds (block_state b) id packet_id db = call-Binds id _ db (suc id) (omega arith)
  insert_block-Binds (block_send b) id packet_id db = call-Binds id _ db (suc id) (omega arith)
  insert_block-Binds (block_receive b) id packet_id db = call-Binds id _ db (suc id) (omega arith)
  insert_block-Binds (block_open b) id packet_id db = call-Binds id _ db (suc id) (omega arith)
  insert_block-Binds (block_change b) id packet_id db = call-Binds id _ db (suc id) (omega arith)
  insert_block-Binds (block_ignored b) id packet_id db = Binds-none id db (suc id) (omega arith)

  pub put_block-Binds :
      (b : Option BlockSelector) (id packet_id : ℕ) (db : Db)
      → Binds id db (put_block env b id packet_id db).1 (suc id)
  unfolding put_block
  put_block-Binds none id packet_id db = Binds-none id db (suc id) (omega arith)
  put_block-Binds (some b) id packet_id db =
      if_both (λ (r : Bytes × Db). Binds id db r.1 (suc id)) env.config.block_details
        (insert_block-Binds b.block id packet_id db) (Binds-none id db (suc id) (omega arith))

  -- A packet takes the next id, and what follows its row takes ids above that.
  pub after_packet :
      (h : MessageHeader) (info : NanoPacket) (db : Db) (n : ℕ) (calls : List SqlCall) (hi : ℕ)
      → (let started = start_packet env h info db.next_id (record db { next_id = n }) in
          started.next_id ≡ n → Calls (suc db.next_id) started.calls calls hi)
      → Calls db.next_id db.calls calls hi
  after_packet h info db n calls hi rest =
      let row = start_packet-Binds h info db.next_id (record db { next_id = n }) in
      Calls-trans row.made (rest row.kept)

  pub put_telemetry_req-Grows :
      (h : MessageHeader) (m : MsgTelemetryReq) (info : NanoPacket) (db : Db)
      → Grows db (put_telemetry_req env h m info db)
  unfolding put_telemetry_req call
  put_telemetry_req-Grows h m info db =
      after_packet h info db (db.next_id + 1) _ _ λ kept. Calls-append _ _ _ _ (omega arith)

  pub put_telemetry_ack-Grows :
      (h : MessageHeader) (m : MsgTelemetryAck) (info : NanoPacket) (db : Db)
      → Grows db (put_telemetry_ack env h m info db)
  unfolding put_telemetry_ack execute call
  put_telemetry_ack-Grows h m info db = after_packet h info db (db.next_id + 1) _ _ λ kept.
      Calls-trans (Calls-append _ _ (exec packet ∷ []) (db.next_id + 1) (omega arith)) (
        Calls-trans (Calls-append _ _ _ (db.next_id + 2) (omega arith))
          (Calls-append _ _ (reset_statement packet ∷ []) _ (omega arith)))

  put_hosts-Grows :
      (packet_id : ℕ) (peers : List Peer) (db : Db) → Grows db (put_hosts env packet_id peers db)
  unfolding put_hosts execute call
  put_hosts-Grows packet_id [] db = Grows-refl db
  put_hosts-Grows packet_id (p ∷ ps) db =
      Calls-trans (Calls-append db.next_id db.calls _ (db.next_id + 1) (omega arith))
        (put_hosts-Grows packet_id ps _)

  pub put_keepalive-Grows :
      (h : MessageHeader) (m : MsgKeepalive) (info : NanoPacket) (db : Db)
      → Grows db (put_keepalive env h m info db)
  unfolding put_keepalive call
  put_keepalive-Grows h m info db = after_packet h info db (db.next_id + 1) _ _ λ kept.
      Calls-trans (Calls-append _ _ (exec packet ∷ []) _ (omega arith)) (
        Calls-trans (put_hosts-Grows db.next_id (or_empty m.peers) _)
          (Calls-append _ _ (reset_statement packet ∷ []) _ (omega arith)))

  vote_fields-ids : (v : Option VoteByHash) → ids (bind_all vote (vote_by_hash_fields v)) ≡ []
  unfolding vote_by_hash_fields
  vote_fields-ids none = refl
  vote_fields-ids (some v) = hash_fields-ids (or_empty v.hashes)

  bind_vote-Grows :
      (b : Option BlockSelector) (v : Option VoteByHash) (packet_id : ℕ) (db : Db)
      → Grows db (bind_vote env b v packet_id db)
  unfolding bind_vote call
  bind_vote-Grows (some b) v packet_id db =
      let block =
        put_block-Binds (some b) db.next_id packet_id (record db { next_id = db.next_id + 1 }) in
      Calls-trans block.made (Calls-append _ _ _ _ (omega (arith, block.kept)))
  bind_vote-Grows none v packet_id db = Calls-append _ _ _ _ (rw (vote_fields-ids v) (omega arith))

  pub put_confirm_ack-Grows :
      (h : MessageHeader) (m : MsgConfirmAck) (info : NanoPacket) (db : Db)
      → Grows db (put_confirm_ack env h m info db)
  unfolding put_confirm_ack execute call
  put_confirm_ack-Grows h m info db = after_packet h info db (db.next_id + 1) _ _ λ kept.
      let started = start_packet env h info db.next_id (record db { next_id = db.next_id + 1 }) in
      let voted = bind_vote env m.block m.votebyhash db.next_id started in
      Calls-trans (Calls-none _ started.calls started.next_id (omega arith)) (
        Calls-trans (bind_vote-Grows m.block m.votebyhash db.next_id started) (
          Calls-trans (Calls-append _ _ _ (voted.next_id + 1) (omega arith))
            (Calls-append _ _ _ _ (omega arith))))

  put_with_block-Grows :
      (h : MessageHeader) (b : Option BlockSelector) (info : NanoPacket) (db : Db)
      → Grows db (put_with_block env h b info db)
  unfolding put_with_block execute call
  put_with_block-Grows h b info db = after_packet h info db (db.next_id + 1) _ _ λ kept.
      let started = start_packet env h info db.next_id (record db { next_id = db.next_id + 1 }) in
      let block =
        put_block-Binds b started.next_id db.next_id
          (record started { next_id = started.next_id + 1 }) in
      Calls-trans (Calls-none _ started.calls started.next_id (omega arith))
        (Calls-trans block.made (Calls-append _ _ _ _ (omega (arith, block.kept))))

  pub put_confirm_req-Grows :
      (h : MessageHeader) (m : MsgConfirmReq) (info : NanoPacket) (db : Db)
      → Grows db (put_confirm_req env h m info db)
  unfolding put_confirm_req
  put_confirm_req-Grows h m info db = put_with_block-Grows h m.block info db

  pub put_publish-Grows :
      (h : MessageHeader) (m : MsgPublish) (info : NanoPacket) (db : Db)
      → Grows db (put_publish env h m info db)
  unfolding put_publish
  put_publish-Grows h m info db = put_with_block-Grows h (some m.body) info db

  put_query-Grows :
      (packet_id : ℕ) (q : Option NodeIdQuery) (db : Db) → Grows db (put_query env packet_id q db)
  unfolding put_query execute call
  put_query-Grows packet_id none db = Grows-refl db
  put_query-Grows packet_id (some q) db = Calls-append _ db.calls _ _ (omega arith)

  put_response-Grows :
      (packet_id : ℕ) (r : Option NodeIdResponse) (db : Db)
      → Grows db (put_response env packet_id r db)
  unfolding put_response execute call
  put_response-Grows packet_id none db = Grows-refl db
  put_response-Grows packet_id (some r) db = Calls-append _ db.calls _ _ (omega arith)

  pub put_node_id_handshake-Grows :
      (h : MessageHeader) (m : MsgNodeIdHandshake) (info : NanoPacket) (db : Db)
      → Grows db (put_node_id_handshake env h m info db)
  unfolding put_node_id_handshake call
  put_node_id_handshake-Grows h m info db = after_packet h info db (db.next_id + 1) _ _ λ kept.
      Calls-trans (Calls-append _ _ (exec packet ∷ []) _ (omega arith)) (
        Calls-trans (put_query-Grows db.next_id m.query _) (
          Calls-trans (put_response-Grows db.next_id m.response _)
            (Calls-append _ _ (reset_statement packet ∷ []) _ (omega arith))))
