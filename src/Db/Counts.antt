-- ===== src/Db/Counts.antt =====
-- The counts per message type: which puts count a message.
pub mod Bootstrap
use nanocap.Prelude.{
  if_both, ℕ, ◌+◌, ◌≡◌, refl, ◌∙◌, sym, ap, subst, List, [], ◌∷◌, Option, none, some, ◌%◌, ◌==◌,
}
use nanocap.Stream.{Bytes}
use nanocap.Flow.{NanoPacket}
use nanocap.Protocol.Header.{MessageHeader}
use nanocap.Protocol.Block.{
  Block, BlockSelector, block_state, block_send, block_receive, block_open, block_change,
  block_ignored,
}
use nanocap.Protocol.Messages.{
  Peer, VoteByHash, NodeIdQuery, NodeIdResponse, MsgKeepalive, MsgConfirmAck, MsgConfirmReq,
  MsgPublish, MsgNodeIdHandshake, MsgTelemetryReq, MsgTelemetryAck,
}
use nanocap.Db.{
  Env, Db, call, execute, flush_internal, check_size, count_type, bind_header_fields,
  bind_packet_fields, put_connection,
}
use nanocap.Db.Blocks.{put_block, insert_block}
use nanocap.Db.Messages.{
  start_packet, put_hosts, or_empty, bind_vote, put_with_block, put_query, put_response,
  put_keepalive, put_confirm_ack, put_confirm_req, put_publish, put_node_id_handshake,
  put_telemetry_req, put_telemetry_ack,
}

-- The counts stay.
abbrev pub Same : Db → Db → Type 0
Same db db' = db'.count_per_type ≡ db.count_per_type

-- The message of a header is counted, once.
abbrev pub Counted : MessageHeader → Db → Db → Type 0
Counted h db db' = db'.count_per_type ≡ count_type h.message_type db.count_per_type

pub put_connection-Same :
    (info : NanoPacket) (event : Bytes) (db : Db) → Same db (put_connection info event db)
unfolding put_connection execute call
put_connection-Same info event db = refl

module _ (env : Env) where
  check_size-Same : (db : Db) → Same db (check_size env db)
  unfolding check_size flush_internal call
  check_size-Same db = if_both (λ d. Same db d) _ refl refl

  pub start_packet-Counted :
      (h : MessageHeader) (info : NanoPacket) (id : ℕ) (db : Db)
      → Counted h db (start_packet env h info id db)
  unfolding start_packet bind_header_fields bind_packet_fields call
  start_packet-Counted h info id db =
      ap (count_type h.message_type)
        (if_both (λ d. Same db d) (db.next_id % 10000 == 0) (check_size-Same db) refl)

  insert_block-Same :
      (b : Block) (id packet_id : ℕ) (db : Db) → Same db (insert_block env b id packet_id db)
  unfolding insert_block execute call
  insert_block-Same (block_state b) id packet_id db = refl
  insert_block-Same (block_send b) id packet_id db = refl
  insert_block-Same (block_receive b) id packet_id db = refl
  insert_block-Same (block_open b) id packet_id db = refl
  insert_block-Same (block_change b) id packet_id db = refl
  insert_block-Same (block_ignored b) id packet_id db = refl

  pub put_block-Same :
      (b : Option BlockSelector) (id packet_id : ℕ) (db : Db)
      → Same db (put_block env b id packet_id db).1
  unfolding put_block
  put_block-Same none id packet_id db = refl
  put_block-Same (some b) id packet_id db =
      if_both (λ (r : Bytes × Db). Same db r.1) env.config.block_details
        (insert_block-Same b.block id packet_id db) refl

  pub put_telemetry_req-Counted :
      (h : MessageHeader) (m : MsgTelemetryReq) (info : NanoPacket) (db : Db)
      → Counted h db (put_telemetry_req env h m info db)
  unfolding put_telemetry_req call
  put_telemetry_req-Counted h m info db = start_packet-Counted h info db.next_id _

  pub put_telemetry_ack-Counted :
      (h : MessageHeader) (m : MsgTelemetryAck) (info : NanoPacket) (db : Db)
      → Counted h db (put_telemetry_ack env h m info db)
  unfolding put_telemetry_ack execute call
  put_telemetry_ack-Counted h m info db = start_packet-Counted h info db.next_id _

  put_hosts-Same :
      (packet_id : ℕ) (peers : List Peer) (db : Db) → Same db (put_hosts env packet_id peers db)
  unfolding put_hosts execute call
  put_hosts-Same packet_id [] db = refl
  put_hosts-Same packet_id (p ∷ ps) db = put_hosts-Same packet_id ps _

  pub put_keepalive-Counted :
      (h : MessageHeader) (m : MsgKeepalive) (info : NanoPacket) (db : Db)
      → Counted h db (put_keepalive env h m info db)
  unfolding put_keepalive call
  put_keepalive-Counted h m info db =
      put_hosts-Same db.next_id (or_empty m.peers) _ ∙ start_packet-Counted h info db.next_id _

  bind_vote-Same :
      (b : Option BlockSelector) (v : Option VoteByHash) (packet_id : ℕ) (db : Db)
      → Same db (bind_vote env b v packet_id db)
  unfolding bind_vote call
  bind_vote-Same (some b) v packet_id db = put_block-Same (some b) _ packet_id _
  bind_vote-Same none v packet_id db = refl

  pub put_confirm_ack-Counted :
      (h : MessageHeader) (m : MsgConfirmAck) (info : NanoPacket) (db : Db)
      → Counted h db (put_confirm_ack env h m info db)
  unfolding put_confirm_ack execute call
  put_confirm_ack-Counted h m info db =
      bind_vote-Same m.block m.votebyhash db.next_id _ ∙ start_packet-Counted h info db.next_id _

  put_with_block-Counted :
      (h : MessageHeader) (b : Option BlockSelector) (info : NanoPacket) (db : Db)
      → Counted h db (put_with_block env h b info db)
  unfolding put_with_block execute call
  put_with_block-Counted h b info db =
      let started = start_packet env h info db.next_id (record db { next_id = db.next_id + 1 }) in
      put_block-Same b started.next_id db.next_id (record started { next_id = started.next_id + 1 })
      ∙ start_packet-Counted h info db.next_id (record db { next_id = db.next_id + 1 })

  pub put_confirm_req-Counted :
      (h : MessageHeader) (m : MsgConfirmReq) (info : NanoPacket) (db : Db)
      → Counted h db (put_confirm_req env h m info db)
  unfolding put_confirm_req
  put_confirm_req-Counted h m info db = put_with_block-Counted h m.block info db

  pub put_publish-Counted :
      (h : MessageHeader) (m : MsgPublish) (info : NanoPacket) (db : Db)
      → Counted h db (put_publish env h m info db)
  unfolding put_publish
  put_publish-Counted h m info db = put_with_block-Counted h (some m.body) info db

  put_query-Same :
      (packet_id : ℕ) (q : Option NodeIdQuery) (db : Db) → Same db (put_query env packet_id q db)
  unfolding put_query execute call
  put_query-Same packet_id none db = refl
  put_query-Same packet_id (some q) db = refl

  put_response-Same :
      (packet_id : ℕ) (r : Option NodeIdResponse) (db : Db)
      → Same db (put_response env packet_id r db)
  unfolding put_response execute call
  put_response-Same packet_id none db = refl
  put_response-Same packet_id (some r) db = refl

  pub put_node_id_handshake-Counted :
      (h : MessageHeader) (m : MsgNodeIdHandshake) (info : NanoPacket) (db : Db)
      → Counted h db (put_node_id_handshake env h m info db)
  unfolding put_node_id_handshake call
  put_node_id_handshake-Counted h m info db =
      put_response-Same db.next_id m.response _
      ∙ put_query-Same db.next_id m.query _
      ∙ start_packet-Counted h info db.next_id _
