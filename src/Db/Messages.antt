-- ===== src/Db/Messages.antt =====
-- `put` for the messages of the live protocol: each has a row in `packet`, and rows for its parts.
use nanocap.Prelude.{ℕ, List, [], ◌∷◌, ◌++◌, Option, some, none, length, String}
use nanocap.Stream.{Bytes}
use nanocap.Util.Text.{codes, to_hex}
use nanocap.Util.Account.{pub_to_account}
use nanocap.Flow.{NanoPacket}
use nanocap.Protocol.Header.{MessageHeader}
use nanocap.Protocol.Block.{BlockSelector}
use nanocap.Protocol.Messages.{
  MsgTelemetryReq, MsgTelemetryAck, MsgKeepalive, MsgConfirmReq, MsgConfirmAck, MsgPublish,
  MsgNodeIdHandshake, NodeIdQuery, NodeIdResponse, Peer, VoteByHash,
}
use nanocap.Db.{
  Env, Db, Value, exec, reset_statement, integer, text, as_int64, execute, call, bind_all, fetch_id,
  bind_header_fields, bind_packet_fields, packet, telemetry, host, vote, nodeid_query,
  nodeid_response,
}
use nanocap.Db.Blocks.{put_block}

abbrev pub or_empty : {A : Type 0} → Option (List A) → List A
or_empty none = []
or_empty (some xs) = xs

-- The hashes, with a comma between two of them.
unfoldable pub comma_separated : List Bytes → Bytes
comma_separated [] = []
comma_separated (h ∷ []) = to_hex h
comma_separated (h ∷ g ∷ hs) = to_hex h ++ (codes "," ++ comma_separated (g ∷ hs))

-- The columns of a vote without a block.
unfoldable pub hash_fields : List Bytes → List (String × Value)
unfolding comma_separated
hash_fields [] = (":vbh", integer 2) ∷ (":vote_count", integer 0) ∷ []
hash_fields (x ∷ xs) =
    (":vbh", integer 1)
    ∷ (":vote_count", integer (length (x ∷ xs)))
    ∷ (":hashes", text (comma_separated (x ∷ xs)))
    ∷ []

unfoldable pub vote_by_hash_fields : Option VoteByHash → List (String × Value)
unfolding hash_fields
vote_by_hash_fields none = (":vbh", integer 2) ∷ (":vote_count", integer 0) ∷ []
vote_by_hash_fields (some v) = hash_fields (or_empty v.hashes)

module _ (env : Env) where
  open env use {blake2b, address_text}

  -- The row of the packet up to its execution.
  unfoldable pub start_packet : MessageHeader → NanoPacket → ℕ → Db → Db
  unfolding bind_header_fields bind_packet_fields
  start_packet h info id db = bind_packet_fields env info (bind_header_fields env h id db)

  unfoldable pub put_telemetry_req : MessageHeader → MsgTelemetryReq → NanoPacket → Db → Db
  unfolding start_packet call
  put_telemetry_req h msg info db =
      let (packet_id, db₁) = fetch_id db in
      call (exec packet ∷ reset_statement packet ∷ []) (start_packet h info packet_id db₁)

  unfoldable pub put_telemetry_ack : MessageHeader → MsgTelemetryAck → NanoPacket → Db → Db
  unfolding start_packet call execute
  put_telemetry_ack h msg info db =
      let (packet_id, db₁) = fetch_id db in
      let db₂ = call (exec packet ∷ []) (start_packet h info packet_id db₁) in
      let (id, db₃) = fetch_id db₂ in
      let db₄ =
        execute telemetry
          ((":id", integer id)
            ∷ (":packet_id", integer packet_id)
            ∷ (":signature", text (to_hex msg.signature))
            ∷ (":nodeid", text (to_hex msg.nodeid))
            ∷ (":nodeid_as_account", text (pub_to_account blake2b msg.nodeid))
            ∷ (":blockcount", as_int64 msg.blockcount)
            ∷ (":cementedcount", as_int64 msg.cementedcount)
            ∷ (":uncheckedcount", as_int64 msg.uncheckedcount)
            ∷ (":accountcount", as_int64 msg.accountcount)
            ∷ (":bandwidthcap", as_int64 msg.bandwidthcap)
            ∷ (":uptime", as_int64 msg.uptime)
            ∷ (":peercount", integer msg.peercount)
            ∷ (":protocolversion", integer msg.protocolversion)
            ∷ (":genesisblock", text (to_hex msg.genesisblock))
            ∷ (":majorversion", integer msg.majorversion)
            ∷ (":minorversion", integer msg.minorversion)
            ∷ (":patchversion", integer msg.patchversion)
            ∷ (":prereleaseversion", integer msg.prereleaseversion)
            ∷ (":maker", integer msg.maker)
            ∷ (":timestamp", as_int64 msg.timestamp)
            ∷ (":activedifficulty", as_int64 msg.activedifficulty)
            ∷ [])
          db₃ in
      call (reset_statement packet ∷ []) db₄

  unfoldable pub put_hosts : ℕ → List Peer → Db → Db
  unfolding execute
  put_hosts packet_id [] db = db
  put_hosts packet_id (peer ∷ peers) db =
      let (id, db₁) = fetch_id db in
      put_hosts packet_id peers (
        execute host
          ((":id", integer id)
            ∷ (":packet_id", integer packet_id)
            ∷ (":address", text (address_text peer.address))
            ∷ (":port", integer peer.port)
            ∷ [])
          db₁)

  unfoldable pub put_keepalive : MessageHeader → MsgKeepalive → NanoPacket → Db → Db
  unfolding start_packet call put_hosts
  put_keepalive h msg info db =
      let (packet_id, db₁) = fetch_id db in
      let db₂ = call (exec packet ∷ []) (start_packet h info packet_id db₁) in
      call (reset_statement packet ∷ []) (put_hosts packet_id (or_empty msg.peers) db₂)

  -- The bindings of the vote that depend on what was voted on. A regular vote inserts its block.
  unfoldable pub bind_vote : Option BlockSelector → Option VoteByHash → ℕ → Db → Db
  unfolding call put_block vote_by_hash_fields
  bind_vote (some block) votebyhash packet_id db =
      let (content_id, db₁) = fetch_id db in
      let (content_table, db₂) = put_block env (some block) content_id packet_id db₁ in
      call
        (bind_all vote (
          (":content_id", integer content_id)
          ∷ (":content_table", text content_table)
          ∷ (":vote_count", integer 1)
          ∷ (":vbh", integer 0)
          ∷ []))
        db₂
  bind_vote none votebyhash packet_id db = call (bind_all vote (vote_by_hash_fields votebyhash)) db

  unfoldable pub put_confirm_ack : MessageHeader → MsgConfirmAck → NanoPacket → Db → Db
  unfolding start_packet call bind_vote execute
  put_confirm_ack h msg info db =
      let (packet_id, db₁) = fetch_id db in
      let db₂ = bind_vote msg.block msg.votebyhash packet_id (start_packet h info packet_id db₁) in
      let (vote_content_id, db₃) = fetch_id db₂ in
      let db₄ =
        execute vote
          ((":account", text (pub_to_account blake2b msg.common.account))
            ∷ (":signature", text (to_hex msg.common.signature))
            ∷ (":sequence", as_int64 msg.common.sequence)
            ∷ (":id", integer vote_content_id)
            ∷ (":packet_id", integer packet_id)
            ∷ [])
          db₃ in
      execute packet
        ((":content_id", integer vote_content_id) ∷ (":content_table", text (codes "vote")) ∷ [])
        db₄

  -- A packet whose content is a block: `confirm_req` and `publish`.
  unfoldable pub put_with_block : MessageHeader → Option BlockSelector → NanoPacket → Db → Db
  unfolding start_packet call put_block execute
  put_with_block h block info db =
      let (packet_id, db₁) = fetch_id db in
      let db₂ = start_packet h info packet_id db₁ in
      let (content_id, db₃) = fetch_id db₂ in
      let (content_table, db₄) = put_block env block content_id packet_id db₃ in
      execute packet
        ((":content_id", integer content_id) ∷ (":content_table", text content_table) ∷ []) db₄

  unfoldable pub put_confirm_req : MessageHeader → MsgConfirmReq → NanoPacket → Db → Db
  unfolding put_with_block
  put_confirm_req h msg info db = put_with_block h msg.block info db

  unfoldable pub put_publish : MessageHeader → MsgPublish → NanoPacket → Db → Db
  unfolding put_with_block
  put_publish h msg info db = put_with_block h (some msg.body) info db

  unfoldable pub put_query : ℕ → Option NodeIdQuery → Db → Db
  unfolding execute
  put_query packet_id none db = db
  put_query packet_id (some q) db =
      let (id, db₁) = fetch_id db in
      execute nodeid_query
        ((":id", integer id)
          ∷ (":packet_id", integer packet_id)
          ∷ (":cookie", text (to_hex q.cookie))
          ∷ [])
        db₁

  unfoldable pub put_response : ℕ → Option NodeIdResponse → Db → Db
  unfolding execute
  put_response packet_id none db = db
  put_response packet_id (some r) db =
      let (id, db₁) = fetch_id db in
      execute nodeid_response
        ((":id", integer id)
          ∷ (":packet_id", integer packet_id)
          ∷ (":nodeid", text (to_hex r.account))
          ∷ (":nodeid_as_account", text (pub_to_account blake2b r.account))
          ∷ (":signature", text (to_hex r.signature))
          ∷ [])
        db₁

  unfoldable pub put_node_id_handshake : MessageHeader → MsgNodeIdHandshake → NanoPacket → Db → Db
  unfolding start_packet call put_query put_response
  put_node_id_handshake h msg info db =
      let (packet_id, db₁) = fetch_id db in
      let db₂ = call (exec packet ∷ []) (start_packet h info packet_id db₁) in
      call (reset_statement packet ∷ [])
        (put_response packet_id msg.response (put_query packet_id msg.query db₂))
