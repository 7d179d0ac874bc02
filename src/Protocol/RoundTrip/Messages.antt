-- ===== src/Protocol/RoundTrip/Messages.antt =====
-- Reading back what the wire format writes: the classes of Protocol/Messages.antt of a fixed size.
use nanocap.Stream.{KStream}
use nanocap.Stream.Decodes.{Decodes, bytes-Decodes, bind-Decodes, pure-Decodes}
use nanocap.Stream.Words.{
  read_u1-Decodes, read_u2le-Decodes, read_u4be-Decodes, read_u8be-Decodes, read_u8le-Decodes,
}
use nanocap.Protocol.Messages.{
  Peer, read_peer, HashPair, read_hash_pair, VoteCommon, read_vote_common, NodeIdQuery,
  read_node_id_query, NodeIdResponse, read_node_id_response, MsgTelemetryAck,
  read_msg_telemetry_ack,
}
use nanocap.Protocol.Encode.{
  IsPeer, encode_peer, IsHashPair, encode_hash_pair, IsVoteCommon, encode_vote_common,
  IsNodeIdQuery, encode_node_id_query, IsNodeIdResponse, encode_node_id_response, IsMsgTelemetryAck,
  encode_msg_telemetry_ack,
}

module _ (k : KStream) where
  pub read_peer-Decodes : (v : Peer) → IsPeer v → Decodes k (read_peer k) v (encode_peer v)
  unfolding read_peer
  read_peer-Decodes v h =
      bind-Decodes k _ (bytes-Decodes k 16 v.address h.address_ok)
        (bind-Decodes k _ (read_u2le-Decodes k v.port h.port_ok) (pure-Decodes k v))

  pub read_hash_pair-Decodes :
      (v : HashPair) → IsHashPair v → Decodes k (read_hash_pair k) v (encode_hash_pair v)
  unfolding read_hash_pair
  read_hash_pair-Decodes v h =
      bind-Decodes k _ (bytes-Decodes k 32 v.first h.first_ok)
        (bind-Decodes k _ (bytes-Decodes k 32 v.second h.second_ok) (pure-Decodes k v))

  pub read_vote_common-Decodes :
      (v : VoteCommon) → IsVoteCommon v → Decodes k (read_vote_common k) v (encode_vote_common v)
  unfolding read_vote_common
  read_vote_common-Decodes v h = bind-Decodes k _ (bytes-Decodes k 32 v.account h.account_ok) (
      bind-Decodes k _ (bytes-Decodes k 64 v.signature h.signature_ok)
        (bind-Decodes k _ (read_u8le-Decodes k v.sequence h.sequence_ok) (pure-Decodes k v)))

  pub read_node_id_query-Decodes :
      (v : NodeIdQuery)
      → IsNodeIdQuery v
      → Decodes k (read_node_id_query k) v (encode_node_id_query v)
  unfolding read_node_id_query
  read_node_id_query-Decodes v h =
      bind-Decodes k _ (bytes-Decodes k 32 v.cookie h.cookie_ok) (pure-Decodes k v)

  pub read_node_id_response-Decodes :
      (v : NodeIdResponse)
      → IsNodeIdResponse v
      → Decodes k (read_node_id_response k) v (encode_node_id_response v)
  unfolding read_node_id_response
  read_node_id_response-Decodes v h =
      bind-Decodes k _ (bytes-Decodes k 32 v.account h.account_ok)
        (bind-Decodes k _ (bytes-Decodes k 64 v.signature h.signature_ok) (pure-Decodes k v))

  pub read_msg_telemetry_ack-Decodes :
      (v : MsgTelemetryAck)
      → IsMsgTelemetryAck v
      → Decodes k (read_msg_telemetry_ack k) v (encode_msg_telemetry_ack v)
  unfolding read_msg_telemetry_ack
  read_msg_telemetry_ack-Decodes v h =
      bind-Decodes k _ (bytes-Decodes k 64 v.signature h.signature_ok) (
        bind-Decodes k _ (bytes-Decodes k 32 v.nodeid h.nodeid_ok) (
          bind-Decodes k _ (read_u8be-Decodes k v.blockcount h.blockcount_ok) (
            bind-Decodes k _ (read_u8be-Decodes k v.cementedcount h.cementedcount_ok) (
              bind-Decodes k _ (read_u8be-Decodes k v.uncheckedcount h.uncheckedcount_ok) (
                bind-Decodes k _ (read_u8be-Decodes k v.accountcount h.accountcount_ok) (
                  bind-Decodes k _ (read_u8be-Decodes k v.bandwidthcap h.bandwidthcap_ok) (
                    bind-Decodes k _ (read_u8be-Decodes k v.uptime h.uptime_ok) (
                      bind-Decodes k _ (read_u4be-Decodes k v.peercount h.peercount_ok) (
                        bind-Decodes k _ (read_u1-Decodes k v.protocolversion h.protocolversion_ok)
                          (bind-Decodes k _ (bytes-Decodes k 32 v.genesisblock h.genesisblock_ok) (
                            bind-Decodes k _ (read_u1-Decodes k v.majorversion h.majorversion_ok) (
                              bind-Decodes k _ (read_u1-Decodes k v.minorversion h.minorversion_ok)
                                (bind-Decodes k _
                                  (read_u1-Decodes k v.patchversion h.patchversion_ok)
                                  (bind-Decodes k _
                                    (read_u1-Decodes k v.prereleaseversion h.prereleaseversion_ok)
                                    (bind-Decodes k _ (read_u1-Decodes k v.maker h.maker_ok) (
                                      bind-Decodes k _
                                        (read_u8be-Decodes k v.timestamp h.timestamp_ok)
                                        (bind-Decodes k _
                                          (read_u8be-Decodes k v.activedifficulty
                                            h.activedifficulty_ok)
                                          (pure-Decodes k v))))))))))))))))))
