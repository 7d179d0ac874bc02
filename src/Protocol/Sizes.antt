-- ===== src/Protocol/Sizes.antt =====
-- The number of bytes that each class of a fixed size takes from the stream.
use nanocap.Stream.{KStream}
use nanocap.Stream.Takes.{Takes, read_bytes-Takes, bind-Takes, pure-Takes}
use nanocap.Stream.Words.{
  read_u1-Takes, read_u2le-Takes, read_u4le-Takes, read_u4be-Takes, read_u8le-Takes,
  read_u8be-Takes,
}
use nanocap.Protocol.Block.{
  read_block_send, read_block_receive, read_block_open, read_block_change, read_block_state,
}
use nanocap.Protocol.Messages.{
  read_peer, read_hash_pair, read_vote_common, read_node_id_query, read_node_id_response,
  read_msg_telemetry_ack,
}
use nanocap.Protocol.Bootstrap.{
  read_extended_parameters, read_msg_frontier_req, read_msg_bulk_pull_blocks, read_frontier_entry,
  read_frontier_balance_entry,
}

module _ (k : KStream) where
  pub read_block_send-Takes : Takes k (read_block_send k) 152
  unfolding read_block_send
  read_block_send-Takes = bind-Takes k (read_bytes-Takes k 32) λ previous.
      bind-Takes k (read_bytes-Takes k 32) λ destination.
        bind-Takes k (read_bytes-Takes k 16) λ balance.
          bind-Takes k (read_bytes-Takes k 64)
            λ signature. bind-Takes k (read_u8le-Takes k) λ work. pure-Takes k _

  pub read_block_receive-Takes : Takes k (read_block_receive k) 136
  unfolding read_block_receive
  read_block_receive-Takes = bind-Takes k (read_bytes-Takes k 32) λ previous.
      bind-Takes k (read_bytes-Takes k 32) λ source.
        bind-Takes k (read_bytes-Takes k 64)
          λ signature. bind-Takes k (read_u8le-Takes k) λ work. pure-Takes k _

  pub read_block_open-Takes : Takes k (read_block_open k) 168
  unfolding read_block_open
  read_block_open-Takes = bind-Takes k (read_bytes-Takes k 32) λ source.
      bind-Takes k (read_bytes-Takes k 32) λ representative.
        bind-Takes k (read_bytes-Takes k 32) λ account.
          bind-Takes k (read_bytes-Takes k 64)
            λ signature. bind-Takes k (read_u8le-Takes k) λ work. pure-Takes k _

  pub read_block_change-Takes : Takes k (read_block_change k) 136
  unfolding read_block_change
  read_block_change-Takes = bind-Takes k (read_bytes-Takes k 32) λ previous.
      bind-Takes k (read_bytes-Takes k 32) λ representative.
        bind-Takes k (read_bytes-Takes k 64)
          λ signature. bind-Takes k (read_u8le-Takes k) λ work. pure-Takes k _

  pub read_block_state-Takes : Takes k (read_block_state k) 216
  unfolding read_block_state
  read_block_state-Takes = bind-Takes k (read_bytes-Takes k 32) λ account.
      bind-Takes k (read_bytes-Takes k 32) λ previous.
        bind-Takes k (read_bytes-Takes k 32) λ representative.
          bind-Takes k (read_bytes-Takes k 16) λ balance.
            bind-Takes k (read_bytes-Takes k 32) λ link.
              bind-Takes k (read_bytes-Takes k 64)
                λ signature. bind-Takes k (read_u8be-Takes k) λ work. pure-Takes k _

  pub read_peer-Takes : Takes k (read_peer k) 18
  unfolding read_peer
  read_peer-Takes =
      bind-Takes k (read_bytes-Takes k 16)
        λ address. bind-Takes k (read_u2le-Takes k) λ port. pure-Takes k _

  pub read_hash_pair-Takes : Takes k (read_hash_pair k) 64
  unfolding read_hash_pair
  read_hash_pair-Takes =
      bind-Takes k (read_bytes-Takes k 32)
        λ first. bind-Takes k (read_bytes-Takes k 32) λ second. pure-Takes k _

  pub read_vote_common-Takes : Takes k (read_vote_common k) 104
  unfolding read_vote_common
  read_vote_common-Takes = bind-Takes k (read_bytes-Takes k 32) λ account.
      bind-Takes k (read_bytes-Takes k 64)
        λ signature. bind-Takes k (read_u8le-Takes k) λ sequence. pure-Takes k _

  pub read_node_id_query-Takes : Takes k (read_node_id_query k) 32
  unfolding read_node_id_query
  read_node_id_query-Takes = bind-Takes k (read_bytes-Takes k 32) λ cookie. pure-Takes k _

  pub read_node_id_response-Takes : Takes k (read_node_id_response k) 96
  unfolding read_node_id_response
  read_node_id_response-Takes =
      bind-Takes k (read_bytes-Takes k 32)
        λ account. bind-Takes k (read_bytes-Takes k 64) λ signature. pure-Takes k _

  pub read_msg_telemetry_ack-Takes : Takes k (read_msg_telemetry_ack k) 202
  unfolding read_msg_telemetry_ack
  read_msg_telemetry_ack-Takes = bind-Takes k (read_bytes-Takes k 64) λ signature.
      bind-Takes k (read_bytes-Takes k 32) λ nodeid. bind-Takes k (read_u8be-Takes k) λ blockcount.
        bind-Takes k (read_u8be-Takes k) λ cementedcount.
          bind-Takes k (read_u8be-Takes k) λ uncheckedcount.
            bind-Takes k (read_u8be-Takes k) λ accountcount.
              bind-Takes k (read_u8be-Takes k) λ bandwidthcap.
                bind-Takes k (read_u8be-Takes k) λ uptime.
                  bind-Takes k (read_u4be-Takes k) λ peercount.
                    bind-Takes k (read_u1-Takes k) λ protocolversion.
                      bind-Takes k (read_bytes-Takes k 32) λ genesisblock.
                        bind-Takes k (read_u1-Takes k) λ majorversion.
                          bind-Takes k (read_u1-Takes k) λ minorversion.
                            bind-Takes k (read_u1-Takes k) λ patchversion.
                              bind-Takes k (read_u1-Takes k) λ prereleaseversion.
                                bind-Takes k (read_u1-Takes k) λ maker.
                                  bind-Takes k (read_u8be-Takes k) λ timestamp.
                                    bind-Takes k (read_u8be-Takes k)
                                      λ activedifficulty. pure-Takes k _

  pub read_extended_parameters-Takes : Takes k (read_extended_parameters k) 8
  unfolding read_extended_parameters
  read_extended_parameters-Takes = bind-Takes k (read_u1-Takes k) λ zeros.
      bind-Takes k (read_u4le-Takes k)
        λ count. bind-Takes k (read_bytes-Takes k 3) λ reserved. pure-Takes k _

  pub read_msg_frontier_req-Takes : Takes k (read_msg_frontier_req k) 40
  unfolding read_msg_frontier_req
  read_msg_frontier_req-Takes = bind-Takes k (read_bytes-Takes k 32) λ start.
      bind-Takes k (read_u4le-Takes k)
        λ age. bind-Takes k (read_u4le-Takes k) λ count. pure-Takes k _

  pub read_msg_bulk_pull_blocks-Takes : Takes k (read_msg_bulk_pull_blocks k) 1
  unfolding read_msg_bulk_pull_blocks
  read_msg_bulk_pull_blocks-Takes = bind-Takes k (read_u1-Takes k) λ block_type. pure-Takes k _

  pub read_frontier_entry-Takes : Takes k (read_frontier_entry k) 64
  unfolding read_frontier_entry
  read_frontier_entry-Takes =
      bind-Takes k (read_bytes-Takes k 32)
        λ account. bind-Takes k (read_bytes-Takes k 32) λ frontier_hash. pure-Takes k _

  pub read_frontier_balance_entry-Takes : Takes k (read_frontier_balance_entry k) 48
  unfolding read_frontier_balance_entry
  read_frontier_balance_entry-Takes =
      bind-Takes k (read_bytes-Takes k 32)
        λ frontier_hash. bind-Takes k (read_bytes-Takes k 16) λ balance. pure-Takes k _
