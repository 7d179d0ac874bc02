-- ===== src/Protocol/RoundTrip/Bootstrap.antt =====
-- Reading back what the wire format writes: the classes of Protocol/Bootstrap.antt of a fixed size.
use nanocap.Stream.{KStream}
use nanocap.Stream.Decodes.{Decodes, bytes-Decodes, bind-Decodes, pure-Decodes}
use nanocap.Stream.Words.{read_u1-Decodes, read_u4le-Decodes}
use nanocap.Protocol.Bootstrap.{
  ExtendedParameters, read_extended_parameters, MsgFrontierReq, read_msg_frontier_req,
  MsgBulkPullBlocks, read_msg_bulk_pull_blocks, FrontierEntry, read_frontier_entry,
  FrontierBalanceEntry, read_frontier_balance_entry,
}
use nanocap.Protocol.Encode.{
  IsExtendedParameters, encode_extended_parameters, IsMsgFrontierReq, encode_msg_frontier_req,
  IsMsgBulkPullBlocks, encode_msg_bulk_pull_blocks, IsFrontierEntry, encode_frontier_entry,
  IsFrontierBalanceEntry, encode_frontier_balance_entry,
}

module _ (k : KStream) where
  pub read_extended_parameters-Decodes :
      (v : ExtendedParameters)
      → IsExtendedParameters v
      → Decodes k (read_extended_parameters k) v (encode_extended_parameters v)
  unfolding read_extended_parameters
  read_extended_parameters-Decodes v h = bind-Decodes k _ (read_u1-Decodes k v.zeros h.zeros_ok) (
      bind-Decodes k _ (read_u4le-Decodes k v.count h.count_ok)
        (bind-Decodes k _ (bytes-Decodes k 3 v.reserved h.reserved_ok) (pure-Decodes k v)))

  pub read_msg_frontier_req-Decodes :
      (v : MsgFrontierReq)
      → IsMsgFrontierReq v
      → Decodes k (read_msg_frontier_req k) v (encode_msg_frontier_req v)
  unfolding read_msg_frontier_req
  read_msg_frontier_req-Decodes v h = bind-Decodes k _ (bytes-Decodes k 32 v.start h.start_ok) (
      bind-Decodes k _ (read_u4le-Decodes k v.age h.age_ok)
        (bind-Decodes k _ (read_u4le-Decodes k v.count h.count_ok) (pure-Decodes k v)))

  pub read_msg_bulk_pull_blocks-Decodes :
      (v : MsgBulkPullBlocks)
      → IsMsgBulkPullBlocks v
      → Decodes k (read_msg_bulk_pull_blocks k) v (encode_msg_bulk_pull_blocks v)
  unfolding read_msg_bulk_pull_blocks
  read_msg_bulk_pull_blocks-Decodes v h =
      bind-Decodes k _ (read_u1-Decodes k v.block_type h.block_type_ok) (pure-Decodes k v)

  pub read_frontier_entry-Decodes :
      (v : FrontierEntry)
      → IsFrontierEntry v
      → Decodes k (read_frontier_entry k) v (encode_frontier_entry v)
  unfolding read_frontier_entry
  read_frontier_entry-Decodes v h =
      bind-Decodes k _ (bytes-Decodes k 32 v.account h.account_ok) (
        bind-Decodes k _ (bytes-Decodes k 32 v.frontier_hash h.frontier_hash_ok) (pure-Decodes k v))

  pub read_frontier_balance_entry-Decodes :
      (v : FrontierBalanceEntry)
      → IsFrontierBalanceEntry v
      → Decodes k (read_frontier_balance_entry k) v (encode_frontier_balance_entry v)
  unfolding read_frontier_balance_entry
  read_frontier_balance_entry-Decodes v h =
      bind-Decodes k _ (bytes-Decodes k 32 v.frontier_hash h.frontier_hash_ok)
        (bind-Decodes k _ (bytes-Decodes k 16 v.balance h.balance_ok) (pure-Decodes k v))
