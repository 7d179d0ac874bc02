-- ===== src/Protocol/Encode.antt =====
-- The wire format as a description of its own: the bytes of each value, and which values have
-- bytes. Nothing here is code of the program, which only parses.
use nanocap.Prelude.{◌≡◌, ◌<◌, ◌^◌, [], ◌∷◌, length}
use nanocap.Stream.{Bytes, joined}
use nanocap.Stream.Words.{le_bytes, be_bytes}
use nanocap.Protocol.Block.{BlockSend, BlockReceive, BlockOpen, BlockChange, BlockState}
use nanocap.Protocol.Messages.{
  Peer, HashPair, VoteCommon, NodeIdQuery, NodeIdResponse, MsgTelemetryAck,
}
use nanocap.Protocol.Bootstrap.{
  ExtendedParameters, MsgFrontierReq, MsgBulkPullBlocks, FrontierEntry, FrontierBalanceEntry,
}

abbrev pub encode_block_send : BlockSend → Bytes
encode_block_send v =
    joined (v.previous ∷ v.destination ∷ v.balance ∷ v.signature ∷ le_bytes 8 v.work ∷ [])

pub record IsBlockSend (v : BlockSend) : Type 0 where
  pub previous_ok : length v.previous ≡ 32
  pub destination_ok : length v.destination ≡ 32
  pub balance_ok : length v.balance ≡ 16
  pub signature_ok : length v.signature ≡ 64
  pub work_ok : v.work < 2 ^ 64

abbrev pub encode_block_receive : BlockReceive → Bytes
encode_block_receive v = joined (v.previous ∷ v.source ∷ v.signature ∷ le_bytes 8 v.work ∷ [])

pub record IsBlockReceive (v : BlockReceive) : Type 0 where
  pub previous_ok : length v.previous ≡ 32
  pub source_ok : length v.source ≡ 32
  pub signature_ok : length v.signature ≡ 64
  pub work_ok : v.work < 2 ^ 64

abbrev pub encode_block_open : BlockOpen → Bytes
encode_block_open v =
    joined (v.source ∷ v.representative ∷ v.account ∷ v.signature ∷ le_bytes 8 v.work ∷ [])

pub record IsBlockOpen (v : BlockOpen) : Type 0 where
  pub source_ok : length v.source ≡ 32
  pub representative_ok : length v.representative ≡ 32
  pub account_ok : length v.account ≡ 32
  pub signature_ok : length v.signature ≡ 64
  pub work_ok : v.work < 2 ^ 64

abbrev pub encode_block_change : BlockChange → Bytes
encode_block_change v =
    joined (v.previous ∷ v.representative ∷ v.signature ∷ le_bytes 8 v.work ∷ [])

pub record IsBlockChange (v : BlockChange) : Type 0 where
  pub previous_ok : length v.previous ≡ 32
  pub representative_ok : length v.representative ≡ 32
  pub signature_ok : length v.signature ≡ 64
  pub work_ok : v.work < 2 ^ 64

abbrev pub encode_block_state : BlockState → Bytes
encode_block_state v = joined (
    v.account
    ∷ v.previous
    ∷ v.representative
    ∷ v.balance
    ∷ v.link
    ∷ v.signature
    ∷ be_bytes 8 v.work
    ∷ [])

pub record IsBlockState (v : BlockState) : Type 0 where
  pub account_ok : length v.account ≡ 32
  pub previous_ok : length v.previous ≡ 32
  pub representative_ok : length v.representative ≡ 32
  pub balance_ok : length v.balance ≡ 16
  pub link_ok : length v.link ≡ 32
  pub signature_ok : length v.signature ≡ 64
  pub work_ok : v.work < 2 ^ 64

abbrev pub encode_peer : Peer → Bytes
encode_peer v = joined (v.address ∷ le_bytes 2 v.port ∷ [])

pub record IsPeer (v : Peer) : Type 0 where
  pub address_ok : length v.address ≡ 16
  pub port_ok : v.port < 2 ^ 16

abbrev pub encode_hash_pair : HashPair → Bytes
encode_hash_pair v = joined (v.first ∷ v.second ∷ [])

pub record IsHashPair (v : HashPair) : Type 0 where
  pub first_ok : length v.first ≡ 32
  pub second_ok : length v.second ≡ 32

abbrev pub encode_vote_common : VoteCommon → Bytes
encode_vote_common v = joined (v.account ∷ v.signature ∷ le_bytes 8 v.sequence ∷ [])

pub record IsVoteCommon (v : VoteCommon) : Type 0 where
  pub account_ok : length v.account ≡ 32
  pub signature_ok : length v.signature ≡ 64
  pub sequence_ok : v.sequence < 2 ^ 64

abbrev pub encode_node_id_query : NodeIdQuery → Bytes
encode_node_id_query v = joined (v.cookie ∷ [])

pub record IsNodeIdQuery (v : NodeIdQuery) : Type 0 where
  pub cookie_ok : length v.cookie ≡ 32

abbrev pub encode_node_id_response : NodeIdResponse → Bytes
encode_node_id_response v = joined (v.account ∷ v.signature ∷ [])

pub record IsNodeIdResponse (v : NodeIdResponse) : Type 0 where
  pub account_ok : length v.account ≡ 32
  pub signature_ok : length v.signature ≡ 64

abbrev pub encode_msg_telemetry_ack : MsgTelemetryAck → Bytes
encode_msg_telemetry_ack v = joined (
    v.signature
    ∷ v.nodeid
    ∷ be_bytes 8 v.blockcount
    ∷ be_bytes 8 v.cementedcount
    ∷ be_bytes 8 v.uncheckedcount
    ∷ be_bytes 8 v.accountcount
    ∷ be_bytes 8 v.bandwidthcap
    ∷ be_bytes 8 v.uptime
    ∷ be_bytes 4 v.peercount
    ∷ le_bytes 1 v.protocolversion
    ∷ v.genesisblock
    ∷ le_bytes 1 v.majorversion
    ∷ le_bytes 1 v.minorversion
    ∷ le_bytes 1 v.patchversion
    ∷ le_bytes 1 v.prereleaseversion
    ∷ le_bytes 1 v.maker
    ∷ be_bytes 8 v.timestamp
    ∷ be_bytes 8 v.activedifficulty
    ∷ [])

pub record IsMsgTelemetryAck (v : MsgTelemetryAck) : Type 0 where
  pub signature_ok : length v.signature ≡ 64
  pub nodeid_ok : length v.nodeid ≡ 32
  pub blockcount_ok : v.blockcount < 2 ^ 64
  pub cementedcount_ok : v.cementedcount < 2 ^ 64
  pub uncheckedcount_ok : v.uncheckedcount < 2 ^ 64
  pub accountcount_ok : v.accountcount < 2 ^ 64
  pub bandwidthcap_ok : v.bandwidthcap < 2 ^ 64
  pub uptime_ok : v.uptime < 2 ^ 64
  pub peercount_ok : v.peercount < 2 ^ 32
  pub protocolversion_ok : v.protocolversion < 2 ^ 8
  pub genesisblock_ok : length v.genesisblock ≡ 32
  pub majorversion_ok : v.majorversion < 2 ^ 8
  pub minorversion_ok : v.minorversion < 2 ^ 8
  pub patchversion_ok : v.patchversion < 2 ^ 8
  pub prereleaseversion_ok : v.prereleaseversion < 2 ^ 8
  pub maker_ok : v.maker < 2 ^ 8
  pub timestamp_ok : v.timestamp < 2 ^ 64
  pub activedifficulty_ok : v.activedifficulty < 2 ^ 64

abbrev pub encode_extended_parameters : ExtendedParameters → Bytes
encode_extended_parameters v = joined (le_bytes 1 v.zeros ∷ le_bytes 4 v.count ∷ v.reserved ∷ [])

pub record IsExtendedParameters (v : ExtendedParameters) : Type 0 where
  pub zeros_ok : v.zeros < 2 ^ 8
  pub count_ok : v.count < 2 ^ 32
  pub reserved_ok : length v.reserved ≡ 3

abbrev pub encode_msg_frontier_req : MsgFrontierReq → Bytes
encode_msg_frontier_req v = joined (v.start ∷ le_bytes 4 v.age ∷ le_bytes 4 v.count ∷ [])

pub record IsMsgFrontierReq (v : MsgFrontierReq) : Type 0 where
  pub start_ok : length v.start ≡ 32
  pub age_ok : v.age < 2 ^ 32
  pub count_ok : v.count < 2 ^ 32

abbrev pub encode_msg_bulk_pull_blocks : MsgBulkPullBlocks → Bytes
encode_msg_bulk_pull_blocks v = joined (le_bytes 1 v.block_type ∷ [])

pub record IsMsgBulkPullBlocks (v : MsgBulkPullBlocks) : Type 0 where
  pub block_type_ok : v.block_type < 2 ^ 8

abbrev pub encode_frontier_entry : FrontierEntry → Bytes
encode_frontier_entry v = joined (v.account ∷ v.frontier_hash ∷ [])

pub record IsFrontierEntry (v : FrontierEntry) : Type 0 where
  pub account_ok : length v.account ≡ 32
  pub frontier_hash_ok : length v.frontier_hash ≡ 32

abbrev pub encode_frontier_balance_entry : FrontierBalanceEntry → Bytes
encode_frontier_balance_entry v = joined (v.frontier_hash ∷ v.balance ∷ [])

pub record IsFrontierBalanceEntry (v : FrontierBalanceEntry) : Type 0 where
  pub frontier_hash_ok : length v.frontier_hash ≡ 32
  pub balance_ok : length v.balance ≡ 16
