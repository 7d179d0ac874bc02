-- ===== src/Protocol/Messages.antt =====
-- The message classes of nano.h other than the bootstrap requests. A field that the source leaves
-- null is an `Option`.
use nanocap.Prelude.{
  ℕ, Bool, true, false, List, Option, none, some, Parser, pure, ◌>>=◌, ◌==◌, if◌then◌else◌,
}
use nanocap.Stream.{KStream, Bytes}
use nanocap.Stream.Repeat.{optional_repeat}
use nanocap.Protocol.Enums.{BlockType, not_a_block}
use nanocap.Protocol.Header.{
  MessageHeader, response_flag, query_flag, block_type, block_type_int, item_count_int,
}
use nanocap.Protocol.Block.{BlockSelector, read_block_selector}

pub record Peer : Type 0 where
  pub address : Bytes
  pub port : ℕ

pub record MsgKeepalive : Type 0 where
  pub peers : Option (List Peer)

pub record HashPair : Type 0 where
  pub first : Bytes
  pub second : Bytes

pub record ConfirmRequestByHash : Type 0 where
  pub pairs : Option (List HashPair)

pub record MsgConfirmReq : Type 0 where
  pub reqbyhash : Option ConfirmRequestByHash
  pub block : Option BlockSelector

pub record VoteCommon : Type 0 where
  pub account : Bytes
  pub signature : Bytes
  pub sequence : ℕ

pub record VoteByHash : Type 0 where
  pub hashes : Option (List Bytes)

pub record MsgConfirmAck : Type 0 where
  pub common : VoteCommon
  pub votebyhash : Option VoteByHash
  pub block : Option BlockSelector

pub record MsgPublish : Type 0 where
  pub body : BlockSelector

pub record NodeIdQuery : Type 0 where
  pub cookie : Bytes

pub record NodeIdResponse : Type 0 where
  pub account : Bytes
  pub signature : Bytes

pub record MsgNodeIdHandshake : Type 0 where
  pub query : Option NodeIdQuery
  pub response : Option NodeIdResponse

pub record MsgTelemetryReq : Type 0 where

pub record MsgTelemetryAck : Type 0 where
  pub signature : Bytes
  pub nodeid : Bytes
  pub blockcount : ℕ
  pub cementedcount : ℕ
  pub uncheckedcount : ℕ
  pub accountcount : ℕ
  pub bandwidthcap : ℕ
  pub uptime : ℕ
  pub peercount : ℕ
  pub protocolversion : ℕ
  pub genesisblock : Bytes
  pub majorversion : ℕ
  pub minorversion : ℕ
  pub patchversion : ℕ
  pub prereleaseversion : ℕ
  pub maker : ℕ
  pub timestamp : ℕ
  pub activedifficulty : ℕ

abbrev pub is_not_a_block : BlockType → Bool
is_not_a_block not_a_block = true
is_not_a_block _ = false

module _ (k : KStream) where
  open k use {Stream, read_bytes, read_u1, read_u2le, read_u4be, read_u8le, read_u8be}

  -- A part that a condition of the header asks for.
  unfoldable pub read_if : {A : Type 0} → Bool → Parser Stream A → Parser Stream (Option A)
  read_if true p = do a ← p; pure (some a)
  read_if false p = pure none

  unfoldable pub read_peer : Parser Stream Peer
  read_peer = do
    address ← read_bytes 16
    port ← read_u2le
    pure (record { address = address; port = port })

  unfoldable pub read_msg_keepalive : Parser Stream MsgKeepalive
  read_msg_keepalive = do
    peers ← optional_repeat k (λ i. i == 8) read_peer
    pure (record { peers = peers })

  unfoldable pub read_hash_pair : Parser Stream HashPair
  read_hash_pair = do
    first ← read_bytes 32
    second ← read_bytes 32
    pure (record { first = first; second = second })

  unfoldable pub read_confirm_request_by_hash : MessageHeader → Parser Stream ConfirmRequestByHash
  read_confirm_request_by_hash header = do
    pairs ← optional_repeat k (λ i. i == item_count_int header) read_hash_pair
    pure (record { pairs = pairs })

  unfoldable pub read_msg_confirm_req : MessageHeader → Parser Stream MsgConfirmReq
  read_msg_confirm_req header = do
    reqbyhash ← read_if (is_not_a_block (block_type header)) (read_confirm_request_by_hash header)
    block ←
        read_if (if is_not_a_block (block_type header) then false else true)
          (read_block_selector k (block_type_int header))
    pure (record { reqbyhash = reqbyhash; block = block })

  unfoldable pub read_vote_common : Parser Stream VoteCommon
  read_vote_common = do
    account ← read_bytes 32
    signature ← read_bytes 64
    sequence ← read_u8le
    pure (record { account = account; signature = signature; sequence = sequence })

  unfoldable pub read_vote_by_hash : MessageHeader → Parser Stream VoteByHash
  read_vote_by_hash header = do
    hashes ← optional_repeat k (λ i. i == item_count_int header) (read_bytes 32)
    pure (record { hashes = hashes })

  unfoldable pub read_msg_confirm_ack : MessageHeader → Parser Stream MsgConfirmAck
  read_msg_confirm_ack header = do
    common ← read_vote_common
    votebyhash ← read_if (is_not_a_block (block_type header)) (read_vote_by_hash header)
    block ←
        read_if (if is_not_a_block (block_type header) then false else true)
          (read_block_selector k (block_type_int header))
    pure (record { common = common; votebyhash = votebyhash; block = block })

  unfoldable pub read_msg_publish : MessageHeader → Parser Stream MsgPublish
  read_msg_publish header = do
    body ← read_block_selector k (block_type_int header)
    pure (record { body = body })

  unfoldable pub read_node_id_query : Parser Stream NodeIdQuery
  read_node_id_query = do cookie ← read_bytes 32; pure (record { cookie = cookie })

  unfoldable pub read_node_id_response : Parser Stream NodeIdResponse
  read_node_id_response = do
    account ← read_bytes 32
    signature ← read_bytes 64
    pure (record { account = account; signature = signature })

  unfoldable pub read_msg_node_id_handshake : MessageHeader → Parser Stream MsgNodeIdHandshake
  read_msg_node_id_handshake header = do
    query ← read_if (if query_flag header == 0 then false else true) read_node_id_query
    response ← read_if (if response_flag header == 0 then false else true) read_node_id_response
    pure (record { query = query; response = response })

  unfoldable pub read_msg_telemetry_req : Parser Stream MsgTelemetryReq
  read_msg_telemetry_req = pure (record {})

  unfoldable pub read_msg_telemetry_ack : Parser Stream MsgTelemetryAck
  read_msg_telemetry_ack = do
    signature ← read_bytes 64
    nodeid ← read_bytes 32
    blockcount ← read_u8be
    cementedcount ← read_u8be
    uncheckedcount ← read_u8be
    accountcount ← read_u8be
    bandwidthcap ← read_u8be
    uptime ← read_u8be
    peercount ← read_u4be
    protocolversion ← read_u1
    genesisblock ← read_bytes 32
    majorversion ← read_u1
    minorversion ← read_u1
    patchversion ← read_u1
    prereleaseversion ← read_u1
    maker ← read_u1
    timestamp ← read_u8be
    activedifficulty ← read_u8be
    pure (record {
      signature = signature;
      nodeid = nodeid;
      blockcount = blockcount;
      cementedcount = cementedcount;
      uncheckedcount = uncheckedcount;
      accountcount = accountcount;
      bandwidthcap = bandwidthcap;
      uptime = uptime;
      peercount = peercount;
      protocolversion = protocolversion;
      genesisblock = genesisblock;
      majorversion = majorversion;
      minorversion = minorversion;
      patchversion = patchversion;
      prereleaseversion = prereleaseversion;
      maker = maker;
      timestamp = timestamp;
      activedifficulty = activedifficulty;
    })
