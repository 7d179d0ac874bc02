-- ===== src/Protocol/Enums.antt =====
-- The enumerations of nano.h, and the casts from a byte. A value that no enumerator has is kept.
use nanocap.Prelude.{ℕ, if◌then◌else◌, ◌==◌}

pub data BlockType : Type 0 where
  invalid_block not_a_block send receive open_account change state : BlockType
  other_block : ℕ → BlockType

pub data MsgType : Type 0 where
  invalid not_a_type keepalive publish confirm_req confirm_ack bulk_pull bulk_push frontier_req
        bulk_pull_blocks node_id_handshake bulk_pull_account telemetry_req telemetry_ack :
      MsgType
  other_msg : ℕ → MsgType

pub data Network : Type 0 where
  network_test network_beta network_live : Network
  other_network : ℕ → Network

pub data BulkPullAccountFlags : Type 0 where
  pending_hash_and_amount pending_address_only pending_hash_amount_and_address :
      BulkPullAccountFlags
  other_flags : ℕ → BulkPullAccountFlags

unfoldable pub block_type_of : ℕ → BlockType
block_type_of n =
    if n == 0
    then invalid_block
    else if n == 1
    then not_a_block
    else if n == 2
    then send
    else if n == 3
    then receive
    else if n == 4
    then open_account
    else if n == 5
    then change
    else if n == 6
    then state
    else other_block n

unfoldable pub msg_type_of : ℕ → MsgType
msg_type_of n =
    if n == 0
    then invalid
    else if n == 1
    then not_a_type
    else if n == 2
    then keepalive
    else if n == 3
    then publish
    else if n == 4
    then confirm_req
    else if n == 5
    then confirm_ack
    else if n == 6
    then bulk_pull
    else if n == 7
    then bulk_push
    else if n == 8
    then frontier_req
    else if n == 9
    then bulk_pull_blocks
    else if n == 10
    then node_id_handshake
    else if n == 11
    then bulk_pull_account
    else if n == 12
    then telemetry_req
    else if n == 13
    then telemetry_ack
    else other_msg n

unfoldable pub network_of : ℕ → Network
network_of n =
    if n == 65
    then network_test
    else if n == 66
    then network_beta
    else if n == 67
    then network_live
    else other_network n

unfoldable pub flags_of : ℕ → BulkPullAccountFlags
flags_of n =
    if n == 0
    then pending_hash_and_amount
    else if n == 1
    then pending_address_only
    else if n == 2
    then pending_hash_amount_and_address
    else other_flags n

-- The value of an enumerator.
unfoldable pub msg_number : MsgType → ℕ
msg_number invalid = 0
msg_number not_a_type = 1
msg_number keepalive = 2
msg_number publish = 3
msg_number confirm_req = 4
msg_number confirm_ack = 5
msg_number bulk_pull = 6
msg_number bulk_push = 7
msg_number frontier_req = 8
msg_number bulk_pull_blocks = 9
msg_number node_id_handshake = 10
msg_number bulk_pull_account = 11
msg_number telemetry_req = 12
msg_number telemetry_ack = 13
msg_number (other_msg n) = n

unfoldable pub block_number : BlockType → ℕ
block_number invalid_block = 0
block_number not_a_block = 1
block_number send = 2
block_number receive = 3
block_number open_account = 4
block_number change = 5
block_number state = 6
block_number (other_block n) = n

unfoldable pub network_number : Network → ℕ
network_number network_test = 65
network_number network_beta = 66
network_number network_live = 67
network_number (other_network n) = n

unfoldable pub flags_number : BulkPullAccountFlags → ℕ
flags_number pending_hash_and_amount = 0
flags_number pending_address_only = 1
flags_number pending_hash_amount_and_address = 2
flags_number (other_flags n) = n
