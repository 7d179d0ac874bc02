-- ===== src/Protocol/Bootstrap.antt =====
-- The bootstrap requests of nano.h, and the entries of which their responses consist.
use nanocap.Prelude.{
  ℕ, Bool, true, false, ◌||◌, List, [], Option, Parser, pure, ◌>>=◌, ◌==◌, if◌then◌else◌,
}
use nanocap.Stream.{KStream, Bytes}
use nanocap.Stream.Repeat.{repeat_at, fuel_of}
use nanocap.Protocol.Enums.{BulkPullAccountFlags, flags_of, block_type_of}
use nanocap.Protocol.Header.{MessageHeader, extended_params_present}
use nanocap.Protocol.Block.{BlockSelector, read_block_selector}
use nanocap.Protocol.Messages.{read_if, is_not_a_block}

pub record ExtendedParameters : Type 0 where
  pub zeros : ℕ
  pub count : ℕ
  pub reserved : Bytes

pub record MsgBulkPull : Type 0 where
  pub start : Bytes
  pub end : Bytes
  pub extended : Option ExtendedParameters

pub record MsgFrontierReq : Type 0 where
  pub start : Bytes
  pub age : ℕ
  pub count : ℕ

pub record MsgBulkPullAccount : Type 0 where
  pub account : Bytes
  pub minimum_amount : Bytes
  pub flags : BulkPullAccountFlags

pub record MsgBulkPullBlocks : Type 0 where
  pub block_type : ℕ

-- `bulk_push_entry_t` and `bulk_pull_entry_t` have the same fields and the same reader.
pub record BulkEntry : Type 0 where
  pub block_type : ℕ
  pub block : BlockSelector

pub record MsgBulkPush : Type 0 where
  pub entry : List BulkEntry

pub record FrontierEntry : Type 0 where
  pub account : Bytes
  pub frontier_hash : Bytes

pub record FrontierBalanceEntry : Type 0 where
  pub frontier_hash : Bytes
  pub balance : Bytes

-- A string that is not read stays empty.
pub record BulkPullAccountEntry : Type 0 where
  pub flags : ℕ
  pub hash : Bytes
  pub amount : Bytes
  pub source : Bytes

unfoldable pub pending_address_only : ℕ → Bool
pending_address_only flags = flags == 1

unfoldable pub pending_include_address : ℕ → Bool
pending_include_address flags = flags == 2

module _ (k : KStream) where
  open k use {Stream, read_bytes, read_u1, read_u4le}

  unfoldable pub read_extended_parameters : Parser Stream ExtendedParameters
  read_extended_parameters = do
    zeros ← read_u1
    count ← read_u4le
    reserved ← read_bytes 3
    pure (record { zeros = zeros; count = count; reserved = reserved })

  unfoldable pub read_msg_bulk_pull : MessageHeader → Parser Stream MsgBulkPull
  read_msg_bulk_pull header = do
    start ← read_bytes 32
    end ← read_bytes 32
    extended ←
        read_if k (if extended_params_present header == 0 then false else true)
          read_extended_parameters
    pure (record { start = start; end = end; extended = extended })

  unfoldable pub read_msg_frontier_req : Parser Stream MsgFrontierReq
  read_msg_frontier_req = do
    start ← read_bytes 32
    age ← read_u4le
    count ← read_u4le
    pure (record { start = start; age = age; count = count })

  unfoldable pub read_msg_bulk_pull_account : Parser Stream MsgBulkPullAccount
  read_msg_bulk_pull_account = do
    account ← read_bytes 32
    minimum_amount ← read_bytes 16
    flags ← read_u1
    pure (record { account = account; minimum_amount = minimum_amount; flags = flags_of flags })

  unfoldable pub read_msg_bulk_pull_blocks : Parser Stream MsgBulkPullBlocks
  read_msg_bulk_pull_blocks = do block_type ← read_u1; pure (record { block_type = block_type })

  unfoldable pub read_bulk_push_entry : Parser Stream BulkEntry
  read_bulk_push_entry = do
    block_type ← read_u1
    block ← read_block_selector k block_type
    pure (record { block_type = block_type; block = block })

  unfoldable pub read_bulk_pull_entry : Parser Stream BulkEntry
  read_bulk_pull_entry = do
    block_type ← read_u1
    block ← read_block_selector k block_type
    pure (record { block_type = block_type; block = block })

  unfoldable pub read_msg_bulk_push : Parser Stream MsgBulkPush
  read_msg_bulk_push s =
      (do
        entry ←
            repeat_at k (fuel_of k s) (λ e. is_not_a_block (block_type_of e.block_type)) []
              read_bulk_push_entry
        pure (record { entry = entry }))
        s

  unfoldable pub read_frontier_entry : Parser Stream FrontierEntry
  read_frontier_entry = do
    account ← read_bytes 32
    frontier_hash ← read_bytes 32
    pure (record { account = account; frontier_hash = frontier_hash })

  unfoldable pub read_frontier_balance_entry : Parser Stream FrontierBalanceEntry
  read_frontier_balance_entry = do
    frontier_hash ← read_bytes 32
    balance ← read_bytes 16
    pure (record { frontier_hash = frontier_hash; balance = balance })

  -- A string that a condition asks for, or the empty one.
  unfoldable pub read_bytes_if : Bool → ℕ → Parser Stream Bytes
  read_bytes_if true n = read_bytes n
  read_bytes_if false n = pure []

  unfoldable pub read_bulk_pull_account_entry : ℕ → Parser Stream BulkPullAccountEntry
  unfolding pending_address_only pending_include_address
  read_bulk_pull_account_entry flags = do
    hash ← read_bytes_if (if pending_address_only flags then false else true) 32
    amount ← read_bytes_if (if pending_address_only flags then false else true) 16
    source ← read_bytes_if (pending_address_only flags || pending_include_address flags) 32
    pure (record { flags = flags; hash = hash; amount = amount; source = source })
