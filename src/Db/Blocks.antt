-- ===== src/Db/Blocks.antt =====
-- `put_block`: a block goes to the table of its type, if block details are configured.
use nanocap.Prelude.{ℕ, [], ◌∷◌, Option, some, none, if◌then◌else◌}
use nanocap.Stream.{Bytes}
use nanocap.Util.Text.{codes, to_hex}
use nanocap.Util.Account.{pub_to_account, balance_to_dec}
use nanocap.Util.Hash.{hash_of_state, hash_of_send, hash_of_receive, hash_of_open, hash_of_change}
use nanocap.Protocol.Block.{
  Block, BlockSelector, block_send as send_of, block_receive as receive_of, block_open as open_of,
  block_change as change_of, block_state as state_of, block_ignored,
}
use nanocap.Db.{
  Env, Db, integer, text, as_int64, execute, block_state, block_send, block_receive, block_open,
  block_change,
}

-- The rows, by the class of the block. The class follows from the type that the selector has.
abbrev pub content_table_of : Block → Bytes
content_table_of (state_of b) = codes "block_state"
content_table_of (send_of b) = codes "block_send"
content_table_of (receive_of b) = codes "block_receive"
content_table_of (open_of b) = codes "block_open"
content_table_of (change_of b) = codes "block_change"
content_table_of (block_ignored b) = []

module _ (env : Env) where
  open env use {blake2b}

  unfoldable pub insert_block : Block → ℕ → ℕ → Db → Db
  unfolding execute
  insert_block (state_of b) id packet_id db =
      execute block_state
        ((":id", integer id)
          ∷ (":packet_id", integer packet_id)
          ∷ (":hash", text (to_hex (hash_of_state blake2b b)))
          ∷ (":account", text (pub_to_account blake2b b.account))
          ∷ (":previous", text (to_hex b.previous))
          ∷ (":representative", text (pub_to_account blake2b b.representative))
          ∷ (":balance", text (balance_to_dec b.balance))
          ∷ (":link", text (to_hex b.link))
          ∷ (":signature", text (to_hex b.signature))
          ∷ (":work", as_int64 b.work)
          ∷ [])
        db
  insert_block (send_of b) id packet_id db =
      execute block_send
        ((":id", integer id)
          ∷ (":packet_id", integer packet_id)
          ∷ (":hash", text (to_hex (hash_of_send blake2b b)))
          ∷ (":previous", text (to_hex b.previous))
          ∷ (":destination", text (pub_to_account blake2b b.destination))
          ∷ (":balance", text (balance_to_dec b.balance))
          ∷ (":signature", text (to_hex b.signature))
          ∷ (":work", as_int64 b.work)
          ∷ [])
        db
  insert_block (receive_of b) id packet_id db =
      execute block_receive
        ((":id", integer id)
          ∷ (":packet_id", integer packet_id)
          ∷ (":hash", text (to_hex (hash_of_receive blake2b b)))
          ∷ (":previous", text (to_hex b.previous))
          ∷ (":source", text (to_hex b.source))
          ∷ (":signature", text (to_hex b.signature))
          ∷ (":work", as_int64 b.work)
          ∷ [])
        db
  insert_block (open_of b) id packet_id db =
      execute block_open
        ((":id", integer id)
          ∷ (":packet_id", integer packet_id)
          ∷ (":hash", text (to_hex (hash_of_open blake2b b)))
          ∷ (":source", text (to_hex b.source))
          ∷ (":representative", text (pub_to_account blake2b b.representative))
          ∷ (":account", text (pub_to_account blake2b b.account))
          ∷ (":signature", text (to_hex b.signature))
          ∷ (":work", as_int64 b.work)
          ∷ [])
        db
  insert_block (change_of b) id packet_id db =
      execute block_change
        ((":id", integer id)
          ∷ (":packet_id", integer packet_id)
          ∷ (":hash", text (to_hex (hash_of_change blake2b b)))
          ∷ (":previous", text (to_hex b.previous))
          ∷ (":representative", text (pub_to_account blake2b b.representative))
          ∷ (":signature", text (to_hex b.signature))
          ∷ (":work", as_int64 b.work)
          ∷ [])
        db
  insert_block (block_ignored b) id packet_id db = db

  -- The name of the table, empty where nothing was inserted, and the database.
  unfoldable pub put_block : Option BlockSelector → ℕ → ℕ → Db → Bytes × Db
  unfolding insert_block
  put_block none id packet_id db = ([], db)
  put_block (some selector) id packet_id db =
      if env.block_details
      then (content_table_of selector.block, insert_block selector.block id packet_id db)
      else ([], db)
