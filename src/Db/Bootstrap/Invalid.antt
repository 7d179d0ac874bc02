-- ===== src/Db/Bootstrap/Invalid.antt =====
-- Which entries of bulk responses count as invalid.
use nanocap.Prelude.{
  ◌+◌, ◌≡◌, refl, Bool, true, false, ◌&&◌, if◌then◌else◌, arith, Bool-cases, inl, inr,
}
use nanocap.Stream.{Bytes}
use nanocap.Flow.{TcpFlowData, NanoPacket}
use nanocap.Protocol.Block.{
  Block, block_state, block_send, block_receive, block_open, block_change, block_ignored,
}
use nanocap.Protocol.Bootstrap.{BulkEntry}
use nanocap.Db.{Env, Db}
use nanocap.Db.Blocks.{put_block, content_table_of}
use nanocap.Db.Bootstrap.{put_bulk_pull_entry, put_bulk_push_entry, note_invalid, link_block}

-- A block of one of the five types.
abbrev pub is_block : Block → Bool
is_block (block_ignored b) = false
is_block _ = true

module _ (env : Env) {B : Type 0} where
  -- A block of one of the types has the name of a table.
  link-invalid :
      (b : Block) (row : Db → Db) (event : Bytes) (info : NanoPacket) (flow : TcpFlowData B)
      (db : Db)
      → (link_block env (content_table_of b) row event info (flow, db)).0.invalid_response_count
        ≡ flow.invalid_response_count + (if is_block b then 0 else 1)
  unfolding note_invalid
  link-invalid (block_state b) row event info flow db = omega arith
  link-invalid (block_send b) row event info flow db = omega arith
  link-invalid (block_receive b) row event info flow db = omega arith
  link-invalid (block_open b) row event info flow db = omega arith
  link-invalid (block_change b) row event info flow db = omega arith
  link-invalid (block_ignored b) row event info flow db = refl

  -- An entry of a bulk pull response counts as valid only where block details are configured and
  -- its block is of one of the five types: without block details every entry counts as invalid.
  pub put_bulk_pull_entry-invalid :
      (e : BulkEntry) (info : NanoPacket) (flow : TcpFlowData B) (db : Db)
      → (put_bulk_pull_entry env e info (flow, db)).0.invalid_response_count
        ≡ flow.invalid_response_count
          + (if env.config.block_details && is_block e.block.block then 0 else 1)
  unfolding put_bulk_pull_entry put_block note_invalid
  put_bulk_pull_entry-invalid e info flow db = elim (Bool-cases env.config.block_details) [
    | inr off ↦ rw off refl
    | inl on ↦ rw on (link-invalid e.block.block _ _ info flow _)
  ]

  -- An entry of a bulk push counts as valid only where block details are configured and its block
  -- is of one of the five types: without block details every entry counts as invalid.
  put_bulk_push_entry-invalid :
      (e : BulkEntry) (info : NanoPacket) (flow : TcpFlowData B) (db : Db)
      → (put_bulk_push_entry env e info (flow, db)).0.invalid_response_count
        ≡ flow.invalid_response_count
          + (if env.config.block_details && is_block e.block.block then 0 else 1)
  unfolding put_bulk_push_entry put_block note_invalid
  put_bulk_push_entry-invalid e info flow db = elim (Bool-cases env.config.block_details) [
    | inr off ↦ rw off refl
    | inl on ↦ rw on (link-invalid e.block.block _ _ info flow _)
  ]
