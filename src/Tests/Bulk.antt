-- ===== src/Tests/Bulk.antt =====
-- Blocks in bulk pull responses and bulk pushes.
use nanocap.Prelude.{arith, ◌≡◌, refl, [], ◌∷◌, ◌++◌, none}
use nanocap.Stream.Instance.{byte_stream}
use nanocap.Stream.Words.{be_bytes}
use nanocap.Flow.Instance.{byte_buffer}
use nanocap.Util.Text.{codes}
use nanocap.Protocol.Enums.{bulk_pull, bulk_push}
use nanocap.Protocol.Block.{block_state}
use nanocap.Protocol.RoundTrip.Entry.{IsBlock, encode_entry}
use nanocap.Db.Bootstrap.{put_bulk_pull_entry, put_bulk_push_entry}
use nanocap.Handler.Session.Ended.{IsEnded}
use nanocap.Handler.Bulk.{handle_bulk_pull, handle_bulk_push}
use nanocap.Handler.Bulk.Split.{part, held, received, accept_blocks}
use nanocap.Handler.Bulk.Accepts.{
  handle_bulk_pull-open, handle_bulk_pull-end, handle_bulk_push-open, handle_bulk_push-end,
}
use nanocap.Tests.Data.{fill, test_env, packet_of, session_in, a_block}

a_block-IsBlock : IsBlock (block_state a_block)
a_block-IsBlock = record {
  account_ok = refl;
  previous_ok = refl;
  representative_ok = refl;
  balance_ok = refl;
  link_ok = refl;
  signature_ok = refl;
  work_ok = omega arith;
}

-- A state block, and ten bytes of the next one.
handle_bulk_pull-open_example :
    let s = session_in bulk_pull 0 0 [] in
    let info = packet_of (encode_entry (block_state a_block) ++ (6 ∷ fill 10 9)) in
    let after =
      accept_blocks byte_stream byte_buffer test_env
        (put_bulk_pull_entry test_env)
        (block_state a_block ∷ [])
        info
        (received byte_stream byte_buffer test_env info s) in
    (handle_bulk_pull byte_stream byte_buffer test_env info s ≡ (after, none))
    × (held byte_stream byte_buffer test_env after ≡ 6 ∷ fill 10 9)
unfolding be_bytes
handle_bulk_pull-open_example =
    handle_bulk_pull-open byte_stream byte_buffer test_env
      (packet_of (encode_entry (block_state a_block) ++ (6 ∷ fill 10 9)))
      (session_in bulk_pull 0 0 []) (block_state a_block ∷ []) (6 ∷ fill 10 9) (a_block-IsBlock, tt)
      (part (block_state a_block) (fill 10 9) a_block-IsBlock (omega arith)) refl (omega arith)

handle_bulk_pull-end_example :
    let s = session_in bulk_pull 0 0 [] in
    let info = packet_of (encode_entry (block_state a_block) ++ (1 ∷ fill 2 9)) in
    IsEnded byte_buffer test_env
      (codes "end of bulk_pull. valid entries: ")
      info
      (accept_blocks byte_stream byte_buffer test_env
        (put_bulk_pull_entry test_env)
        (block_state a_block ∷ [])
        info
        (received byte_stream byte_buffer test_env info s))
      (handle_bulk_pull byte_stream byte_buffer test_env info s)
unfolding be_bytes
handle_bulk_pull-end_example =
    handle_bulk_pull-end byte_stream byte_buffer test_env
      (packet_of (encode_entry (block_state a_block) ++ (1 ∷ fill 2 9)))
      (session_in bulk_pull 0 0 []) (block_state a_block ∷ []) (fill 2 9) (a_block-IsBlock, tt) refl
      (omega arith)

-- A state block, and ten bytes of the next one.
handle_bulk_push-open_example :
    let s = session_in bulk_push 0 0 [] in
    let info = packet_of (encode_entry (block_state a_block) ++ (6 ∷ fill 10 9)) in
    let after =
      accept_blocks byte_stream byte_buffer test_env
        (put_bulk_push_entry test_env)
        (block_state a_block ∷ [])
        info
        (received byte_stream byte_buffer test_env info s) in
    (handle_bulk_push byte_stream byte_buffer test_env info s ≡ (after, none))
    × (held byte_stream byte_buffer test_env after ≡ 6 ∷ fill 10 9)
unfolding be_bytes
handle_bulk_push-open_example =
    handle_bulk_push-open byte_stream byte_buffer test_env
      (packet_of (encode_entry (block_state a_block) ++ (6 ∷ fill 10 9)))
      (session_in bulk_push 0 0 []) (block_state a_block ∷ []) (6 ∷ fill 10 9) (a_block-IsBlock, tt)
      (part (block_state a_block) (fill 10 9) a_block-IsBlock (omega arith)) refl (omega arith)

handle_bulk_push-end_example :
    let s = session_in bulk_push 0 0 [] in
    let info = packet_of (encode_entry (block_state a_block) ++ (1 ∷ fill 2 9)) in
    IsEnded byte_buffer test_env
      (codes "end of bulk_push. valid entries: ")
      info
      (accept_blocks byte_stream byte_buffer test_env
        (put_bulk_push_entry test_env)
        (block_state a_block ∷ [])
        info
        (received byte_stream byte_buffer test_env info s))
      (handle_bulk_push byte_stream byte_buffer test_env info s)
unfolding be_bytes
handle_bulk_push-end_example =
    handle_bulk_push-end byte_stream byte_buffer test_env
      (packet_of (encode_entry (block_state a_block) ++ (1 ∷ fill 2 9)))
      (session_in bulk_push 0 0 []) (block_state a_block ∷ []) (fill 2 9) (a_block-IsBlock, tt) refl
      (omega arith)
