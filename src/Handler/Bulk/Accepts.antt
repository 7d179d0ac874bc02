-- ===== src/Handler/Bulk/Accepts.antt =====
-- The loops over bulk pull responses and bulk pushes accept the blocks that the bytes stand for.
use nanocap.Prelude.{◌+◌, ◌≤◌, ◌≡◌, none, List, ◌∷◌, ◌++◌, length, All}
use nanocap.Stream.{KStream, Bytes}
use nanocap.Util.Text.{codes}
use nanocap.Flow.{CircularBuffer, NanoPacket, capacity}
use nanocap.Protocol.Block.{Block}
use nanocap.Protocol.Bootstrap.{read_bulk_pull_entry, read_bulk_push_entry}
use nanocap.Protocol.RoundTrip.Entry.{
  IsBlock, read_bulk_pull_entry-Decodes, read_bulk_push_entry-Decodes, read_bulk_pull_entry-short,
  read_bulk_push_entry-short,
}
use nanocap.Db.{Env}
use nanocap.Db.Bootstrap.{put_bulk_pull_entry, put_bulk_push_entry}
use nanocap.Handler.Session.{Session}
use nanocap.Handler.Session.Ended.{IsEnded, ended}
use nanocap.Handler.Bulk.{handle_bulk_pull, handle_bulk_push}
use nanocap.Handler.Bulk.Ends.{pull-KeepsBuffer, push-KeepsBuffer}
use nanocap.Handler.Bulk.Split.{
  IsPart, entries_wire, held, received, accept_blocks, handle_bulk-open, handle_bulk-end,
}

module _ (k : KStream) (cb : CircularBuffer) (env : Env) where
  -- If the buffer and a packet together hold at most 4096 bytes, which are entries of a bulk pull
  -- response with blocks of the five types and then nothing or the type of a block and less than
  -- the block, then exactly these blocks are accepted, in order, and the rest stays in the buffer;
  -- no exception leaves the loop.
  pub handle_bulk_pull-open :
      (info : NanoPacket) (s : Session cb) (bs : List Block) (rest : Bytes)
      → All IsBlock bs
      → IsPart rest
      → held k cb env s ++ info.payload ≡ entries_wire bs ++ rest
      → length (held k cb env s) + length info.payload ≤ capacity
      → let after =
          accept_blocks k cb env (put_bulk_pull_entry env) bs info (received k cb env info s) in
        (handle_bulk_pull k cb env info s ≡ (after, none)) × (held k cb env after ≡ rest)
  unfolding handle_bulk_pull
  handle_bulk_pull-open info s bs rest hs hr h fits =
      handle_bulk-open k cb env (read_bulk_pull_entry k) (put_bulk_pull_entry env)
        (codes "end of bulk_pull. valid entries: ") (pull-KeepsBuffer k cb env)
        (read_bulk_pull_entry-Decodes k) (read_bulk_pull_entry-short k) info s bs rest hs hr h fits

  -- If the buffer and a packet together hold at most 4096 bytes, which are entries of a bulk pull
  -- response with blocks of the five types, the byte 1, and anything behind it, then the blocks
  -- are accepted, in order, and the response ends: the connection waits for no response, its counts
  -- are zero and its buffer is empty, so that what follows in the packet is dropped. Beyond the
  -- accepted blocks the database only gets the event with the counts of the response, where
  -- bootstrap details are configured. No exception leaves the loop.
  pub handle_bulk_pull-end :
      (info : NanoPacket) (s : Session cb) (bs : List Block) (rest : Bytes)
      → All IsBlock bs
      → held k cb env s ++ info.payload ≡ entries_wire bs ++ (1 ∷ rest)
      → length (held k cb env s) + length info.payload ≤ capacity
      → IsEnded cb env
          (codes "end of bulk_pull. valid entries: ")
          info
          (accept_blocks k cb env (put_bulk_pull_entry env) bs info (received k cb env info s))
          (handle_bulk_pull k cb env info s)
  unfolding handle_bulk_pull
  handle_bulk_pull-end info s bs rest hs h fits =
      ended cb env (codes "end of bulk_pull. valid entries: ") info
        (accept_blocks k cb env (put_bulk_pull_entry env) bs info (received k cb env info s)) _
        (handle_bulk-end k cb env (read_bulk_pull_entry k) (put_bulk_pull_entry env)
          (codes "end of bulk_pull. valid entries: ") (pull-KeepsBuffer k cb env)
          (read_bulk_pull_entry-Decodes k) (read_bulk_pull_entry-short k) info s bs rest hs h fits)

  -- If the buffer and a packet together hold at most 4096 bytes, which are entries of a bulk push
  -- with blocks of the five types and then nothing or the type of a block and less than the block,
  -- then exactly these blocks are accepted, in order, and the rest stays in the buffer; no
  -- exception leaves the loop.
  pub handle_bulk_push-open :
      (info : NanoPacket) (s : Session cb) (bs : List Block) (rest : Bytes)
      → All IsBlock bs
      → IsPart rest
      → held k cb env s ++ info.payload ≡ entries_wire bs ++ rest
      → length (held k cb env s) + length info.payload ≤ capacity
      → let after =
          accept_blocks k cb env (put_bulk_push_entry env) bs info (received k cb env info s) in
        (handle_bulk_push k cb env info s ≡ (after, none)) × (held k cb env after ≡ rest)
  unfolding handle_bulk_push
  handle_bulk_push-open info s bs rest hs hr h fits =
      handle_bulk-open k cb env (read_bulk_push_entry k) (put_bulk_push_entry env)
        (codes "end of bulk_push. valid entries: ") (push-KeepsBuffer k cb env)
        (read_bulk_push_entry-Decodes k) (read_bulk_push_entry-short k) info s bs rest hs hr h fits

  -- If the buffer and a packet together hold at most 4096 bytes, which are entries of a bulk push
  -- with blocks of the five types, the byte 1, and anything behind it, then the blocks are
  -- accepted, in order, and the response ends: the connection waits for no response, its counts are
  -- zero and its buffer is empty, so that what follows in the packet is dropped. Beyond the accepted
  -- blocks the database only gets the event with the counts of the response, where bootstrap details
  -- are configured. No exception leaves the loop.
  pub handle_bulk_push-end :
      (info : NanoPacket) (s : Session cb) (bs : List Block) (rest : Bytes)
      → All IsBlock bs
      → held k cb env s ++ info.payload ≡ entries_wire bs ++ (1 ∷ rest)
      → length (held k cb env s) + length info.payload ≤ capacity
      → IsEnded cb env
          (codes "end of bulk_push. valid entries: ")
          info
          (accept_blocks k cb env (put_bulk_push_entry env) bs info (received k cb env info s))
          (handle_bulk_push k cb env info s)
  unfolding handle_bulk_push
  handle_bulk_push-end info s bs rest hs h fits =
      ended cb env (codes "end of bulk_push. valid entries: ") info
        (accept_blocks k cb env (put_bulk_push_entry env) bs info (received k cb env info s)) _
        (handle_bulk-end k cb env (read_bulk_push_entry k) (put_bulk_push_entry env)
          (codes "end of bulk_push. valid entries: ") (push-KeepsBuffer k cb env)
          (read_bulk_push_entry-Decodes k) (read_bulk_push_entry-short k) info s bs rest hs h fits)
