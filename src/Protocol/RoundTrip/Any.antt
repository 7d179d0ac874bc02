-- ===== src/Protocol/RoundTrip/Any.antt =====
-- A block of any type is read back from its bytes, by its type.
use nanocap.Prelude.{◌+◌, ◌≡◌, ◌++◌, append-nil, subst, length, ok, pure, ◌>>=◌, Parser}
use nanocap.Stream.{KStream, Bytes}
use nanocap.Stream.Decodes.{Decodes, bind-Decodes, pure-Decodes}
use nanocap.Protocol.Enums.{BlockType, send, receive, open_account, change, state}
use nanocap.Protocol.Block.{
  Block, BlockSend, BlockReceive, BlockOpen, BlockChange, BlockState, block_send, block_receive,
  block_open, block_change, block_state, read_block, read_block_send, read_block_receive,
  read_block_open, read_block_change, read_block_state,
}
use nanocap.Protocol.Encode.{
  encode_block_send, IsBlockSend, encode_block_receive, IsBlockReceive, encode_block_open,
  IsBlockOpen, encode_block_change, IsBlockChange, encode_block_state, IsBlockState,
}
use nanocap.Protocol.RoundTrip.Block.{
  read_block_send-Decodes, read_block_receive-Decodes, read_block_open-Decodes,
  read_block_change-Decodes, read_block_state-Decodes,
}

-- The bytes of a block whose fields have their sizes, with its type.
pub data Encodes : BlockType → Block → Bytes → Type 0 where
  of_send : (b : BlockSend) → IsBlockSend b → Encodes send (block_send b) (encode_block_send b)
  of_receive :
      (b : BlockReceive)
      → IsBlockReceive b
      → Encodes receive (block_receive b) (encode_block_receive b)
  of_open :
      (b : BlockOpen) → IsBlockOpen b → Encodes open_account (block_open b) (encode_block_open b)
  of_change :
      (b : BlockChange) → IsBlockChange b → Encodes change (block_change b) (encode_block_change b)
  of_state :
      (b : BlockState) → IsBlockState b → Encodes state (block_state b) (encode_block_state b)

module _ (k : KStream) where
  open k use {Stream, remaining, pos}

  wrapped :
      {M : Type 0} (read : Parser Stream M) (wrap : M → Block) (m : M) (bs : Bytes)
      → Decodes k read m bs
      → Decodes k (read >>= (λ n. pure (wrap n))) (wrap m) bs
  wrapped read wrap m bs d =
      subst (Decodes k (read >>= (λ n. pure (wrap n))) (wrap m)) (append-nil bs)
        (bind-Decodes k _ d (pure-Decodes k (wrap m)))

  read_block-Decodes :
      {t : BlockType} {b : Block} {bs : Bytes} → Encodes t b bs → Decodes k (read_block k t) b bs
  unfolding read_block
  read_block-Decodes (of_send b h) =
      wrapped (read_block_send k) block_send b _ (read_block_send-Decodes k b h)
  read_block-Decodes (of_receive b h) =
      wrapped (read_block_receive k) block_receive b _ (read_block_receive-Decodes k b h)
  read_block-Decodes (of_open b h) =
      wrapped (read_block_open k) block_open b _ (read_block_open-Decodes k b h)
  read_block-Decodes (of_change b h) =
      wrapped (read_block_change k) block_change b _ (read_block_change-Decodes k b h)
  read_block-Decodes (of_state b h) =
      wrapped (read_block_state k) block_state b _ (read_block_state-Decodes k b h)

  -- A send, receive, open, change or state block whose fields have their sizes is read back, by its
  -- type, from its bytes, whatever follows them, and what follows them is left in the stream.
  pub read_block_lem :
      (t : BlockType) (b : Block) (bs rest : Bytes)
      → Encodes t b bs
      → (s : Stream) → remaining s ≡ bs ++ rest
      → (s' : Stream) × (read_block k t s ≡ ok (b, s'))
        × (remaining s' ≡ rest)
        × (pos s' ≡ pos s + length bs)
  read_block_lem t b bs rest h s e = (read_block-Decodes h).decoded s rest e
