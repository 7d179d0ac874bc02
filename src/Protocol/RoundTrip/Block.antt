-- ===== src/Protocol/RoundTrip/Block.antt =====
-- Reading back what the wire format writes: the classes of Protocol/Block.antt of a fixed size.
use nanocap.Stream.{KStream}
use nanocap.Stream.Decodes.{Decodes, bytes-Decodes, bind-Decodes, pure-Decodes}
use nanocap.Stream.Words.{read_u8be-Decodes, read_u8le-Decodes}
use nanocap.Protocol.Block.{
  BlockSend, read_block_send, BlockReceive, read_block_receive, BlockOpen, read_block_open,
  BlockChange, read_block_change, BlockState, read_block_state,
}
use nanocap.Protocol.Encode.{
  IsBlockSend, encode_block_send, IsBlockReceive, encode_block_receive, IsBlockOpen,
  encode_block_open, IsBlockChange, encode_block_change, IsBlockState, encode_block_state,
}

module _ (k : KStream) where
  pub read_block_send-Decodes :
      (v : BlockSend) → IsBlockSend v → Decodes k (read_block_send k) v (encode_block_send v)
  unfolding read_block_send
  read_block_send-Decodes v h = bind-Decodes k _ (bytes-Decodes k 32 v.previous h.previous_ok) (
      bind-Decodes k _ (bytes-Decodes k 32 v.destination h.destination_ok) (
        bind-Decodes k _ (bytes-Decodes k 16 v.balance h.balance_ok) (
          bind-Decodes k _ (bytes-Decodes k 64 v.signature h.signature_ok)
            (bind-Decodes k _ (read_u8le-Decodes k v.work h.work_ok) (pure-Decodes k v)))))

  pub read_block_receive-Decodes :
      (v : BlockReceive)
      → IsBlockReceive v
      → Decodes k (read_block_receive k) v (encode_block_receive v)
  unfolding read_block_receive
  read_block_receive-Decodes v h = bind-Decodes k _ (bytes-Decodes k 32 v.previous h.previous_ok) (
      bind-Decodes k _ (bytes-Decodes k 32 v.source h.source_ok) (
        bind-Decodes k _ (bytes-Decodes k 64 v.signature h.signature_ok)
          (bind-Decodes k _ (read_u8le-Decodes k v.work h.work_ok) (pure-Decodes k v))))

  pub read_block_open-Decodes :
      (v : BlockOpen) → IsBlockOpen v → Decodes k (read_block_open k) v (encode_block_open v)
  unfolding read_block_open
  read_block_open-Decodes v h = bind-Decodes k _ (bytes-Decodes k 32 v.source h.source_ok) (
      bind-Decodes k _ (bytes-Decodes k 32 v.representative h.representative_ok) (
        bind-Decodes k _ (bytes-Decodes k 32 v.account h.account_ok) (
          bind-Decodes k _ (bytes-Decodes k 64 v.signature h.signature_ok)
            (bind-Decodes k _ (read_u8le-Decodes k v.work h.work_ok) (pure-Decodes k v)))))

  pub read_block_change-Decodes :
      (v : BlockChange)
      → IsBlockChange v
      → Decodes k (read_block_change k) v (encode_block_change v)
  unfolding read_block_change
  read_block_change-Decodes v h = bind-Decodes k _ (bytes-Decodes k 32 v.previous h.previous_ok) (
      bind-Decodes k _ (bytes-Decodes k 32 v.representative h.representative_ok) (
        bind-Decodes k _ (bytes-Decodes k 64 v.signature h.signature_ok)
          (bind-Decodes k _ (read_u8le-Decodes k v.work h.work_ok) (pure-Decodes k v))))

  pub read_block_state-Decodes :
      (v : BlockState) → IsBlockState v → Decodes k (read_block_state k) v (encode_block_state v)
  unfolding read_block_state
  read_block_state-Decodes v h = bind-Decodes k _ (bytes-Decodes k 32 v.account h.account_ok) (
      bind-Decodes k _ (bytes-Decodes k 32 v.previous h.previous_ok) (
        bind-Decodes k _ (bytes-Decodes k 32 v.representative h.representative_ok) (
          bind-Decodes k _ (bytes-Decodes k 16 v.balance h.balance_ok) (
            bind-Decodes k _ (bytes-Decodes k 32 v.link h.link_ok) (
              bind-Decodes k _ (bytes-Decodes k 64 v.signature h.signature_ok)
                (bind-Decodes k _ (read_u8be-Decodes k v.work h.work_ok) (pure-Decodes k v)))))))
