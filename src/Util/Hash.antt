-- ===== src/Util/Hash.antt =====
-- The overloads of `hash_of` in src/util/nanoutil.cpp: which fields are hashed, in which order.
-- `blake2b n updates` is the digest of `n` bytes after the calls of `blake2b_update`.
use nanocap.Prelude.{ℕ, List, [], ◌∷◌, ◌++◌, replicate}
use nanocap.Stream.{Bytes}
use nanocap.Protocol.Block.{BlockSend, BlockReceive, BlockOpen, BlockChange, BlockState}

module _ (blake2b : ℕ → List Bytes → Bytes) where
  -- The preamble is 31 zeros and the number of the block type.
  unfoldable pub hash_of_state : BlockState → Bytes
  hash_of_state b = blake2b 32 (
      (replicate 31 0 ++ 6 ∷ [])
      ∷ b.account
      ∷ b.previous
      ∷ b.representative
      ∷ b.balance
      ∷ b.link
      ∷ [])

  unfoldable pub hash_of_send : BlockSend → Bytes
  hash_of_send b = blake2b 32 (b.previous ∷ b.destination ∷ b.balance ∷ [])

  unfoldable pub hash_of_receive : BlockReceive → Bytes
  hash_of_receive b = blake2b 32 (b.previous ∷ b.source ∷ [])

  unfoldable pub hash_of_open : BlockOpen → Bytes
  hash_of_open b = blake2b 32 (b.source ∷ b.representative ∷ b.account ∷ [])

  unfoldable pub hash_of_change : BlockChange → Bytes
  hash_of_change b = blake2b 32 (b.previous ∷ b.representative ∷ [])
