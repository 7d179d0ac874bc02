-- ===== src/Protocol/Block.antt =====
-- The block classes of nano.h and `block_selector_t`, which reads one by its type.
use nanocap.Prelude.{ℕ, false, List, Option, Parser, pure, ◌>>=◌}
use nanocap.Stream.{KStream, Bytes}
use nanocap.Stream.Repeat.{optional_repeat}
use nanocap.Protocol.Enums.{
  BlockType, invalid_block, not_a_block, send, receive, open_account, change, state, other_block,
  block_type_of,
}

pub record BlockSend : Type 0 where
  pub previous : Bytes
  pub destination : Bytes
  pub balance : Bytes
  pub signature : Bytes
  pub work : ℕ

pub record BlockReceive : Type 0 where
  pub previous : Bytes
  pub source : Bytes
  pub signature : Bytes
  pub work : ℕ

pub record BlockOpen : Type 0 where
  pub source : Bytes
  pub representative : Bytes
  pub account : Bytes
  pub signature : Bytes
  pub work : ℕ

pub record BlockChange : Type 0 where
  pub previous : Bytes
  pub representative : Bytes
  pub signature : Bytes
  pub work : ℕ

pub record BlockState : Type 0 where
  pub account : Bytes
  pub previous : Bytes
  pub representative : Bytes
  pub balance : Bytes
  pub link : Bytes
  pub signature : Bytes
  pub work : ℕ

-- `empty` is null where the stream had ended.
pub record IgnoreUntilEof : Type 0 where
  pub empty : Option (List ℕ)

pub data Block : Type 0 where
  block_send : BlockSend → Block
  block_receive : BlockReceive → Block
  block_open : BlockOpen → Block
  block_change : BlockChange → Block
  block_state : BlockState → Block
  block_ignored : IgnoreUntilEof → Block

pub record BlockSelector : Type 0 where
  pub arg_block_type : ℕ
  pub block : Block

module _ (k : KStream) where
  open k use {Stream, read_bytes, read_u1, read_u8le, read_u8be}

  unfoldable pub read_block_send : Parser Stream BlockSend
  read_block_send = do
    previous ← read_bytes 32
    destination ← read_bytes 32
    balance ← read_bytes 16
    signature ← read_bytes 64
    work ← read_u8le
    pure (record {
      previous = previous;
      destination = destination;
      balance = balance;
      signature = signature;
      work = work;
    })

  unfoldable pub read_block_receive : Parser Stream BlockReceive
  read_block_receive = do
    previous ← read_bytes 32
    source ← read_bytes 32
    signature ← read_bytes 64
    work ← read_u8le
    pure (record { previous = previous; source = source; signature = signature; work = work })

  unfoldable pub read_block_change : Parser Stream BlockChange
  read_block_change = do
    previous ← read_bytes 32
    representative ← read_bytes 32
    signature ← read_bytes 64
    work ← read_u8le
    pure (record {
      previous = previous;
      representative = representative;
      signature = signature;
      work = work;
    })

  unfoldable pub read_block_open : Parser Stream BlockOpen
  read_block_open = do
    source ← read_bytes 32
    representative ← read_bytes 32
    account ← read_bytes 32
    signature ← read_bytes 64
    work ← read_u8le
    pure (record {
      source = source;
      representative = representative;
      account = account;
      signature = signature;
      work = work;
    })

  -- The work of a state block alone is big-endian.
  unfoldable pub read_block_state : Parser Stream BlockState
  read_block_state = do
    account ← read_bytes 32
    previous ← read_bytes 32
    representative ← read_bytes 32
    balance ← read_bytes 16
    link ← read_bytes 32
    signature ← read_bytes 64
    work ← read_u8be
    pure (record {
      account = account;
      previous = previous;
      representative = representative;
      balance = balance;
      link = link;
      signature = signature;
      work = work;
    })

  unfoldable pub read_ignore_until_eof : Parser Stream IgnoreUntilEof
  read_ignore_until_eof = do
    empty ← optional_repeat k (λ _. false) read_u1
    pure (record { empty = empty })

  unfoldable pub read_block : BlockType → Parser Stream Block
  read_block receive = do b ← read_block_receive; pure (block_receive b)
  read_block change = do b ← read_block_change; pure (block_change b)
  read_block state = do b ← read_block_state; pure (block_state b)
  read_block open_account = do b ← read_block_open; pure (block_open b)
  read_block send = do b ← read_block_send; pure (block_send b)
  read_block invalid_block = do b ← read_ignore_until_eof; pure (block_ignored b)
  read_block not_a_block = do b ← read_ignore_until_eof; pure (block_ignored b)
  read_block (other_block n) = do b ← read_ignore_until_eof; pure (block_ignored b)

  unfoldable pub read_block_selector : ℕ → Parser Stream BlockSelector
  read_block_selector arg_block_type = do
    block ← read_block (block_type_of arg_block_type)
    pure (record { arg_block_type = arg_block_type; block = block })
