-- ===== src/Protocol/RoundTrip/Entry.antt =====
-- The entries of bulk pull responses and bulk pushes: the byte of a type and a block of that type.
use nanocap.Prelude.{
  ℕ, zero, ◌<◌, ◌≡◌, refl, ap, arith, [], ◌∷◌, length, throw, runtime_error, ◌>>=◌,
}
use nanocap.Stream.{KStream, Bytes}
use nanocap.Stream.Words.{le_bytes, read_u1-Decodes}
use nanocap.Stream.Decodes.{Decodes, bind-Decodes, map-Decodes}
use nanocap.Protocol.Enums.{block_type_of}
use nanocap.Protocol.Block.{
  Block, block_state, block_send, block_receive, block_open, block_change, block_ignored,
  read_block, read_block_selector,
}
use nanocap.Protocol.Bootstrap.{BulkEntry, read_bulk_pull_entry, read_bulk_push_entry}
use nanocap.Protocol.Encode.{
  encode_block_send, IsBlockSend, encode_block_receive, IsBlockReceive, encode_block_open,
  IsBlockOpen, encode_block_change, IsBlockChange, encode_block_state, IsBlockState,
}
use nanocap.Protocol.RoundTrip.Block.{
  read_block_send-Decodes, read_block_receive-Decodes, read_block_open-Decodes,
  read_block_change-Decodes, read_block_state-Decodes,
}
use nanocap.Protocol.Sizes.{
  read_block_send-Takes, read_block_receive-Takes, read_block_open-Takes, read_block_change-Takes,
  read_block_state-Takes,
}

-- A block that has bytes, its bytes, and the number of its type.
abbrev pub IsBlock : Block → Type 0
IsBlock (block_send b) = IsBlockSend b
IsBlock (block_receive b) = IsBlockReceive b
IsBlock (block_open b) = IsBlockOpen b
IsBlock (block_change b) = IsBlockChange b
IsBlock (block_state b) = IsBlockState b
IsBlock (block_ignored b) = zero ≡ 1

abbrev pub encode_block : Block → Bytes
encode_block (block_send b) = encode_block_send b
encode_block (block_receive b) = encode_block_receive b
encode_block (block_open b) = encode_block_open b
encode_block (block_change b) = encode_block_change b
encode_block (block_state b) = encode_block_state b
encode_block (block_ignored b) = []

abbrev pub type_number : Block → ℕ
type_number (block_send b) = 2
type_number (block_receive b) = 3
type_number (block_open b) = 4
type_number (block_change b) = 5
type_number (block_state b) = 6
type_number (block_ignored b) = 0

abbrev pub entry_of_block : Block → BulkEntry
entry_of_block b = record {
  block_type = type_number b;
  block = record { arg_block_type = type_number b; block = b };
}

abbrev pub encode_entry : Block → Bytes
encode_entry b = type_number b ∷ encode_block b

abbrev pub block_size : Block → ℕ
block_size (block_send b) = 152
block_size (block_receive b) = 136
block_size (block_open b) = 168
block_size (block_change b) = 136
block_size (block_state b) = 216
block_size (block_ignored b) = 0

module _ (k : KStream) where
  read_block-Decodes :
      (b : Block)
      → IsBlock b
      → Decodes k (read_block k (block_type_of (type_number b))) b (encode_block b)
  unfolding read_block block_type_of
  read_block-Decodes (block_send b) h = map-Decodes k block_send (read_block_send-Decodes k b h)
  read_block-Decodes (block_receive b) h =
      map-Decodes k block_receive (read_block_receive-Decodes k b h)
  read_block-Decodes (block_open b) h = map-Decodes k block_open (read_block_open-Decodes k b h)
  read_block-Decodes (block_change b) h =
      map-Decodes k block_change (read_block_change-Decodes k b h)
  read_block-Decodes (block_state b) h = map-Decodes k block_state (read_block_state-Decodes k b h)
  read_block-Decodes (block_ignored b) h = absurd (omega arith)

  -- Less than the size of a block throws.
  read_block-short :
      (b : Block) (s : k.Stream)
      → IsBlock b
      → length (k.remaining s) < block_size b
      → read_block k (block_type_of (type_number b)) s ≡ throw runtime_error
  unfolding read_block block_type_of ◌>>=◌
  read_block-short (block_send b) s h lt = rw ((read_block_send-Takes k).short s lt) refl
  read_block-short (block_receive b) s h lt = rw ((read_block_receive-Takes k).short s lt) refl
  read_block-short (block_open b) s h lt = rw ((read_block_open-Takes k).short s lt) refl
  read_block-short (block_change b) s h lt = rw ((read_block_change-Takes k).short s lt) refl
  read_block-short (block_state b) s h lt = rw ((read_block_state-Takes k).short s lt) refl
  read_block-short (block_ignored b) s h lt = absurd (omega arith)

  byte-Decodes : (b : Block) → Decodes k k.read_u1 (type_number b) (type_number b ∷ [])
  unfolding le_bytes
  byte-Decodes (block_send b) = read_u1-Decodes k 2 (omega arith)
  byte-Decodes (block_receive b) = read_u1-Decodes k 3 (omega arith)
  byte-Decodes (block_open b) = read_u1-Decodes k 4 (omega arith)
  byte-Decodes (block_change b) = read_u1-Decodes k 5 (omega arith)
  byte-Decodes (block_state b) = read_u1-Decodes k 6 (omega arith)
  byte-Decodes (block_ignored b) = read_u1-Decodes k 0 (omega arith)

  pub read_bulk_pull_entry-Decodes :
      (b : Block)
      → IsBlock b
      → Decodes k (read_bulk_pull_entry k) (entry_of_block b) (encode_entry b)
  unfolding read_bulk_pull_entry read_block_selector
  read_bulk_pull_entry-Decodes b h =
      bind-Decodes k _ (byte-Decodes b) (map-Decodes k _ (map-Decodes k _ (read_block-Decodes b h)))

  pub read_bulk_push_entry-Decodes :
      (b : Block)
      → IsBlock b
      → Decodes k (read_bulk_push_entry k) (entry_of_block b) (encode_entry b)
  unfolding read_bulk_push_entry read_block_selector
  read_bulk_push_entry-Decodes b h =
      bind-Decodes k _ (byte-Decodes b) (map-Decodes k _ (map-Decodes k _ (read_block-Decodes b h)))

  -- A type with less than a block behind it throws.
  pub read_bulk_pull_entry-short :
      (b : Block) (xs : Bytes)
      → IsBlock b
      → length xs < block_size b
      → read_bulk_pull_entry k (k.open_stream (type_number b ∷ xs)) ≡ throw runtime_error
  unfolding read_bulk_pull_entry ◌>>=◌ read_block_selector
  read_bulk_pull_entry-short b xs h lt =
      let (s₁, e₁, r₁, _) =
        (byte-Decodes b).decoded (k.open_stream (type_number b ∷ xs)) xs
          (k.remaining-open_stream _) in
      let short = read_block-short b s₁ h (omega (arith, ap length r₁)) in rw (e₁, short) refl

  pub read_bulk_push_entry-short :
      (b : Block) (xs : Bytes)
      → IsBlock b
      → length xs < block_size b
      → read_bulk_push_entry k (k.open_stream (type_number b ∷ xs)) ≡ throw runtime_error
  unfolding read_bulk_push_entry ◌>>=◌ read_block_selector
  read_bulk_push_entry-short b xs h lt =
      let (s₁, e₁, r₁, _) =
        (byte-Decodes b).decoded (k.open_stream (type_number b ∷ xs)) xs
          (k.remaining-open_stream _) in
      let short = read_block-short b s₁ h (omega (arith, ap length r₁)) in rw (e₁, short) refl
