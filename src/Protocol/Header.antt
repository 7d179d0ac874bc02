-- ===== src/Protocol/Header.antt =====
-- `message_header_t`: the eight bytes before every message, and the fields packed into the
-- extensions.
pub mod Fields
use nanocap.Prelude.{ℕ, ◌/◌, ◌^◌, [], ◌∷◌, bit_and, Parser, pure, ◌>>=◌}
use nanocap.Stream.{KStream, Bytes}
use nanocap.Protocol.Enums.{BlockType, MsgType, Network, block_type_of, msg_type_of, network_of}

pub record MessageHeader : Type 0 where
  pub magic : Bytes
  pub network_id : Network
  pub version_max : ℕ
  pub version_using : ℕ
  pub version_min : ℕ
  pub message_type : MsgType
  pub extensions : ℕ

unfoldable pub response_flag : MessageHeader → ℕ
response_flag h = bit_and h.extensions 2

unfoldable pub block_type_int : MessageHeader → ℕ
block_type_int h = bit_and h.extensions 3840 / 2 ^ 8

unfoldable pub telemetry_size : MessageHeader → ℕ
telemetry_size h = bit_and h.extensions 2047

unfoldable pub extended_params_present : MessageHeader → ℕ
extended_params_present h = bit_and h.extensions 1

unfoldable pub block_type : MessageHeader → BlockType
unfolding block_type_of
block_type h = block_type_of (bit_and h.extensions 3840 / 2 ^ 8)

unfoldable pub item_count_int : MessageHeader → ℕ
item_count_int h = bit_and h.extensions 61440 / 2 ^ 12

unfoldable pub query_flag : MessageHeader → ℕ
query_flag h = bit_and h.extensions 1

module _ (k : KStream) where
  open k use {Stream, ensure_fixed_contents, read_u1, read_u2le}

  unfoldable pub read_message_header : Parser Stream MessageHeader
  read_message_header = do
    magic ← ensure_fixed_contents (0x52 ∷ [])
    network_id ← read_u1
    version_max ← read_u1
    version_using ← read_u1
    version_min ← read_u1
    message_type ← read_u1
    extensions ← read_u2le
    pure (record {
      magic = magic;
      network_id = network_of network_id;
      version_max = version_max;
      version_using = version_using;
      version_min = version_min;
      message_type = msg_type_of message_type;
      extensions = extensions;
    })
