-- ===== src/Flow.antt =====
-- The state of a connection (src/packet_handler.hpp, src/shared.hpp).
pub mod Buffer
pub mod Instance
use nanocap.Prelude.{ℕ, ◌-◌, ◌≤◌, ◌≡◌, [], ◌∷◌, ◌++◌, length, drop}
use nanocap.Stream.{Bytes}
use nanocap.Protocol.Enums.{MsgType, invalid}

abbrev pub capacity : ℕ
capacity = 4096

-- The newest `capacity` bytes.
abbrev pub newest : Bytes → Bytes
newest xs = drop (length xs - capacity) xs

-- `boost::circular_buffer<uint8_t>` of 4096 bytes, of which the program makes calls. `contents` is
-- what `size`, `at` and `linearize` show. `view_after_erase n b` is the memory that a pointer of
-- `linearize` shows after the first `n` elements were erased, which the library leaves open.
pub record CircularBuffer : Type 1 where
  pub Buffer : Type 0
  pub fresh : Buffer
  pub contents : Buffer → Bytes
  pub push_back : ℕ → Buffer → Buffer
  pub clear : Buffer → Buffer
  pub erase_begin : ℕ → Buffer → Buffer
  pub view_after_erase : ℕ → Buffer → Bytes
  pub contents-fresh : contents fresh ≡ []
  pub contents-push_back :
      (x : ℕ) (b : Buffer) → contents (push_back x b) ≡ newest (contents b ++ x ∷ [])
  pub contents-clear : (b : Buffer) → contents (clear b) ≡ []
  pub contents-erase_begin :
      (n : ℕ) (b : Buffer)
      → n ≤ length (contents b)
      → contents (erase_begin n b) ≡ drop n (contents b)
  pub contents_le : (b : Buffer) → length (contents b) ≤ capacity
  pub length-view_after_erase :
      (n : ℕ) (b : Buffer) → length (view_after_erase n b) ≡ length (contents b)

pub record NanoPacket : Type 0 where
  pub src_ip : Bytes
  pub dst_ip : Bytes
  pub src_port : ℕ
  pub dst_port : ℕ
  pub timestamp : ℕ
  pub timestamp_usec : ℕ
  pub ip_version : ℕ
  pub payload : Bytes
  pub side : ℕ
  pub flow_key : ℕ

pub record TcpFlowData (Buffer : Type 0) : Type 0 where
  pub requesting_side : ℕ
  pub step : ℕ
  pub request_flags : ℕ
  pub current_msg_type : MsgType
  pub packet_id : ℕ
  pub message_id : ℕ
  pub response_count : ℕ
  pub invalid_response_count : ℕ
  pub accumulated_data : Buffer

module _ (cb : CircularBuffer) where
  open cb use {Buffer, fresh, push_back, clear}

  unfoldable pub reset : MsgType → TcpFlowData Buffer → TcpFlowData Buffer
  reset message_type f = record {
    requesting_side = 0;
    step = 0;
    request_flags = 0;
    current_msg_type = message_type;
    packet_id = 0;
    message_id = 0;
    response_count = 0;
    invalid_response_count = 0;
    accumulated_data = clear f.accumulated_data;
  }

  -- The constructor calls `reset` on fields that have no value, with an empty buffer.
  unfoldable pub new_flow : TcpFlowData Buffer
  new_flow = record {
    requesting_side = 0;
    step = 0;
    request_flags = 0;
    current_msg_type = invalid;
    packet_id = 0;
    message_id = 0;
    response_count = 0;
    invalid_response_count = 0;
    accumulated_data = clear fresh;
  }

  -- `std::copy` through a back inserter.
  unfoldable pub accumulate : Bytes → Buffer → Buffer
  accumulate [] b = b
  accumulate (x ∷ xs) b = accumulate xs (push_back x b)
