-- ===== src/Tests/Data.antt =====
-- Concrete inputs.
use nanocap.Prelude.{ℕ, zero, suc, [], ◌∷◌, Bool, true, none, length}
use nanocap.Stream.{Bytes}
use nanocap.Flow.{NanoPacket}
use nanocap.Flow.Instance.{byte_buffer}
use nanocap.Protocol.Enums.{MsgType, network_live}
use nanocap.Protocol.Header.{MessageHeader}
use nanocap.Protocol.Block.{BlockState}
use nanocap.Protocol.Bootstrap.{FrontierEntry, BulkPullAccountEntry}
use nanocap.Db.{Env, Db}
use nanocap.Handler.Session.{Session}

abbrev pub fill : ℕ → ℕ → Bytes
fill zero b = []
fill (suc n) b = b ∷ fill n b

abbrev pub test_env : Env
test_env = record {
  config = record {
    max_capture_megabytes = 10;
    block_details = true;
    bootstrap_details = true;
    connection_details = true;
  };
  blake2b = λ n data'. fill n 0;
  page_size = λ calls. 4096;
  page_count = λ calls. length calls;
  time_string = λ t. none;
  address_text = λ a. a;
}

abbrev pub packet_of : Bytes → NanoPacket
packet_of payload = record {
  src_ip = [];
  dst_ip = [];
  src_port = 7075;
  dst_port = 7075;
  timestamp = 0;
  timestamp_usec = 0;
  ip_version = 6;
  payload = payload;
  side = 0;
  flow_key = 1;
}

abbrev pub empty_db : Db
empty_db = record { next_id = 1; count_per_type = λ t. 0; max_reached = Bool.false; calls = [] }

abbrev pub session_in : MsgType → ℕ → ℕ → Bytes → Session byte_buffer
session_in t step flags buffer = (
  record {
    requesting_side = 0;
    step = step;
    request_flags = flags;
    current_msg_type = t;
    packet_id = 1;
    message_id = 2;
    response_count = 0;
    invalid_response_count = 0;
    accumulated_data = buffer;
  },
  empty_db,
)

abbrev pub entry_of : ℕ → FrontierEntry
entry_of b = record { account = fill 32 b; frontier_hash = fill 32 (suc b) }

abbrev pub full_entry : BulkPullAccountEntry
full_entry = record { flags = 2; hash = fill 32 3; amount = fill 16 0; source = fill 32 4 }

abbrev pub header_of : MsgType → ℕ → MessageHeader
header_of t extensions = record {
  magic = 0x52 ∷ [];
  network_id = network_live;
  version_max = 18;
  version_using = 18;
  version_min = 16;
  message_type = t;
  extensions = extensions;
}

abbrev pub a_block : BlockState
a_block = record {
  account = fill 32 1;
  previous = fill 32 2;
  representative = fill 32 3;
  balance = fill 16 4;
  link = fill 32 5;
  signature = fill 64 6;
  work = 7;
}
