-- ===== src/Db.antt =====
-- The database (src/db.hpp, src/db.cpp): which calls of SQLite are made, with which values. What
-- SQLite does with them, and the mutex, are outside the model.
pub mod Counts
pub mod Blocks
pub mod Messages
pub mod Bootstrap
pub mod Ids
pub mod Query
pub mod Rows
use nanocap.Prelude.{
  ℕ, suc, ◌+◌, ◌-◌, ◌*◌, ◌%◌, ◌^◌, ◌<◌, Bool, true, false, String, List, [], ◌∷◌, ◌++◌, Option,
  some, none, map, ltb, ◌==◌, if◌then◌else◌,
}
use nanocap.Stream.{Bytes}
use nanocap.Util.Text.{codes}
use nanocap.Flow.{NanoPacket}
use nanocap.Protocol.Enums.{MsgType, msg_number, block_number}
use nanocap.Protocol.Header.{MessageHeader, block_type}

-- The value of a column: `integer` holds a signed 64-bit number as its magnitude and sign.
pub data Value : Type 0 where
  null : Value
  integer : ℕ → Value
  negative : ℕ → Value
  text : Bytes → Value

-- The prepared statements, and the executions that prepare their own.
pub data Statement : Type 0 where
  connection packet block_state block_send block_receive block_open block_change vote host
        nodeid_query nodeid_response telemetry frontier_request frontier_response bulk_pull_request
        bulk_pull_response bulk_push_entry bulk_pull_account_request bulk_pull_account_response
        bulk_pull_account_response_entry :
      Statement

pub data SqlCall : Type 0 where
  bind : Statement → String → Value → SqlCall
  exec reset_statement clear_bindings : Statement → SqlCall
  commit begin_transaction : SqlCall

pub record Config : Type 0 where
  pub max_capture_megabytes : ℕ
  pub block_details : Bool
  pub bootstrap_details : Bool
  pub connection_details : Bool

-- What the code takes from its configuration and from other libraries: `blake2b`, the answers of
-- SQLite to `PRAGMA page_size` and `page_count` after some calls, `strftime` of a time, and the
-- text of an IPv6 address.
pub record Env : Type 0 where
  pub config : Config
  pub open config use *
  pub blake2b : ℕ → List Bytes → Bytes
  pub page_size : List SqlCall → ℕ
  pub page_count : List SqlCall → ℕ
  pub time_string : ℕ → Option Bytes
  pub address_text : Bytes → Bytes

-- The calls are kept in the order in which they are made.
pub record Db : Type 0 where
  pub next_id : ℕ
  pub count_per_type : ℕ → ℕ
  pub max_reached : Bool
  pub calls : List SqlCall

-- `static_cast<int64_t>` of an unsigned 64-bit number: `negative n` is -n.
unfoldable pub as_int64 : ℕ → Value
as_int64 n = if ltb n (2 ^ 63) then integer n else negative (2 ^ 64 - n)

unfoldable pub call : List SqlCall → Db → Db
call cs db = record db { calls = db.calls ++ cs }

abbrev pub bind_all : Statement → List (String × Value) → List SqlCall
bind_all s [] = []
bind_all s ((name, value) ∷ rest) = bind s name value ∷ bind_all s rest

-- Binding some parameters, executing the statement and resetting it.
unfoldable pub execute : Statement → List (String × Value) → Db → Db
unfolding call
execute s fields db = call (bind_all s fields ++ exec s ∷ reset_statement s ∷ []) db

-- `next_id.fetch_add(1)`.
abbrev pub fetch_id : Db → ℕ × Db
fetch_id db = (db.next_id, record db { next_id = db.next_id + 1 })

unfoldable pub flush_internal : Db → Db
unfolding call
flush_internal db = call (commit ∷ begin_transaction ∷ []) db

unfoldable pub count_type : MsgType → (ℕ → ℕ) → ℕ → ℕ
count_type t counts n = if n == msg_number t then counts n + 1 else counts n

module _ (env : Env) where
  open env use {page_size, page_count, time_string}

  -- Every 10000 ids: commit, and compare the size of the database with the maximum.
  unfoldable pub check_size : Db → Db
  unfolding flush_internal
  check_size db =
      let db' = flush_internal db in
      if ltb (env.max_capture_megabytes * 1024 * 1024) (page_size db'.calls * page_count db'.calls)
      then record db' { max_reached = true }
      else db'

  abbrev pub header_columns : MessageHeader → ℕ → List (String × Value)
  header_columns h id =
      (":id", integer id)
      ∷ (":hdr_msg_type", integer (msg_number h.message_type))
      ∷ (":hdr_version_using", integer h.version_using)
      ∷ (":hdr_version_min", integer h.version_min)
      ∷ (":hdr_block_type", integer (block_number (block_type h)))
      ∷ (":hdr_extensions", integer h.extensions)
      ∷ (":content_table", null)
      ∷ (":content_id", null)
      ∷ []

  unfoldable pub bind_header_fields : MessageHeader → ℕ → Db → Db
  unfolding check_size call count_type
  bind_header_fields h id db =
      let db' = if db.next_id % 10000 == 0 then check_size db else db in
      let db'' = call (clear_bindings packet ∷ bind_all packet (header_columns h id)) db' in
      record db'' { count_per_type = count_type h.message_type db''.count_per_type }

  abbrev pub time_binding : Option Bytes → List (String × Value)
  time_binding none = []
  time_binding (some t) = (":time", text t) ∷ []

  abbrev pub packet_columns : NanoPacket → List (String × Value)
  packet_columns info =
      (":srcip", text info.src_ip)
      ∷ (":srcport", integer info.src_port)
      ∷ (":dstip", text info.dst_ip)
      ∷ (":dstport", integer info.dst_port)
      ∷ (":time_usec", integer info.timestamp_usec)
      ∷ (":flow_key", integer info.flow_key)
      ∷ (":ipv", integer info.ip_version)
      ∷ time_binding (time_string info.timestamp)

  unfoldable pub bind_packet_fields : NanoPacket → Db → Db
  unfolding call
  bind_packet_fields info db = call (bind_all packet (packet_columns info)) db

unfoldable pub put_connection : NanoPacket → Bytes → Db → Db
unfolding execute
put_connection info event db =
    let (id, db') = fetch_id db in
    execute connection
      ((":id", integer id)
        ∷ (":ipv", integer info.ip_version)
        ∷ (":srcip", text info.src_ip)
        ∷ (":srcport", integer info.src_port)
        ∷ (":dstip", text info.dst_ip)
        ∷ (":dstport", integer info.dst_port)
        ∷ (":flowkey", integer info.flow_key)
        ∷ (":event", text event)
        ∷ [])
      db'
