-- ===== src/Capture.antt =====
-- The capture (src/packet_handler.cpp): the callbacks of the TCP reassembly, which queue packets,
-- and the thread that handles them. A callback and the handling of a packet are atomic here. In the
-- source they are not: ids are taken before the database is locked, and the state of a connection is
-- not locked, so that an opening or a closing may run in the middle of the handling of a packet.
pub mod Missing
pub mod Run
use nanocap.Prelude.{
  ℕ, suc, zero, ◌+◌, ◌≡◌, Bool, true, false, ◌&&◌, ◌||◌, Option, some, none, List, [], ◌∷◌, ◌++◌,
  length, ltb, ◌==◌, if◌then◌else◌,
}
use nanocap.Stream.{KStream, Bytes}
use nanocap.Util.Text.{codes}
use nanocap.Flow.{CircularBuffer, NanoPacket, TcpFlowData, new_flow, reset}
use nanocap.Protocol.Enums.{invalid}
use nanocap.Db.{Env, Db, put_connection}
use nanocap.Handler.Tcp.{PacketHandler, handle_tcp}

-- What the callbacks read of `pcpp::ConnectionData`: the texts of the addresses, and the rest.
pub record ConnectionData : Type 0 where
  pub src_ip : Bytes
  pub dst_ip : Bytes
  pub src_port : ℕ
  pub dst_port : ℕ
  pub end_sec : ℕ
  pub end_usec : ℕ
  pub is_ipv4 : Bool
  pub flow_key : ℕ

-- The search for `ing]`.
unfoldable pub has_tag : Bytes → Bool
has_tag (a ∷ b ∷ c ∷ d ∷ rest) =
    (a == 105 && (b == 110 && (c == 103 && d == 93))) || has_tag (b ∷ c ∷ d ∷ rest)
has_tag _ = false

abbrev pub opens_bracket : Bytes → Bool
opens_bracket [] = false
opens_bracket (b ∷ bs) = b == 91

-- The text `[nnn bytes missing]` that stands for lost packets.
unfoldable pub has_missing_data : Bytes → Bool
unfolding has_tag
has_missing_data data' = (ltb 16 (length data') && opens_bracket data') && has_tag data'

-- The packet of a callback, with the payload and the side where it has them.
unfoldable pub packet_of : ConnectionData → Bytes → ℕ → NanoPacket
packet_of c payload side = record {
  src_ip = c.src_ip;
  dst_ip = c.dst_ip;
  src_port = c.src_port;
  dst_port = c.dst_port;
  timestamp = c.end_sec;
  timestamp_usec = c.end_usec;
  ip_version = if c.is_ipv4 then 4 else 6;
  payload = payload;
  side = side;
  flow_key = c.flow_key;
}

module _ (cb : CircularBuffer) where
  open cb use {Buffer}

  -- `std::map` of shared pointers: no entry is erased or replaced, so that the pointer of a queued
  -- packet is the entry of its key.
  abbrev pub Connections : Type 0
  Connections = ℕ → Option (TcpFlowData Buffer)

  unfoldable pub update : ℕ → TcpFlowData Buffer → Connections → Connections
  update key flow m n = if n == key then some flow else m n

  -- `map::insert` leaves an entry as it is.
  unfoldable pub insert_new : ℕ → Connections → Connections
  unfolding update new_flow
  insert_new key m = elim (m key) [ none ↦ update key (new_flow cb) m | some flow ↦ m ]

  -- The packet that the processing thread took from the queue, if it is at work, is `current`.
  pub record Capture : Type 0 where
    pub connections : Connections
    pub packet_queue : List NanoPacket
    pub current : Option NanoPacket
    pub stopped : Bool
    pub handler : PacketHandler
    pub db : Db

  -- `tcpReassemblyMsgReadyCallback`.
  unfoldable pub message_ready : ConnectionData → Bytes → ℕ → Capture → Capture
  unfolding insert_new has_missing_data packet_of
  message_ready c [] side s = s
  message_ready c (b ∷ bs) side s =
      let s' = record s { connections = insert_new c.flow_key s.connections } in
      if has_missing_data (b ∷ bs)
      then s'
      else record s' { packet_queue = s'.packet_queue ++ packet_of c (b ∷ bs) side ∷ [] }

  abbrev pub start_flow : ℕ → Connections → Connections
  start_flow key m = elim (m key) [
    | none ↦ update key (new_flow cb) m
    | some flow ↦ update key (reset cb invalid flow) m
  ]

  -- `tcpReassemblyConnectionStartCallback`.
  unfoldable pub connection_start : ConnectionData → Capture → Capture
  unfolding put_connection packet_of update new_flow reset
  connection_start c s = record s {
    connections = start_flow c.flow_key s.connections;
    db = put_connection (packet_of c [] 0) (codes "open connection") s.db;
  }

  -- `tcpReassemblyConnectionEndCallback`: the connection is kept.
  unfoldable pub connection_end : ConnectionData → Capture → Capture
  unfolding put_connection packet_of
  connection_end c s = record s {
    db = put_connection (packet_of c [] 0) (codes "close connection") s.db;
  }

  unfoldable pub stop_packet_processing_thread : Capture → Capture
  stop_packet_processing_thread s = record s { stopped = true }

  -- `front` and `pop_front`: the packet that the thread handles next.
  unfoldable pub take_packet : NanoPacket → List NanoPacket → Capture → Capture
  take_packet info rest s = record s { current = some info; packet_queue = rest }

  module _ (k : KStream) (env : Env) (fuel : ℕ) where
    -- `handle_tcp` on the connection of the packet.
    unfoldable pub handle_on : NanoPacket → TcpFlowData Buffer → Capture → Capture
    unfolding handle_tcp update
    handle_on info flow s =
        let (p, (flow', db')) = handle_tcp k cb env fuel info (s.handler, (flow, s.db)) in
        record s {
          connections = update info.flow_key flow' s.connections;
          current = none;
          handler = p;
          db = db';
        }

    -- A packet has no pointer where the map has no entry.
    unfoldable pub handle_packet : NanoPacket → Capture → Option Capture
    unfolding handle_on
    handle_packet info s = elim (s.connections info.flow_key) [
      | none ↦ none
      | some flow ↦ some (handle_on info flow s)
    ]
