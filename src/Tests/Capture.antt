-- ===== src/Tests/Capture.antt =====
-- Runs of the capture.
use nanocap.Prelude.{◌≡◌, ◌⊎◌, ◌↔◌, ◌<◌, refl, true, false, none, some, List, [], ◌∷◌, ◌++◌, length}
use nanocap.Stream.{Bytes}
use nanocap.Stream.Instance.{byte_stream}
use nanocap.Flow.{NanoPacket, new_flow}
use nanocap.Flow.Instance.{byte_buffer}
use nanocap.Util.Text.{codes}
use nanocap.Db.{SqlCall}
use nanocap.Db.Ids.{ids, Ascends}
use nanocap.Handler.Tcp.{PacketHandler}
use nanocap.Capture.Run.Ids.{Run-ids}
use nanocap.Capture.{
  ConnectionData, packet_of, has_missing_data, Capture, handle_on, handle_packet,
  stop_packet_processing_thread, message_ready, take_packet,
}
use nanocap.Capture.Missing.{tag, has_missing_data_iff}
use nanocap.Capture.Run.{
  handled, handled_in, Run, Step, done, then_step, message_step, take_step, handle_step,
}
use nanocap.Capture.Run.Order.{pending, Run-order}
use nanocap.Capture.Run.Known.{Known, Run-Known}
use nanocap.Capture.Run.View.{view, perform_all}
use nanocap.Capture.Run.Stopped.{Run-stopped}
use nanocap.Capture.Run.Sequential.{Run-sequential}
use nanocap.Capture.Run.Work.{Work}
use nanocap.Capture.Run.Drain.{InAccount, drains}
use nanocap.Stream.Words.{le_bytes}
use nanocap.Handler.Tcp.Returns.{handle_tcp-returns}
use nanocap.Tests.Data.{test_env, empty_db}
use nanocap.Tests.Protocol.{keepalive_bytes}

abbrev at_rest : PacketHandler
at_rest = record {
  consumed = 0;
  packet_parse_error_count = 0;
  has_device = true;
  capture_stopped = false;
  hung = false;
}

abbrev a_connection : ConnectionData
a_connection = record {
  src_ip = codes "10.0.0.1";
  dst_ip = codes "10.0.0.2";
  src_port = 7075;
  dst_port = 54000;
  end_sec = 1;
  end_usec = 2;
  is_ipv4 = true;
  flow_key = 5;
}

-- A keepalive on a connection.
abbrev a_packet : NanoPacket
a_packet = record {
  src_ip = codes "10.0.0.1";
  dst_ip = codes "10.0.0.2";
  src_port = 7075;
  dst_port = 54000;
  timestamp = 1;
  timestamp_usec = 2;
  ip_version = 4;
  payload = keepalive_bytes;
  side = 0;
  flow_key = 5;
}

has_missing_data_iff_example :
    let bs = codes "[1460 bytes missing]" in
    (has_missing_data bs ≡ true) ↔ (
      (16 < length bs)
      × ((before : Bytes) × ((after : Bytes) × (bs ≡ 91 ∷ (before ++ (tag ++ after))))))
has_missing_data_iff_example = has_missing_data_iff (codes "[1460 bytes missing]")

-- Nothing happened yet.
abbrev initial : Capture byte_buffer
initial = record {
  connections = λ key. none;
  packet_queue = [];
  current = none;
  stopped = false;
  handler = at_rest;
  db = empty_db;
}

abbrev arrived_state : Capture byte_buffer
arrived_state = message_ready byte_buffer a_connection keepalive_bytes 0 initial

abbrev taken_state : Capture byte_buffer
taken_state = take_packet byte_buffer a_packet [] arrived_state

abbrev handled_state : Capture byte_buffer
handled_state =
    handle_on byte_buffer byte_stream test_env 0 a_packet (new_flow byte_buffer) taken_state

arriving : Run byte_stream byte_buffer test_env 0 initial (a_packet ∷ []) [] arrived_state
unfolding has_missing_data packet_of le_bytes
arriving =
    then_step initial initial arrived_state [] (a_packet ∷ []) [] [] (done initial)
      (message_step initial a_connection keepalive_bytes 0)

taking : Step byte_stream byte_buffer test_env 0 arrived_state [] [] taken_state
unfolding message_ready le_bytes
taking = take_step arrived_state a_packet [] refl refl refl

taken_flow : taken_state.connections 5 ≡ some (new_flow byte_buffer)
unfolding message_ready take_packet le_bytes
taken_flow = refl

handled_on :
    handle_packet byte_buffer byte_stream test_env 0 a_packet taken_state ≡ some handled_state
unfolding handle_packet
handled_on = rw (taken_flow, handle_packet) refl

handling_returns : handled_state.handler.hung ≡ false
unfolding handle_on new_flow message_ready take_packet le_bytes
handling_returns =
    handle_tcp-returns byte_stream byte_buffer test_env 0 a_packet at_rest
      (new_flow byte_buffer, empty_db) (λ h. cc)

handling :
    Step byte_stream byte_buffer test_env 0 taken_state [] (handled a_packet ∷ []) handled_state
handling =
    handle_step taken_state handled_state a_packet (unfold take_packet in refl) handled_on
      handling_returns

-- A packet arrives, the thread takes it and handles it.
keepalive-Run :
    Run byte_stream byte_buffer test_env 0 initial
      (a_packet ∷ [])
      (handled a_packet ∷ [])
      handled_state
keepalive-Run =
    then_step initial taken_state handled_state (a_packet ∷ []) [] [] (handled a_packet ∷ [])
      (then_step initial arrived_state taken_state (a_packet ∷ []) [] [] [] arriving taking)
      handling

Run-order_example :
    pending initial ++ a_packet ∷ [] ≡ handled_in (handled a_packet ∷ []) ++ pending handled_state
Run-order_example = Run-order byte_stream byte_buffer test_env 0 keepalive-Run

arrived-Known : Known arrived_state.connections (pending arrived_state)
arrived-Known = Run-Known byte_stream byte_buffer test_env 0 arriving tt

drains_example :
    (last : Capture byte_buffer) × ((ps : List NanoPacket) × (Work byte_stream byte_buffer test_env
          0 arrived_state ps last
        × ((pending arrived_state ≡ ps ++ pending last)
            × ((pending last ≡ []) ⊎ InAccount byte_stream byte_buffer test_env 0 last))))
unfolding message_ready le_bytes
drains_example = drains byte_stream byte_buffer test_env 0 arrived_state refl refl arrived-Known

-- A packet waits when the thread is stopped, and another one arrives.
abbrev stopped_state : Capture byte_buffer
stopped_state = stop_packet_processing_thread byte_buffer arrived_state

abbrev late_state : Capture byte_buffer
late_state = message_ready byte_buffer a_connection keepalive_bytes 0 stopped_state

late : Run byte_stream byte_buffer test_env 0 stopped_state (a_packet ∷ []) [] late_state
unfolding has_missing_data packet_of le_bytes
late =
    then_step stopped_state stopped_state late_state [] (a_packet ∷ []) [] [] (done stopped_state)
      (message_step stopped_state a_connection keepalive_bytes 0)

waiting-Known : Known stopped_state.connections (pending stopped_state)
unfolding stop_packet_processing_thread
waiting-Known = arrived-Known

-- One packet waits before the run and two after it.
Run-Known_example : Known late_state.connections (pending late_state)
Run-Known_example = Run-Known byte_stream byte_buffer test_env 0 late waiting-Known

late_count : length (pending late_state) ≡ 2
unfolding stop_packet_processing_thread message_ready has_missing_data packet_of le_bytes
late_count = refl

Run-stopped_example :
    (handled_in [] ≡ []) × (pending late_state ≡ pending stopped_state ++ a_packet ∷ [])
unfolding stop_packet_processing_thread message_ready le_bytes
Run-stopped_example = Run-stopped byte_stream byte_buffer test_env 0 late refl refl

Run-sequential_example :
    view byte_buffer handled_state
    ≡ perform_all byte_buffer byte_stream test_env 0
        (handled a_packet ∷ [])
        (view byte_buffer initial)
unfolding handle_on take_packet message_ready le_bytes
Run-sequential_example =
    Run-sequential byte_stream byte_buffer test_env 0 refl (a_packet ∷ []) keepalive-Run refl refl

Run-ids_example :
    (new : List SqlCall) × ((handled_state.db.calls ≡ initial.db.calls ++ new)
      × Ascends initial.db.next_id (ids new) handled_state.db.next_id)
Run-ids_example = Run-ids byte_stream byte_buffer test_env 0 (a_packet ∷ []) keepalive-Run
