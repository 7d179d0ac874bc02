-- ===== src/Capture/Run.antt =====
-- Runs of the capture: the steps of the callbacks and of the processing thread, in any order.
-- Each step is atomic. That fits the queue, whose accesses are locked, but not the database and the
-- state of a connection where one opens or closes while a packet is handled.
pub mod Order
pub mod Known
pub mod View
pub mod Work
pub mod Drain
pub mod Stopped
pub mod Ids
pub mod Sequential
use nanocap.Prelude.{
  ℕ, ◌≡◌, ◌≢◌, refl, sym, ◌∙◌, ap, Bool, true, false, Option, some, none, List, [], ◌∷◌, ◌++◌,
  append-nil, append_assoc, if◌then◌else◌,
}
use nanocap.Stream.{KStream, Bytes}
use nanocap.Flow.{CircularBuffer, NanoPacket}
use nanocap.Db.{Env}
use nanocap.Capture.{
  ConnectionData, has_missing_data, packet_of, Capture, message_ready, connection_start,
  connection_end, take_packet, stop_packet_processing_thread, handle_packet,
}

-- The packet that a callback queues.
abbrev pub queued : ConnectionData → Bytes → ℕ → List NanoPacket
queued c [] side = []
queued c (b ∷ bs) side = if has_missing_data (b ∷ bs) then [] else packet_of c (b ∷ bs) side ∷ []

-- What a step does to the connections and to the database.
pub data Action : Type 0 where
  opened closed : ConnectionData → Action
  handled : NanoPacket → Action

abbrev pub handled_in : List Action → List NanoPacket
handled_in [] = []
handled_in (opened c ∷ log) = handled_in log
handled_in (closed c ∷ log) = handled_in log
handled_in (handled info ∷ log) = info ∷ handled_in log

module _ (k : KStream) (cb : CircularBuffer) (env : Env) (fuel : ℕ) where
  -- A step with the packets that it queues and the actions that it ends.
  pub data Step : Capture cb → List NanoPacket → List Action → Capture cb → Type 0 where
    message_step :
        (s : Capture cb) (c : ConnectionData) (payload : Bytes) (side : ℕ)
        → Step s (queued c payload side) [] (message_ready cb c payload side s)
    start_step :
        (s : Capture cb) (c : ConnectionData) → Step s [] (opened c ∷ []) (connection_start cb c s)
    end_step :
        (s : Capture cb) (c : ConnectionData) → Step s [] (closed c ∷ []) (connection_end cb c s)
    stop_step : (s : Capture cb) → Step s [] [] (stop_packet_processing_thread cb s)
    -- The test of the inner loop, `front` and `pop_front`.
    take_step :
        (s : Capture cb) (info : NanoPacket) (rest : List NanoPacket)
        → s.stopped ≡ false
        → s.current ≡ none
        → s.packet_queue ≡ info ∷ rest
        → Step s [] [] (take_packet cb info rest s)
    -- A call of `handle_tcp` that returns.
    handle_step :
        (s s' : Capture cb) (info : NanoPacket)
        → s.current ≡ some info
        → handle_packet cb k env fuel info s ≡ some s'
        → s'.handler.hung ≡ false
        → Step s [] (handled info ∷ []) s'

  -- Any number of steps, with the packets that were queued and the actions, in their order.
  pub data Run : Capture cb → List NanoPacket → List Action → Capture cb → Type 0 where
    done : (s : Capture cb) → Run s [] [] s
    then_step :
        (s s' s'' : Capture cb) (arrived arrived' : List NanoPacket) (log log' : List Action)
        → Run s arrived log s'
        → Step s' arrived' log' s''
        → Run s (arrived ++ arrived') (log ++ log') s''
