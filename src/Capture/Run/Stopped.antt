-- ===== src/Capture/Run/Stopped.antt =====
-- What becomes of packets that wait when the processing thread is stopped.
use nanocap.Prelude.{ℕ, ◌≡◌, refl, sym, ◌∙◌, ap, true, none, List, [], ◌∷◌, ◌++◌, if_both}
use mathlib.Core.Bool.{true≢false}
use nanocap.Stream.{KStream, Bytes}
use nanocap.Flow.{CircularBuffer, NanoPacket}
use nanocap.Db.{Env}
use nanocap.Capture.{
  ConnectionData, Capture, has_missing_data, message_ready, connection_start, connection_end,
  take_packet, stop_packet_processing_thread,
}
use nanocap.Capture.Run.{
  Action, handled_in, Step, message_step, start_step, end_step, stop_step, take_step, handle_step,
  Run, done, then_step,
}
use nanocap.Capture.Run.Order.{pending, Run-order, some≢none, handled_in-append}

module _ (k : KStream) (cb : CircularBuffer) (env : Env) (fuel : ℕ) where
  -- The thread was stopped, and is at no packet.
  record IsStopped (s : Capture cb) : Type 0 where
    stop_set : s.stopped ≡ true
    idle : s.current ≡ none

  message-IsStopped :
      (c : ConnectionData) (payload : Bytes) (side : ℕ) (s : Capture cb)
      → IsStopped s
      → IsStopped (message_ready cb c payload side s)
  unfolding message_ready
  message-IsStopped c [] side s h = h
  message-IsStopped c (b ∷ bs) side s h =
      if_both IsStopped (has_missing_data (b ∷ bs))
        (record { stop_set = h.stop_set; idle = h.idle })
        (record { stop_set = h.stop_set; idle = h.idle })

  Step-IsStopped :
      {s s' : Capture cb} {arrived : List NanoPacket} {log : List Action}
      → Step k cb env fuel s arrived log s'
      → IsStopped s
      → IsStopped s' × (handled_in log ≡ [])
  unfolding connection_start connection_end take_packet stop_packet_processing_thread
  Step-IsStopped (message_step s c payload side) h = (message-IsStopped c payload side s h, refl)
  Step-IsStopped (start_step s c) h = (record { stop_set = h.stop_set; idle = h.idle }, refl)
  Step-IsStopped (end_step s c) h = (record { stop_set = h.stop_set; idle = h.idle }, refl)
  Step-IsStopped (stop_step s) h = (record { stop_set = refl; idle = h.idle }, refl)
  Step-IsStopped (take_step s info rest on idle front) h = absurd (true≢false (sym h.stop_set ∙ on))
  Step-IsStopped (handle_step s s' info busy e returned) h = absurd (some≢none (sym busy ∙ h.idle))

  Run-IsStopped :
      {s s' : Capture cb} {arrived : List NanoPacket} {log : List Action}
      → Run k cb env fuel s arrived log s'
      → IsStopped s
      → IsStopped s' × (handled_in log ≡ [])
  Run-IsStopped (done s) h = (h, refl)
  Run-IsStopped (then_step s s' s'' arrived arrived' log log' r st) h =
      let (h', none_before) = Run-IsStopped r h in
      let (h'', none_now) = Step-IsStopped st h' in
      (h'', handled_in-append log log' ∙ ap (λ ps. ps ++ handled_in log') none_before ∙ none_now)

  -- Once the thread was stopped and is at no packet, no run handles a packet: those that waited and
  -- those that arrive still wait at its end, whatever happens in it.
  pub Run-stopped :
      {s s' : Capture cb} {arrived : List NanoPacket} {log : List Action}
      → Run k cb env fuel s arrived log s'
      → s.stopped ≡ true
      → s.current ≡ none
      → (handled_in log ≡ []) × (pending s' ≡ pending s ++ arrived)
  Run-stopped {s'} r stop_set idle =
      let (h, nothing) = Run-IsStopped r (record { stop_set = stop_set; idle = idle }) in
      (nothing, sym (Run-order k cb env fuel r ∙ ap (λ ps. ps ++ pending s') nothing))
