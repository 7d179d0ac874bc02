-- ===== src/Capture/Run/Order.antt =====
-- The order in which packets are handled, and the connections of those that wait.
use nanocap.Prelude.{
  ℕ, ◌≡◌, ◌≢◌, ◌⊎◌, refl, sym, ◌∙◌, ap, Option, some, none, List, [], ◌∷◌, ◌++◌, append-nil,
  append_assoc, Bool-cases, inl, inr,
}
use nanocap.Stream.{KStream, Bytes}
use nanocap.Flow.{CircularBuffer, NanoPacket, TcpFlowData}
use nanocap.Db.{Env}
use nanocap.Capture.{
  ConnectionData, has_missing_data, Capture, message_ready, connection_start, connection_end,
  take_packet, stop_packet_processing_thread, handle_packet, handle_on,
}
use nanocap.Capture.Run.{
  queued, Action, opened, closed, handled, handled_in, Step, message_step, start_step, end_step,
  stop_step, take_step, handle_step, Run, done, then_step,
}

abbrev pub in_hand : Option NanoPacket → List NanoPacket
in_hand none = []
in_hand (some info) = info ∷ []

-- The packets that are not handled yet, the oldest first.
abbrev pub pending : {cb : CircularBuffer} → Capture cb → List NanoPacket
pending s = in_hand s.current ++ s.packet_queue

none≢some {ℓ} : {A : Type ℓ} {a : A} → ◌≢◌ {A = Option A} none (some a)
none≢some h = cc

pub some≢none {ℓ} : {A : Type ℓ} {a : A} → ◌≢◌ {A = Option A} (some a) none
some≢none h = cc

some-injective {ℓ} : {A : Type ℓ} {a b : A} → ◌≡◌ {A = Option A} (some a) (some b) → a ≡ b
some-injective h = cc

pub Option-cases {ℓ} : {A : Type ℓ} (o : Option A) → (o ≡ none) ⊎ ((a : A) × (o ≡ some a))
Option-cases none = inl refl
Option-cases (some a) = inr (a, refl)

pub handled_in-append :
    (log log' : List Action) → handled_in (log ++ log') ≡ handled_in log ++ handled_in log'
handled_in-append [] log' = refl
handled_in-append (opened c ∷ log) log' = handled_in-append log log'
handled_in-append (closed c ∷ log) log' = handled_in-append log log'
handled_in-append (handled info ∷ log) log' = ap (λ ps. info ∷ ps) (handled_in-append log log')

module _ (k : KStream) (cb : CircularBuffer) (env : Env) (fuel : ℕ) where
  message-pending :
      (s : Capture cb) (c : ConnectionData) (payload : Bytes) (side : ℕ)
      → pending s ++ queued c payload side ≡ pending (message_ready cb c payload side s)
  unfolding message_ready
  message-pending s c [] side = append-nil (pending s)
  message-pending s c (b ∷ bs) side = elim (Bool-cases (has_missing_data (b ∷ bs))) [
    | inl lost ↦ rw lost (append-nil (pending s))
    | inr kept ↦ rw kept (append_assoc (in_hand s.current) s.packet_queue _)
  ]

  -- The connection of a packet that was handled, and the state after it.
  pub handle_packet-some :
      (s s' : Capture cb) (info : NanoPacket)
      → handle_packet cb k env fuel info s ≡ some s'
      → (flow : TcpFlowData cb.Buffer) × ((s.connections info.flow_key ≡ some flow)
          × (s' ≡ handle_on cb k env fuel info flow s))
  unfolding handle_packet
  handle_packet-some s s' info e = elim (Option-cases (s.connections info.flow_key)) [
    | inl missing ↦ let bad = rw (missing, handle_packet) at e in absurd (none≢some bad)
    | inr (flow, found) ↦
        let h = rw (found, handle_packet) at e in (flow, (found, sym (some-injective h)))
  ]

  handle-queue :
      (s s' : Capture cb) (info : NanoPacket)
      → handle_packet cb k env fuel info s ≡ some s'
      → pending s' ≡ s.packet_queue
  unfolding handle_on
  handle-queue s s' info e =
      let (flow, (found, at')) = handle_packet-some s s' info e in ap pending at'

  Step-order :
      {s s' : Capture cb} {arrived : List NanoPacket} {log : List Action}
      → Step k cb env fuel s arrived log s'
      → pending s ++ arrived ≡ handled_in log ++ pending s'
  unfolding take_packet connection_start connection_end stop_packet_processing_thread
  Step-order (message_step s c payload side) = message-pending s c payload side
  Step-order (start_step s c) = append-nil (pending s)
  Step-order (end_step s c) = append-nil (pending s)
  Step-order (stop_step s) = append-nil (pending s)
  Step-order (take_step s info rest on idle front) = rw (idle, front) (append-nil (info ∷ rest))
  Step-order (handle_step s s' info busy e returned) =
      rw busy
        (append-nil (info ∷ s.packet_queue) ∙ ap (λ ps. info ∷ ps) (sym (handle-queue s s' info e)))

  -- In every run, whichever way the callbacks and the processing thread interleave, the packets
  -- that wait at its start, followed by those that are queued in it, are the packets that are
  -- handled in it, followed by those that wait at its end: none is lost, handled twice or
  -- overtaken by another.
  pub Run-order :
      {s s' : Capture cb} {arrived : List NanoPacket} {log : List Action}
      → Run k cb env fuel s arrived log s'
      → pending s ++ arrived ≡ handled_in log ++ pending s'
  Run-order (done s) = append-nil (pending s)
  Run-order (then_step s s' s'' arrived arrived' log log' r st) =
      sym (append_assoc (pending s) arrived arrived')
      ∙ ap (λ ps. ps ++ arrived') (Run-order r)
      ∙ append_assoc (handled_in log) (pending s') arrived'
      ∙ ap (λ ps. handled_in log ++ ps) (Step-order st)
      ∙ sym (append_assoc (handled_in log) (handled_in log') (pending s''))
      ∙ ap (λ ps. ps ++ pending s'') (sym (handled_in-append log log'))
