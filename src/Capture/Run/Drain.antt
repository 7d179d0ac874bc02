-- ===== src/Capture/Run/Drain.antt =====
-- The processing thread catches up.
use nanocap.Prelude.{
  ℕ, ◌≡◌, ◌≢◌, ◌⊎◌, refl, sym, ◌∙◌, ap, subst, true, false, some, List, [], ◌∷◌, ◌++◌, Bool-cases,
  inl, inr,
}
use mathlib.Core.Bool.{true≢false}
use nanocap.Stream.{KStream}
use nanocap.Flow.{CircularBuffer, NanoPacket, TcpFlowData}
use nanocap.Protocol.Enums.{
  MsgType, invalid, not_a_type, keepalive, publish, confirm_req, confirm_ack, bulk_pull, bulk_push,
  frontier_req, bulk_pull_blocks, node_id_handshake, bulk_pull_account, telemetry_req,
  telemetry_ack, other_msg,
}
use nanocap.Db.{Env}
use nanocap.Handler.Tcp.Returns.{handle_tcp-returns}
use nanocap.Capture.{Capture, take_packet, handle_packet, handle_on}
use nanocap.Capture.Run.{handled, Step, handle_step, done, then_step}
use nanocap.Capture.Run.Work.{Work, at_start, then_take, then_handle, Work-order}
use nanocap.Capture.Run.Order.{pending, Option-cases}
use nanocap.Capture.Run.Known.{Known, Run-Known}

head-equal {ℓ} :
    {A : Type ℓ} {x y : A} {xs ys : List A} → ◌≡◌ {A = List A} (x ∷ xs) (y ∷ ys) → x ≡ y
head-equal h = cc

tail-equal {ℓ} :
    {A : Type ℓ} {x y : A} {xs ys : List A} → ◌≡◌ {A = List A} (x ∷ xs) (y ∷ ys) → xs ≡ ys
tail-equal h = cc

account_cases : (t : MsgType) → (t ≡ bulk_pull_account) ⊎ (t ≢ bulk_pull_account)
account_cases bulk_pull_account = inl refl
account_cases invalid = inr (λ h. cc)
account_cases not_a_type = inr (λ h. cc)
account_cases keepalive = inr (λ h. cc)
account_cases publish = inr (λ h. cc)
account_cases confirm_req = inr (λ h. cc)
account_cases confirm_ack = inr (λ h. cc)
account_cases bulk_pull = inr (λ h. cc)
account_cases bulk_push = inr (λ h. cc)
account_cases frontier_req = inr (λ h. cc)
account_cases bulk_pull_blocks = inr (λ h. cc)
account_cases node_id_handshake = inr (λ h. cc)
account_cases telemetry_req = inr (λ h. cc)
account_cases telemetry_ack = inr (λ h. cc)
account_cases (other_msg n) = inr (λ h. cc)

module _ (k : KStream) (cb : CircularBuffer) (env : Env) (fuel : ℕ) where
  -- The thread is at a packet of a connection that waits for the responses to a bulk pull of an
  -- account.
  pub record InAccount (s : Capture cb) : Type 0 where
    pub info : NanoPacket
    pub flow : TcpFlowData cb.Buffer
    pub busy : s.current ≡ some info
    pub found : s.connections info.flow_key ≡ some flow
    pub waits : flow.current_msg_type ≡ bulk_pull_account

  -- Rounds of the thread to a state with no packet that waits, or to such a packet.
  record Drained (s : Capture cb) : Type 0 where
    last : Capture cb
    packets : List NanoPacket
    work : Work k cb env fuel s packets last
    ends : (pending last ≡ []) ⊎ InAccount last

  hangs-account :
      (s : Capture cb) (info : NanoPacket) (flow : TcpFlowData cb.Buffer)
      → s.handler.hung ≡ false
      → (handle_on cb k env fuel info flow s).handler.hung ≡ true
      → flow.current_msg_type ≡ bulk_pull_account
  unfolding handle_on
  hangs-account s info flow works hangs = elim (account_cases flow.current_msg_type) [
    | inl e ↦ e
    | inr other ↦
        let back = handle_tcp-returns k cb env fuel info s.handler (flow, s.db) other in
        absurd (true≢false (sym hangs ∙ back ∙ works))
  ]

  handle_packet-found :
      (s : Capture cb) (info : NanoPacket) (flow : TcpFlowData cb.Buffer)
      → s.connections info.flow_key ≡ some flow
      → handle_packet cb k env fuel info s ≡ some (handle_on cb k env fuel info flow s)
  unfolding handle_packet
  handle_packet-found s info flow found = rw (found, handle_packet) refl

  after-Known :
      (s s' : Capture cb) (info : NanoPacket)
      → Step k cb env fuel s [] (handled info ∷ []) s'
      → Known s.connections (pending s)
      → Known s'.connections (pending s')
  after-Known s s' info st h =
      Run-Known k cb env fuel (then_step s s s' [] [] [] (handled info ∷ []) (done s) st) h

  -- The thread at a packet: its handling returns and the rest follows, or it does not return.
  at_packet :
      (info : NanoPacket) (ps : List NanoPacket) (s s' : Capture cb) (qs : List NanoPacket)
      → ((s'' : Capture cb) (qs' : List NanoPacket)
          → Work k cb env fuel s qs' s''
          → pending s'' ≡ ps
          → s''.stopped ≡ false
          → s''.handler.hung ≡ false
          → Known s''.connections ps
          → Drained s)
      → Work k cb env fuel s qs s'
      → s'.current ≡ some info
      → s'.packet_queue ≡ ps
      → s'.stopped ≡ false
      → s'.handler.hung ≡ false
      → Known s'.connections (info ∷ ps)
      → Drained s
  unfolding handle_on
  at_packet info ps s s' qs next work busy queue on works known =
      elim (Option-cases (s'.connections info.flow_key)) [
        | inl missing ↦ absurd (known.0 missing)
        | inr (flow, found) ↦
            let s'' = handle_on cb k env fuel info flow s' in
            let made = handle_packet-found s' info flow found in
            elim (Bool-cases s''.handler.hung) [
              | inl hangs ↦ record {
                last = s';
                packets = qs;
                work = work;
                ends = inr (record {
                  info = info;
                  flow = flow;
                  busy = busy;
                  found = found;
                  waits = hangs-account s' info flow works hangs;
                });
              }
              | inr returned ↦
                  next s'' (qs ++ info ∷ []) (then_handle s s' s'' qs info work busy made returned)
                    queue on returned
                    (subst (Known s''.connections) queue (
                      after-Known s' s'' info (handle_step s' s'' info busy made returned)
                        (rw (busy, queue) known)))
            ]
      ]

  drain_to :
      (ps : List NanoPacket) (s s' : Capture cb) (qs : List NanoPacket)
      → Work k cb env fuel s qs s'
      → pending s' ≡ ps
      → s'.stopped ≡ false
      → s'.handler.hung ≡ false
      → Known s'.connections ps
      → Drained s
  unfolding take_packet
  drain_to [] s s' qs work waiting on works known = record {
    last = s';
    packets = qs;
    work = work;
    ends = inl waiting;
  }
  drain_to (p ∷ ps) s s' qs work waiting on works known = elim (Option-cases s'.current) [
    | inl idle ↦
        let front : s'.packet_queue ≡ p ∷ ps = rw idle at waiting in
        at_packet p ps s (take_packet cb p ps s') qs (λ t qs'. drain_to ps s t qs')
          (then_take s s' qs p ps work on idle front) refl refl on works known
    | inr (q, busy) ↦
        let all : q ∷ s'.packet_queue ≡ p ∷ ps = rw busy at waiting in
        at_packet p ps s s' qs (λ t qs'. drain_to ps s t qs') work (busy ∙ ap some (head-equal all))
          (tail-equal all) on works known
  ]

  -- From any state in which the thread was not stopped, no handling runs forever, and each packet
  -- that waits has a connection, steps of the thread alone, which take and handle packets, lead to
  -- a state in which no packet waits and all that waited were handled, in their order; or they
  -- lead, after the packets before it, to a packet of a connection that waits for the responses to
  -- a bulk pull of an account.
  pub drains :
      (s : Capture cb)
      → s.stopped ≡ false
      → s.handler.hung ≡ false
      → Known s.connections (pending s)
      → (last : Capture cb) × ((ps : List NanoPacket) × (Work k cb env fuel s ps last
            × ((pending s ≡ ps ++ pending last) × ((pending last ≡ []) ⊎ InAccount last))))
  drains s on works known =
      let d = drain_to (pending s) s s [] (at_start s) refl on works known in
      (d.last, (d.packets, (d.work, (Work-order k cb env fuel d.work, d.ends))))
