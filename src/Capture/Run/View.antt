-- ===== src/Capture/Run/View.antt =====
-- The atomic steps against a sequential machine, which has no queue and no threads: its state is
-- the connections, the counts and the database, and it performs one action at a time.
use nanocap.Prelude.{
  ℕ, ◌≡◌, refl, sym, ◌∙◌, ap, Option, some, none, List, [], ◌∷◌, ◌++◌, Bool-cases, inl, inr, ◌==◌,
  ==_iff, if◌then◌else◌,
}
use nanocap.Stream.{KStream, Bytes}
use nanocap.Util.Text.{codes}
use nanocap.Flow.{CircularBuffer, NanoPacket, TcpFlowData, new_flow, reset}
use nanocap.Protocol.Enums.{invalid}
use nanocap.Db.{Env, Db, put_connection}
use nanocap.Handler.Tcp.{PacketHandler, handle_tcp}
use nanocap.Capture.{
  ConnectionData, has_missing_data, packet_of, Connections, Capture, update, insert_new, start_flow,
  message_ready, connection_start, connection_end, take_packet, stop_packet_processing_thread,
  handle_packet, handle_on,
}
use nanocap.Capture.Run.{
  Action, opened, closed, handled, Step, message_step, start_step, end_step, stop_step, take_step,
  handle_step, Run, done, then_step,
}
use nanocap.Capture.Run.Order.{Option-cases, handle_packet-some}

module _ (cb : CircularBuffer) where
  -- A connection for every key: a new one where the program has none.
  pub record View : Type 0 where
    pub flows : ℕ → TcpFlowData cb.Buffer
    pub handler : PacketHandler
    pub db : Db

  abbrev pub or_new : Option (TcpFlowData cb.Buffer) → TcpFlowData cb.Buffer
  or_new none = new_flow cb
  or_new (some flow) = flow

  abbrev pub view : Capture cb → View
  view s = record { flows = λ key. or_new (s.connections key); handler = s.handler; db = s.db }

  abbrev pub set_flow :
      ℕ → TcpFlowData cb.Buffer → (ℕ → TcpFlowData cb.Buffer) → ℕ → TcpFlowData cb.Buffer
  set_flow key flow flows n = if n == key then flow else flows n

  module _ (k : KStream) (env : Env) (fuel : ℕ) where
    -- An action, on the connection of its key.
    abbrev pub perform : Action → View → View
    perform (opened c) v = record v {
      flows = set_flow c.flow_key (reset cb invalid (v.flows c.flow_key)) v.flows;
      db = put_connection (packet_of c [] 0) (codes "open connection") v.db;
    }
    perform (closed c) v = record v {
      db = put_connection (packet_of c [] 0) (codes "close connection") v.db;
    }
    perform (handled info) v =
        let (p, (flow', db')) =
          handle_tcp k cb env fuel info (v.handler, (v.flows info.flow_key, v.db)) in
        record { flows = set_flow info.flow_key flow' v.flows; handler = p; db = db' }

    abbrev pub perform_all : List Action → View → View
    perform_all [] v = v
    perform_all (a ∷ log) v = perform_all log (perform a v)

    perform_all-append :
        (log log' : List Action) (v : View)
        → perform_all (log ++ log') v ≡ perform_all log' (perform_all log v)
    perform_all-append [] log' v = refl
    perform_all-append (a ∷ log) log' v = perform_all-append log log' (perform a v)

    or_new-update :
        (key : ℕ) (flow : TcpFlowData cb.Buffer) (m : Connections cb) (n : ℕ)
        → or_new (update cb key flow m n) ≡ set_flow key flow (λ j. or_new (m j)) n
    unfolding update
    or_new-update key flow m n = elim (Bool-cases (n == key)) [
      | inl e ↦ rw e refl
      | inr e ↦ rw e refl
    ]

    new_entry :
        (key : ℕ) (m : Connections cb) (n : ℕ)
        → m key ≡ none
        → set_flow key (new_flow cb) (λ j. or_new (m j)) n ≡ or_new (m n)
    new_entry key m n e = elim (Bool-cases (n == key)) [
      | inl here ↦
          let same = (==_iff n key).0 here in
          rw here (ap or_new (sym e) ∙ ap (λ j. or_new (m j)) (sym same))
      | inr off ↦ rw off refl
    ]

    or_new-insert :
        (key : ℕ) (m : Connections cb) (n : ℕ) → or_new (insert_new cb key m n) ≡ or_new (m n)
    unfolding insert_new
    or_new-insert key m n = elim (Option-cases (m key)) [
      | inr (flow, e) ↦ rw (e, insert_new) refl
      | inl e ↦ rw (e, insert_new) (or_new-update key (new_flow cb) m n ∙ new_entry key m n e)
    ]

    -- Clearing an empty buffer changes nothing, so that a new connection is as good as a reset one.
    module _ (clear-clear : cb.clear (cb.clear cb.fresh) ≡ cb.clear cb.fresh) where
      reset-new_flow : reset cb invalid (new_flow cb) ≡ new_flow cb
      unfolding reset new_flow
      reset-new_flow =
          ap
            (λ b. record {
              requesting_side = 0;
              step = 0;
              request_flags = 0;
              current_msg_type = invalid;
              packet_id = 0;
              message_id = 0;
              response_count = 0;
              invalid_response_count = 0;
              accumulated_data = b;
            })
            clear-clear

      or_new-start :
          (key : ℕ) (m : Connections cb) (n : ℕ)
          → or_new (start_flow cb key m n)
            ≡ set_flow key (reset cb invalid (or_new (m key))) (λ j. or_new (m j)) n
      or_new-start key m n = elim (Option-cases (m key)) [
        | inr (flow, e) ↦ rw (e, start_flow, or_new) (or_new-update key (reset cb invalid flow) m n)
        | inl e ↦ rw (e, start_flow, reset-new_flow) (or_new-update key (new_flow cb) m n)
      ]

      view_flows :
          (flows flows' : ℕ → TcpFlowData cb.Buffer) (p : PacketHandler) (db : Db)
          → ((n : ℕ) → flows n ≡ flows' n)
          → ◌≡◌ {A = View}
              (record { flows = flows; handler = p; db = db })
              (record { flows = flows'; handler = p; db = db })
      view_flows flows flows' p db h =
          ap (λ fs. record { flows = fs; handler = p; db = db }) (λ i n. h n i)

      message-view :
          (s : Capture cb) (c : ConnectionData) (payload : Bytes) (side : ℕ)
          → view (message_ready cb c payload side s) ≡ view s
      unfolding message_ready
      message-view s c [] side = refl
      message-view s c (b ∷ bs) side =
          let inserted =
            view_flows (λ n. or_new (insert_new cb c.flow_key s.connections n))
              (λ n. or_new (s.connections n)) s.handler s.db
              (or_new-insert c.flow_key s.connections) in
          elim (Bool-cases (has_missing_data (b ∷ bs))) [
            | inl lost ↦ rw lost inserted
            | inr sound ↦ rw sound inserted
          ]

      handle_on-view :
          (s : Capture cb) (info : NanoPacket)
          → view (handle_on cb k env fuel info (or_new (s.connections info.flow_key)) s)
            ≡ perform (handled info) (view s)
      unfolding handle_on
      handle_on-view s info =
          let (p, (flow', db')) =
            handle_tcp k cb env fuel info
              (s.handler, (or_new (s.connections info.flow_key), s.db)) in
          view_flows _ (set_flow info.flow_key flow' (λ n. or_new (s.connections n))) p db'
            (or_new-update info.flow_key flow' s.connections)

      handle-view :
          (s s' : Capture cb) (info : NanoPacket)
          → handle_packet cb k env fuel info s ≡ some s'
          → view s' ≡ perform (handled info) (view s)
      unfolding handle_on
      handle-view s s' info e =
          let (flow, (found, at')) = handle_packet-some k cb env fuel s s' info e in
          ap view at'
          ∙ ap (λ f. view (handle_on cb k env fuel info f s)) (sym (ap or_new found))
          ∙ handle_on-view s info

      Step-view :
          {s s' : Capture cb} {arrived : List NanoPacket} {log : List Action}
          → Step k cb env fuel s arrived log s'
          → view s' ≡ perform_all log (view s)
      unfolding connection_start connection_end take_packet stop_packet_processing_thread
      Step-view (message_step s c payload side) = message-view s c payload side
      Step-view (start_step s c) =
          view_flows _ _ s.handler _ (or_new-start c.flow_key s.connections)
      Step-view (end_step s c) = refl
      Step-view (stop_step s) = refl
      Step-view (take_step s info rest on idle front) = refl
      Step-view (handle_step s s' info busy e returned) = handle-view s s' info e

  -- A run of these steps, each of which is atomic, ends with the connections, counts and database that the sequential machine has after the same
  -- openings, closings and handled packets in their order. It is assumed that clearing an empty
  -- buffer leaves it as it is.
  pub Run-view :
      (k : KStream) (env : Env) (fuel : ℕ)
      → cb.clear (cb.clear cb.fresh) ≡ cb.clear cb.fresh
      → {s s' : Capture cb} {arrived : List NanoPacket} {log : List Action}
      → Run k cb env fuel s arrived log s'
      → view s' ≡ perform_all k env fuel log (view s)
  Run-view k env fuel clear-clear (done s) = refl
  Run-view k env fuel clear-clear (then_step s s' s'' arrived arrived' log log' r st) =
      Step-view k env fuel clear-clear st
      ∙ ap (perform_all k env fuel log') (Run-view k env fuel clear-clear r)
      ∙ sym (perform_all-append k env fuel log log' (view s))
