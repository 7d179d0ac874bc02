-- ===== src/Capture/Run/Known.antt =====
-- The packets that wait have a connection.
use nanocap.Prelude.{
  if_both, ℕ, ◌≡◌, ◌≢◌, refl, sym, subst, append_assoc, Option, some, none, List, [], ◌∷◌, ◌++◌,
  Bool-cases, inl, inr, ◌==◌, ==_iff,
}
use nanocap.Stream.{KStream, Bytes}
use nanocap.Flow.{CircularBuffer, NanoPacket, TcpFlowData, new_flow}
use nanocap.Db.{Env}
use nanocap.Capture.{
  ConnectionData, has_missing_data, packet_of, Connections, Capture, update, insert_new, start_flow,
  message_ready, connection_start, connection_end, take_packet, stop_packet_processing_thread,
  handle_packet, handle_on,
}
use nanocap.Capture.Run.{
  Action, Step, message_step, start_step, end_step, stop_step, take_step, handle_step, Run, done,
  then_step,
}
use nanocap.Capture.Run.Order.{pending, in_hand, Option-cases, handle_packet-some, some≢none}

-- Each of some packets has an entry for its key.
abbrev pub Known : {B : Type 0} → (ℕ → Option B) → List NanoPacket → Type 0
Known m [] = Unit
Known m (p ∷ ps) = (m p.flow_key ≢ none) × Known m ps

module _ (k : KStream) (cb : CircularBuffer) (env : Env) (fuel : ℕ) where
  -- No entry is erased.
  abbrev Keeps : Connections cb → Connections cb → Type 0
  Keeps m m' = (key : ℕ) → m key ≢ none → m' key ≢ none

  Known-Keeps :
      (m m' : Connections cb) (ps : List NanoPacket) → Keeps m m' → Known m ps → Known m' ps
  Known-Keeps m m' [] keeps h = h
  Known-Keeps m m' (p ∷ ps) keeps (h, hs) = (keeps p.flow_key h, Known-Keeps m m' ps keeps hs)

  Known-append :
      (m : Connections cb) (ps qs : List NanoPacket) → Known m ps → Known m qs → Known m (ps ++ qs)
  Known-append m [] qs h h' = h'
  Known-append m (p ∷ ps) qs (h, hs) h' = (h, Known-append m ps qs hs h')

  update-has :
      (key : ℕ) (flow : TcpFlowData cb.Buffer) (m : Connections cb)
      → update cb key flow m key ≢ none
  unfolding update
  update-has key flow m h = some≢none (rw ((==_iff key key).1 refl) at h)

  update-Keeps :
      (key : ℕ) (flow : TcpFlowData cb.Buffer) (m : Connections cb) → Keeps m (update cb key flow m)
  unfolding update
  update-Keeps key flow m n h =
      if_both (λ (o : Option (TcpFlowData cb.Buffer)). o ≢ none) (n == key) some≢none h

  insert_new-Keeps : (key : ℕ) (m : Connections cb) → Keeps m (insert_new cb key m)
  unfolding insert_new
  insert_new-Keeps key m n h = elim (Option-cases (m key)) [
    | inl e ↦ rw (e, insert_new) (update-Keeps key (new_flow cb) m n h)
    | inr (flow, e) ↦ rw (e, insert_new) h
  ]

  insert_new-has : (key : ℕ) (m : Connections cb) → insert_new cb key m key ≢ none
  unfolding insert_new
  insert_new-has key m = elim (Option-cases (m key)) [
    | inl e ↦ rw (e, insert_new) (update-has key (new_flow cb) m)
    | inr (flow, e) ↦ rw (e, insert_new, e) some≢none
  ]

  start_flow-Keeps : (key : ℕ) (m : Connections cb) → Keeps m (start_flow cb key m)
  start_flow-Keeps key m n h = elim (Option-cases (m key)) [
    | inl e ↦ rw (e, start_flow) (update-Keeps key (new_flow cb) m n h)
    | inr (flow, e) ↦ rw (e, start_flow) (update-Keeps key _ m n h)
  ]

  message-Known :
      (s : Capture cb) (c : ConnectionData) (payload : Bytes) (side : ℕ)
      → Known s.connections (pending s)
      → (let s' = message_ready cb c payload side s in Known s'.connections (pending s'))
  unfolding message_ready packet_of
  message-Known s c [] side h = h
  message-Known s c (b ∷ bs) side h =
      let kept =
        Known-Keeps s.connections (insert_new cb c.flow_key s.connections) (pending s)
          (insert_new-Keeps c.flow_key s.connections) h in
      elim (Bool-cases (has_missing_data (b ∷ bs))) [
        | inl lost ↦ rw lost kept
        | inr sound ↦
            rw
              (
                sound,
                sym (
                    append_assoc (in_hand s.current) s.packet_queue
                      (packet_of c (b ∷ bs) side ∷ [])),
              )
              (Known-append _ (pending s) (packet_of c (b ∷ bs) side ∷ []) kept
                (insert_new-has c.flow_key s.connections, tt))
      ]

  Known-drop :
      (m : Connections cb) (o : Option NanoPacket) (ps : List NanoPacket)
      → Known m (in_hand o ++ ps)
      → Known m ps
  Known-drop m none ps h = h
  Known-drop m (some p) ps (h, hs) = hs

  handle-Known :
      (s s' : Capture cb) (info : NanoPacket)
      → handle_packet cb k env fuel info s ≡ some s'
      → Known s.connections (pending s)
      → Known s'.connections (pending s')
  unfolding handle_on
  handle-Known s s' info e h =
      let (flow, (found, at')) = handle_packet-some k cb env fuel s s' info e in
      subst (λ (t : Capture cb). Known t.connections (pending t)) (sym at')
        (Known-Keeps s.connections _ s.packet_queue (update-Keeps info.flow_key _ s.connections)
          (Known-drop s.connections s.current s.packet_queue h))

  Step-Known :
      {s s' : Capture cb} {arrived : List NanoPacket} {log : List Action}
      → Step k cb env fuel s arrived log s'
      → Known s.connections (pending s)
      → Known s'.connections (pending s')
  unfolding take_packet connection_start connection_end stop_packet_processing_thread
  Step-Known (message_step s c payload side) h = message-Known s c payload side h
  Step-Known (start_step s c) h =
      Known-Keeps s.connections (start_flow cb c.flow_key s.connections) (pending s)
        (start_flow-Keeps c.flow_key s.connections) h
  Step-Known (end_step s c) h = h
  Step-Known (stop_step s) h = h
  Step-Known (take_step s info rest on idle front) h = rw (idle, front) at h
  Step-Known (handle_step s s' info busy e returned) h = handle-Known s s' info e h

  -- If each packet that waits has a connection under its key, then so it is after any run,
  -- whichever way the callbacks and the processing thread interleave in it: no packet is queued
  -- without a connection, and none loses it.
  pub Run-Known :
      {s s' : Capture cb} {arrived : List NanoPacket} {log : List Action}
      → Run k cb env fuel s arrived log s'
      → Known s.connections (pending s)
      → Known s'.connections (pending s')
  Run-Known (done s) h = h
  Run-Known (then_step s s' s'' arrived arrived' log log' r st) h = Step-Known st (Run-Known r h)
