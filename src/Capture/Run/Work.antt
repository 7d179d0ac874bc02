-- ===== src/Capture/Run/Work.antt =====
-- Rounds of the processing thread without a step of a callback.
use nanocap.Prelude.{
  ℕ, ◌≡◌, refl, sym, ◌∙◌, ap, subst, false, some, none, List, [], ◌∷◌, ◌++◌, map, append-nil,
}
use nanocap.Stream.{KStream}
use nanocap.Flow.{CircularBuffer, NanoPacket}
use nanocap.Db.{Env}
use nanocap.Capture.{Capture, take_packet, handle_packet}
use nanocap.Capture.Run.{handled, take_step, handle_step, Run, done, then_step}
use nanocap.Capture.Run.Order.{pending, Run-order}
use nanocap.Capture.Run.Sequential.{handled_in-map}

module _ (k : KStream) (cb : CircularBuffer) (env : Env) (fuel : ℕ) where
  -- Rounds of the processing thread and nothing else: it takes a packet, or it handles one. The
  -- packets are those that it handled, in their order.
  pub data Work : Capture cb → List NanoPacket → Capture cb → Type 0 where
    at_start : (s : Capture cb) → Work s [] s
    then_take :
        (s s' : Capture cb) (ps : List NanoPacket) (info : NanoPacket) (rest : List NanoPacket)
        → Work s ps s'
        → s'.stopped ≡ false
        → s'.current ≡ none
        → s'.packet_queue ≡ info ∷ rest
        → Work s ps (take_packet cb info rest s')
    then_handle :
        (s s' s'' : Capture cb) (ps : List NanoPacket) (info : NanoPacket)
        → Work s ps s'
        → s'.current ≡ some info
        → handle_packet cb k env fuel info s' ≡ some s''
        → s''.handler.hung ≡ false
        → Work s (ps ++ info ∷ []) s''

  map-append :
      (ps : List NanoPacket) (p : NanoPacket)
      → map handled (ps ++ p ∷ []) ≡ map handled ps ++ handled p ∷ []
  map-append [] p = refl
  map-append (q ∷ ps) p = ap (λ log. handled q ∷ log) (map-append ps p)

  -- The rounds of the thread are a run.
  Work-Run :
      {s s' : Capture cb} {ps : List NanoPacket}
      → Work s ps s'
      → Run k cb env fuel s [] (map handled ps) s'
  Work-Run (at_start s) = done s
  Work-Run (then_take s s' ps info rest w on idle front) =
      subst (λ log. Run k cb env fuel s [] log (take_packet cb info rest s'))
        (append-nil (map handled ps))
        (then_step s s' _ [] [] (map handled ps) [] (Work-Run w)
          (take_step s' info rest on idle front))
  Work-Run (then_handle s s' s'' ps info w busy e returned) =
      subst (λ log. Run k cb env fuel s [] log s'') (sym (map-append ps info))
        (then_step s s' s'' [] [] (map handled ps) (handled info ∷ []) (Work-Run w)
          (handle_step s' s'' info busy e returned))

  -- The packets that the thread handled are those that waited before, less those that still wait.
  pub Work-order :
      {s s' : Capture cb} {ps : List NanoPacket} → Work s ps s' → pending s ≡ ps ++ pending s'
  Work-order {s} {s'} {ps} w =
      sym (append-nil (pending s))
      ∙ Run-order k cb env fuel (Work-Run w)
      ∙ ap (λ qs. qs ++ pending s') (handled_in-map ps)
