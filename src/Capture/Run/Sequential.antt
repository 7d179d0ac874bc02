-- ===== src/Capture/Run/Sequential.antt =====
-- Runs in which the thread catches up are the packets handled one after another.
use nanocap.Prelude.{ℕ, ◌≡◌, refl, sym, ◌∙◌, ap, List, [], ◌∷◌, ◌++◌, map, append-nil}
use nanocap.Stream.{KStream}
use nanocap.Flow.{CircularBuffer, NanoPacket}
use nanocap.Db.{Env}
use nanocap.Capture.{Capture}
use nanocap.Capture.Run.{handled, handled_in, Run}
use nanocap.Capture.Run.Order.{pending, Run-order}
use nanocap.Capture.Run.View.{view, perform_all, Run-view}

pub handled_in-map : (ps : List NanoPacket) → handled_in (map handled ps) ≡ ps
handled_in-map [] = refl
handled_in-map (p ∷ ps) = ap (λ qs. p ∷ qs) (handled_in-map ps)

-- A run in which no connection opens or closes, from a state in which no packet waits to another,
-- ends with the connections, counts and database of handling the packets that arrived one after
-- another in the order of their arrival, without a queue or another thread. It is assumed that
-- clearing an empty buffer leaves it as it is.
pub Run-sequential :
    (k : KStream) (cb : CircularBuffer) (env : Env) (fuel : ℕ)
    → cb.clear (cb.clear cb.fresh) ≡ cb.clear cb.fresh
    → (ps : List NanoPacket) → {s s' : Capture cb} {arrived : List NanoPacket}
    → Run k cb env fuel s arrived (map handled ps) s'
    → pending s ≡ []
    → pending s' ≡ []
    → view cb s' ≡ perform_all cb k env fuel (map handled arrived) (view cb s)
Run-sequential k cb env fuel clear-clear ps {s} {s'} {arrived} r before after =
    let same : arrived ≡ ps =
      sym (ap (λ qs. qs ++ arrived) before)
      ∙ Run-order k cb env fuel r
      ∙ ap (λ qs. handled_in (map handled ps) ++ qs) after
      ∙ append-nil (handled_in (map handled ps))
      ∙ handled_in-map ps in
    Run-view cb k env fuel clear-clear r
    ∙ ap (λ qs. perform_all cb k env fuel (map handled qs) (view cb s)) (sym same)
