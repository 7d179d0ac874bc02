-- ===== src/Handler/Frontier/Ends.antt =====
-- The loop over the responses to a frontier request ends.
use nanocap.Prelude.{
  ℕ, zero, suc, ◌≤◌, ◌<◌, ◌≡◌, refl, ap, arith, none, length, length-drop, length-take, Bool-cases,
  inl, inr, leb, take,
}
use nanocap.Stream.{KStream}
use nanocap.Stream.Reads.{Outcome-cases, Takes-Reads}
use nanocap.Stream.Quiet.{Quiet-runtime, Takes-Quiet}
use nanocap.Flow.{CircularBuffer, NanoPacket, accumulate}
use nanocap.Protocol.Bootstrap.{read_frontier_entry}
use nanocap.Protocol.Sizes.{read_frontier_entry-Takes}
use nanocap.Db.{Env}
use nanocap.Handler.Session.{Session, all_zero}
use nanocap.Handler.Frontier.{frontier_loop, frontier_round, handle_frontier, accept_frontier}

module _ (k : KStream) (cb : CircularBuffer) (env : Env) where
  open cb use {contents}

  frontier_loop-ends :
      (fuel : ℕ) (info : NanoPacket) (s : Session cb)
      → length (contents s.0.accumulated_data) < fuel
      → (frontier_loop k cb env fuel info s).1 ≡ none
  unfolding frontier_loop frontier_round accept_frontier
  frontier_loop-ends zero info s lt = absurd (omega arith)
  frontier_loop-ends (suc fuel) info (flow, db) lt =
      let data' = contents flow.accumulated_data in
      let front = k.open_stream (take 64 data') in
      elim (Bool-cases (leb 64 (length data'))) [
        | inr few ↦ rw few refl
        | inl enough ↦ rw enough (elim (Outcome-cases (read_frontier_entry k front)) [
          | inr (x, t) ↦
              let caught_one =
                Quiet-runtime k front x (Takes-Quiet k (read_frontier_entry-Takes k))
                  (Takes-Reads k (read_frontier_entry-Takes k) front) t in
              rw (t, caught_one) refl
          | inl ((entry, ks), t) ↦
              let (m, le, after) =
                (Takes-Reads k (read_frontier_entry-Takes k) front).moves ks entry t in
              let at : k.pos ks ≡ m =
                omega (arith, after.moved, k.pos-open_stream (take 64 data')) in
              let few : m ≤ length data' = omega (
                arith,
                after.fits,
                ap length (k.remaining-open_stream (take 64 data')),
                length-take 64 data',
              ) in
              rw t (elim (Bool-cases (all_zero entry.account)) [
                | inl zeros ↦ rw zeros refl
                | inr open_ ↦ rw open_ (
                    frontier_loop-ends fuel info
                      (accept_frontier k cb env entry (k.pos ks) (flow, db))
                      (omega (
                        arith,
                        ap length (
                            cb.contents-erase_begin (k.pos ks) flow.accumulated_data (omega arith)),
                        length-drop (k.pos ks) data',
                      )))
              ])
        ])
      ]

  -- Whatever bytes arrive, in whatever state, the loop over the responses to a frontier request ends
  -- by its test, a zero account or a caught `runtime_error`, and no exception leaves it.
  pub handle_frontier-ends :
      (info : NanoPacket) (s : Session cb) → (handle_frontier k cb env info s).1 ≡ none
  unfolding handle_frontier
  handle_frontier-ends info (flow, db) =
      let data' = accumulate cb info.payload flow.accumulated_data in
      frontier_loop-ends (suc (length (contents data'))) info
        (record flow { accumulated_data = data' }, db) (omega arith)
