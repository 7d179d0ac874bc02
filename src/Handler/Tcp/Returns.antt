-- ===== src/Handler/Tcp/Returns.antt =====
-- `handle_tcp` returns.
use nanocap.Prelude.{
  ℕ, ◌≡◌, ◌≢◌, refl, ◌∙◌, none, some, [], ◌∷◌, inl, inr, Bool-cases, Option, Exception,
  runtime_error, other_error, out_of_fuel, ◌==◌, ◌&&◌, ◌%◌, ◌+◌,
}
use nanocap.Stream.{KStream, Bytes}
use nanocap.Stream.Reads.{Outcome-cases}
use nanocap.Flow.{CircularBuffer, NanoPacket}
use nanocap.Protocol.Enums.{
  MsgType, invalid, not_a_type, keepalive, publish, confirm_req, confirm_ack, bulk_pull, bulk_push,
  frontier_req, bulk_pull_blocks, node_id_handshake, bulk_pull_account, telemetry_req,
  telemetry_ack, other_msg,
}
use nanocap.Protocol.Nano.{read_nano}
use nanocap.Protocol.Reads.{read_nano-Reads}
use nanocap.Db.{Env, Db}
use nanocap.Handler.Session.{Session}
use nanocap.Handler.Frontier.Ends.{handle_frontier-ends}
use nanocap.Handler.Bulk.Ends.{handle_bulk_pull-ends, handle_bulk_push-ends}
use nanocap.Handler.Tcp.{PacketHandler, count_packet, catch_all, handle_parsed, process, handle_tcp}

module _ (k : KStream) (cb : CircularBuffer) (env : Env) where
  none-Safe : (o : Option Exception) → o ≡ none → o ≢ some out_of_fuel
  none-Safe o h bad = cc

  parsed-Safe :
      (info : NanoPacket) (s : Session cb)
      → (handle_parsed k cb env info s (read_nano k (k.open_stream info.payload))).1
        ≢ some out_of_fuel
  unfolding handle_parsed
  parsed-Safe info (flow, db) bad =
      elim (Outcome-cases (read_nano k (k.open_stream info.payload))) [
        | inl ((n, ks), e) ↦ let h = rw e at bad in cc
        | inr (x, e) ↦
            let h = rw e at bad in (read_nano-Reads k (k.open_stream info.payload)).safe cc
      ]

  process-Safe :
      (fuel : ℕ) (t : MsgType) (data' : Bytes) (info : NanoPacket) (s : Session cb)
      → t ≢ bulk_pull_account
      → (process k cb env fuel t data' info s).1 ≢ some out_of_fuel
  unfolding process
  process-Safe fuel frontier_req (b ∷ bs) info s h =
      none-Safe _ (handle_frontier-ends k cb env info s)
  process-Safe fuel bulk_pull (b ∷ bs) info s h =
      none-Safe _ (handle_bulk_pull-ends k cb env info s)
  process-Safe fuel bulk_push (b ∷ bs) info s h =
      none-Safe _ (handle_bulk_push-ends k cb env info s)
  process-Safe fuel bulk_pull_account (b ∷ bs) info s h = absurd (h refl)
  process-Safe fuel frontier_req [] info s h = parsed-Safe info s
  process-Safe fuel bulk_pull [] info s h = parsed-Safe info s
  process-Safe fuel bulk_push [] info s h = parsed-Safe info s
  process-Safe fuel bulk_pull_account [] info s h = parsed-Safe info s
  process-Safe fuel invalid bs info s h = parsed-Safe info s
  process-Safe fuel not_a_type bs info s h = parsed-Safe info s
  process-Safe fuel keepalive bs info s h = parsed-Safe info s
  process-Safe fuel publish bs info s h = parsed-Safe info s
  process-Safe fuel confirm_req bs info s h = parsed-Safe info s
  process-Safe fuel confirm_ack bs info s h = parsed-Safe info s
  process-Safe fuel bulk_pull_blocks bs info s h = parsed-Safe info s
  process-Safe fuel node_id_handshake bs info s h = parsed-Safe info s
  process-Safe fuel telemetry_req bs info s h = parsed-Safe info s
  process-Safe fuel telemetry_ack bs info s h = parsed-Safe info s
  process-Safe fuel (other_msg n) bs info s h = parsed-Safe info s

  count-hung : (db : Db) (p : PacketHandler) → (count_packet db p).hung ≡ p.hung
  unfolding count_packet
  count-hung db p =
      elim (Bool-cases ((p.consumed + 1) % 10000 == 0 && (p.has_device && db.max_reached))) [
        | inl e ↦ rw e refl
        | inr e ↦ rw e refl
      ]

  catch-hung :
      (o : Option Exception) (p : PacketHandler)
      → o ≢ some out_of_fuel
      → (catch_all o p).hung ≡ p.hung
  unfolding catch_all
  catch-hung none p h = refl
  catch-hung (some runtime_error) p h = refl
  catch-hung (some other_error) p h = refl
  catch-hung (some out_of_fuel) p h = absurd (h refl)

  -- Any packet, on a connection in any state other than the responses to a bulk pull of an account,
  -- is handled without end of fuel, whatever the fuel is: every loop that it enters ends.
  pub handle_tcp-returns :
      (fuel : ℕ) (info : NanoPacket) (p : PacketHandler) (s : Session cb)
      → s.0.current_msg_type ≢ bulk_pull_account
      → (handle_tcp k cb env fuel info (p, s)).0.hung ≡ p.hung
  unfolding handle_tcp
  handle_tcp-returns fuel info p (flow, db) h =
      catch-hung _ (count_packet db p)
        (process-Safe fuel flow.current_msg_type info.payload info (flow, db) h)
      ∙ count-hung db p
