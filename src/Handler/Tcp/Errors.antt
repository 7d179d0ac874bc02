-- ===== src/Handler/Tcp/Errors.antt =====
-- What `handle_tcp` does with data that is no message.
use nanocap.Prelude.{
  ℕ, ◌<◌, ◌≡◌, ◌+◌, refl, ap, arith, length, inl, inr, runtime_error, throw, ◌>>=◌,
}
use nanocap.Stream.{KStream, Bytes}
use nanocap.Stream.Reads.{Outcome-cases}
use nanocap.Stream.Quiet.{Quiet-runtime}
use nanocap.Flow.{CircularBuffer, NanoPacket}
use nanocap.Protocol.Header.{read_message_header}
use nanocap.Protocol.Enums.{invalid}
use nanocap.Protocol.Nano.{read_nano}
use nanocap.Protocol.Reads.{read_message_header-Reads}
use nanocap.Protocol.Quiet.{read_message_header-Quiet}
use nanocap.Db.{Env}
use nanocap.Handler.Session.{Session}
use nanocap.Handler.Tcp.{PacketHandler, count_packet, catch_all, handle_parsed, process, handle_tcp}

module _ (k : KStream) where
  read_nano-short :
      (bs : Bytes) → length bs < 8 → read_nano k (k.open_stream bs) ≡ throw runtime_error
  unfolding read_nano ◌>>=◌
  read_nano-short bs lt = elim (Outcome-cases (read_message_header k (k.open_stream bs))) [
    | inl ((h, ks), e) ↦
        let (m, le, after) = (read_message_header-Reads k (k.open_stream bs)).moves ks h e in
        absurd (omega (arith, after.fits, ap length (k.remaining-open_stream bs)))
    | inr (x, e) ↦
        rw
          (
            e,
            Quiet-runtime k (k.open_stream bs) x (read_message_header-Quiet k)
                (read_message_header-Reads k _) e,
          )
          refl
  ]

module _ (k : KStream) (cb : CircularBuffer) (env : Env) where
  -- On a connection that waits for no response, data of less than the eight bytes of a header counts
  -- as one parse error, and leaves the connection and the database as they are.
  pub handle_tcp-short :
      (fuel : ℕ) (info : NanoPacket) (p : PacketHandler) (s : Session cb)
      → s.0.current_msg_type ≡ invalid
      → length info.payload < 8
      → let counted = count_packet s.1 p in
        handle_tcp k cb env fuel info (p, s)
        ≡ (record counted { packet_parse_error_count = counted.packet_parse_error_count + 1 }, s)
  unfolding handle_tcp handle_parsed process catch_all
  handle_tcp-short fuel info p (flow, db) h lt = rw (h, read_nano-short k info.payload lt) refl
