-- ===== src/Tests/Selects.antt =====
-- The class of the body of a keepalive.
use nanocap.Prelude.{arith, ◌≡◌, refl, [], ◌∷◌, ◌+◌, length, some, ok}
use nanocap.Stream.Instance.{Cursor, byte_stream}
use nanocap.Protocol.Enums.{keepalive}
use nanocap.Protocol.Messages.{MsgKeepalive}
use nanocap.Protocol.Nano.{Nano, keepalive_body, read_nano}
use nanocap.Protocol.RoundTrip.Nano.{read_nano-keepalive}
use nanocap.Handler.Tcp.Counts.{counts_after}
use nanocap.Db.{count_type}
use nanocap.Protocol.Enums.{msg_number}
use nanocap.Protocol.Selects.{Selects, read_nano-Selects}
use nanocap.Tests.Data.{header_of}
use nanocap.Tests.Protocol.{cursor, a_peer, keepalive_bytes, keepalive-IsMessageHeader}

abbrev peers_message : MsgKeepalive
peers_message = record { peers = some (a_peer 1 ∷ a_peer 2 ∷ []) }

abbrev peers_nano : Nano
peers_nano = record { header = header_of keepalive 0; body = keepalive_body peers_message }

parsed :
    (s' : Cursor) × (read_nano byte_stream (cursor keepalive_bytes) ≡ ok (peers_nano, s'))
    × (s'.left ≡ [])
    × (s'.position ≡ 0 + length keepalive_bytes)
parsed =
    read_nano-keepalive byte_stream (header_of keepalive 0) (a_peer 1) (a_peer 2 ∷ [])
      keepalive-IsMessageHeader refl
      (
        record { address_ok = refl; port_ok = omega arith },
        (record { address_ok = refl; port_ok = omega arith }, tt),
      )
      (omega arith) (cursor keepalive_bytes) refl

read_nano-Selects_example : Selects keepalive (keepalive_body peers_message)
read_nano-Selects_example =
    read_nano-Selects byte_stream (cursor keepalive_bytes) parsed.0 peers_nano parsed.1

-- The keepalive is counted at index 2.
keepalive_counted :
    counts_after (read_nano byte_stream (byte_stream.open_stream keepalive_bytes)) (λ t. 0) 2 ≡ 1
unfolding count_type msg_number
keepalive_counted = rw (parsed.1, counts_after) refl
