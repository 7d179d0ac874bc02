-- ===== src/Protocol/RoundTrip/Nano.antt =====
-- Reading back whole messages: the header, and the bodies of keepalives, publications and
-- telemetry.
use mathlib.Core.List.{map}
use nanocap.Prelude.{
  ◌+◌, ◌<◌, ◌^◌, ◌≡◌, sym, subst, arith, [], ◌∷◌, ◌++◌, length, length-append, List, some, All,
  ◌==◌, ok,
}
use nanocap.Stream.{KStream, Bytes, joined, eq_bytes}
use nanocap.Stream.Words.{le_bytes, read_u1-Decodes, read_u2le-Decodes}
use nanocap.Stream.Decodes.{
  Decodes, DecodesAll, map-DecodesAll, Decodes-DecodesAll, bind-Decodes, bind-DecodesAll,
  pure-Decodes, read_bytes-Decodes,
}
use nanocap.Stream.Rounds.{Reversible, optional_repeat-DecodesAll}
use nanocap.Protocol.Enums.{
  network_of, network_number, msg_type_of, msg_number, keepalive, publish, telemetry_ack,
  block_type_of,
}
use nanocap.Protocol.Header.{MessageHeader, read_message_header, block_type_int}
use nanocap.Protocol.Block.{BlockState, read_block, read_block_selector, block_state}
use nanocap.Protocol.Messages.{
  Peer, MsgTelemetryAck, read_peer, read_msg_keepalive, read_msg_publish, MsgPublish,
}
use nanocap.Protocol.Nano.{
  Body, read_nano, read_body, keepalive_body, publish_body, telemetry_ack_body,
}
use nanocap.Protocol.Encode.{
  IsPeer, encode_peer, IsBlockState, encode_block_state, IsMsgTelemetryAck,
  encode_msg_telemetry_ack,
}
use nanocap.Protocol.RoundTrip.Block.{read_block_state-Decodes}
use nanocap.Protocol.RoundTrip.Messages.{read_peer-Decodes, read_msg_telemetry_ack-Decodes}

-- A header that has bytes: its numbers fit their fields, and its enumerators are named where they
-- have a name.
pub record IsMessageHeader (h : MessageHeader) : Type 0 where
  pub magic_ok : h.magic ≡ 0x52 ∷ []
  pub network_fits : network_number h.network_id < 256
  pub network_ok : network_of (network_number h.network_id) ≡ h.network_id
  pub max_ok : h.version_max < 256
  pub using_ok : h.version_using < 256
  pub min_ok : h.version_min < 256
  pub type_fits : msg_number h.message_type < 256
  pub type_ok : msg_type_of (msg_number h.message_type) ≡ h.message_type
  pub extensions_ok : h.extensions < 2 ^ 16

abbrev pub encode_message_header : MessageHeader → Bytes
encode_message_header h = joined (
    h.magic
    ∷ le_bytes 1 (network_number h.network_id)
    ∷ le_bytes 1 h.version_max
    ∷ le_bytes 1 h.version_using
    ∷ le_bytes 1 h.version_min
    ∷ le_bytes 1 (msg_number h.message_type)
    ∷ le_bytes 2 h.extensions
    ∷ [])

abbrev pub encode_peers : List Peer → Bytes
encode_peers ps = joined (map encode_peer ps)

abbrev pub state_selector : BlockState → MsgPublish
state_selector b = record { body = record { arg_block_type = 6; block = block_state b } }

peers-Reversible :
    (k : KStream) (ps : List Peer) → All IsPeer ps → All (Reversible k (read_peer k) encode_peer) ps
peers-Reversible k [] h = tt
peers-Reversible k (p ∷ ps) (h, hs) = (
  record {
    reads = read_peer-Decodes k p h;
    some_byte = omega (arith, h.address_ok, length-append p.address (le_bytes 2 p.port ++ []));
  },
  peers-Reversible k ps hs,
)

module _ (k : KStream) where
  magic-Decodes : Decodes k (k.ensure_fixed_contents (0x52 ∷ [])) (0x52 ∷ []) (0x52 ∷ [])
  unfolding eq_bytes
  magic-Decodes =
      rw (k.ensure_fixed_contents_lem (0x52 ∷ []))
        (bind-Decodes k _ (read_bytes-Decodes k (0x52 ∷ [])) (pure-Decodes k (0x52 ∷ [])))

  -- A header is read back from its eight bytes, whatever follows them.
  pub read_message_header-Decodes :
      (h : MessageHeader)
      → IsMessageHeader h
      → Decodes k (read_message_header k) h (encode_message_header h)
  unfolding read_message_header
  read_message_header-Decodes h w =
      let magic : Decodes k (k.ensure_fixed_contents (0x52 ∷ [])) h.magic h.magic =
        rw w.magic_ok magic-Decodes in
      bind-Decodes k _ magic (
        bind-Decodes k _ (read_u1-Decodes k (network_number h.network_id) w.network_fits) (
          bind-Decodes k _ (read_u1-Decodes k h.version_max w.max_ok) (
            bind-Decodes k _ (read_u1-Decodes k h.version_using w.using_ok) (
              bind-Decodes k _ (read_u1-Decodes k h.version_min w.min_ok) (
                bind-Decodes k _ (read_u1-Decodes k (msg_number h.message_type) w.type_fits) (
                  bind-Decodes k _ (read_u2le-Decodes k h.extensions w.extensions_ok)
                    (rw (w.network_ok, w.type_ok) (pure-Decodes k h))))))))

  read_nano-DecodesAll :
      (h : MessageHeader) (b : Body) (bs : Bytes)
      → IsMessageHeader h
      → DecodesAll k (read_body k h.message_type h) b bs
      → DecodesAll k (read_nano k) (record { header = h; body = b }) (encode_message_header h ++ bs)
  unfolding read_nano
  read_nano-DecodesAll h b bs w d =
      bind-DecodesAll k _ (read_message_header-Decodes h w) (map-DecodesAll k _ d)

  -- If a stream holds the bytes of a keepalive with one to eight peers and nothing else, where
  -- header and fields have their sizes, then the parser reads back that message and has read all
  -- of it.
  pub read_nano-keepalive :
      (h : MessageHeader) (p : Peer) (ps : List Peer)
      → IsMessageHeader h
      → h.message_type ≡ keepalive
      → All IsPeer (p ∷ ps)
      → length ps < 8
      → (s : k.Stream) → k.remaining s ≡ encode_message_header h ++ encode_peers (p ∷ ps)
      → (s' : k.Stream) × (read_nano k s
          ≡ ok
              (record { header = h; body = keepalive_body (record { peers = some (p ∷ ps) }) }, s'))
        × (k.remaining s' ≡ [])
        × (k.pos s' ≡ k.pos s + length (encode_message_header h ++ encode_peers (p ∷ ps)))
  unfolding read_body read_msg_keepalive
  read_nano-keepalive h p ps w t hs few =
      (read_nano-DecodesAll h _ (encode_peers (p ∷ ps)) w (
        rw t (
          map-DecodesAll k keepalive_body (
            map-DecodesAll k (λ x. record { peers = x })
              (optional_repeat-DecodesAll k (read_peer k) encode_peer (λ i. i == 8) p ps
                (peers-Reversible k (p ∷ ps) hs) (λ j lo hi. ground arith)))))).decoded_all

  -- If a stream holds the bytes of a publication of a state block and nothing else, where header
  -- and fields have their sizes, then the parser reads back that message and has read all of it.
  pub read_nano-publish_state :
      (h : MessageHeader) (b : BlockState)
      → IsMessageHeader h
      → h.message_type ≡ publish
      → block_type_int h ≡ 6
      → IsBlockState b
      → (s : k.Stream) → k.remaining s ≡ encode_message_header h ++ encode_block_state b
      → (s' : k.Stream) × (read_nano k s
          ≡ ok (record { header = h; body = publish_body (state_selector b) }, s'))
        × (k.remaining s' ≡ [])
        × (k.pos s' ≡ k.pos s + length (encode_message_header h ++ encode_block_state b))
  unfolding read_body read_msg_publish read_block_selector read_block block_type_of
  read_nano-publish_state h b w t six hb =
      let selector : DecodesAll k (read_block_selector k (block_type_int h)) (state_selector b).body
          (encode_block_state b) =
        rw six (
          map-DecodesAll k (λ x. record { arg_block_type = 6; block = x })
            (map-DecodesAll k block_state
              (Decodes-DecodesAll k (read_block_state-Decodes k b hb)))) in
      (read_nano-DecodesAll h _ (encode_block_state b) w (
        subst
          (λ x.
            DecodesAll k (read_body k x h) (publish_body (state_selector b)) (encode_block_state b))
          (sym t)
          (map-DecodesAll k publish_body
            (map-DecodesAll k (λ x. record { body = x }) selector)))).decoded_all

  -- If a stream holds the bytes of a telemetry response and nothing else, where header and fields
  -- have their sizes, then the parser reads back that message and has read all of it.
  pub read_nano-telemetry_ack :
      (h : MessageHeader) (m : MsgTelemetryAck)
      → IsMessageHeader h
      → h.message_type ≡ telemetry_ack
      → IsMsgTelemetryAck m
      → (s : k.Stream) → k.remaining s ≡ encode_message_header h ++ encode_msg_telemetry_ack m
      → (s' : k.Stream) × (read_nano k s
          ≡ ok (record { header = h; body = telemetry_ack_body m }, s'))
        × (k.remaining s' ≡ [])
        × (k.pos s' ≡ k.pos s + length (encode_message_header h ++ encode_msg_telemetry_ack m))
  unfolding read_body
  read_nano-telemetry_ack h m w t hm =
      (read_nano-DecodesAll h _ (encode_msg_telemetry_ack m) w (
        rw t (
          map-DecodesAll k telemetry_ack_body
            (Decodes-DecodesAll k (read_msg_telemetry_ack-Decodes k m hm))))).decoded_all
