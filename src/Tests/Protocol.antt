-- ===== src/Tests/Protocol.antt =====
-- The parser on concrete bytes.
use nanocap.Prelude.{
  arith, ℕ, ◌+◌, ◌≤◌, ◌≡◌, ◌≢◌, ◌⊎◌, refl, [], ◌∷◌, ◌++◌, length, drop, some, ok, throw, Exception,
  out_of_fuel, other_error, pure, raise, ◌>>=◌,
}
use nanocap.Stream.{Bytes}
use nanocap.Stream.Instance.{byte_stream, Cursor}
use nanocap.Stream.Repeat.{branch}
use nanocap.Protocol.Enums.{
  send, keepalive, publish, telemetry_ack, network_of, network_number, msg_type_of, msg_number,
}
use nanocap.Protocol.Header.{
  block_type_int, item_count_int, query_flag, extended_params_present, response_flag,
  telemetry_size,
}
use nanocap.Protocol.Header.Fields.{header_fields}
use nanocap.Protocol.Block.{BlockSend, read_block, block_send}
use nanocap.Protocol.Messages.{Peer, MsgTelemetryAck}
use nanocap.Protocol.Bootstrap.{read_msg_bulk_push, read_bulk_push_entry}
use nanocap.Protocol.Nano.{Nano, read_nano, keepalive_body, publish_body, telemetry_ack_body}
use nanocap.Protocol.Encode.{encode_block_send, encode_block_state, encode_msg_telemetry_ack}
use nanocap.Protocol.Reads.{read_nano-total, read_msg_bulk_push-one_entry}
use nanocap.Protocol.RoundTrip.Any.{of_send, read_block_lem}
use nanocap.Protocol.RoundTrip.Nano.{
  IsMessageHeader, encode_message_header, encode_peers, state_selector, read_nano-keepalive,
  read_nano-publish_state, read_nano-telemetry_ack,
}
use nanocap.Tests.Data.{fill, header_of, a_block}

abbrev pub cursor : Bytes → Cursor
cursor bs = record { left = bs; position = 0 }

abbrev junk : Cursor
junk = cursor (0x52 ∷ fill 30 2)

read_nano-total_example :
    ((n : Nano) × (s' : Cursor) × (m : ℕ) × (read_nano byte_stream junk ≡ ok (n, s'))
      × (8 ≤ m)
      × (m ≤ length junk.left)
      × (s'.left ≡ drop m junk.left)
      × (s'.position ≡ junk.position + m))
    ⊎ ((x : Exception) × (read_nano byte_stream junk ≡ throw x) × (x ≢ out_of_fuel))
read_nano-total_example = read_nano-total byte_stream junk

two_entries : Cursor
two_entries = cursor (6 ∷ (fill 216 3 ++ (1 ∷ [])))

read_msg_bulk_push-one_entry_example :
    read_msg_bulk_push byte_stream two_entries
    ≡ (read_bulk_push_entry byte_stream >>= λ e.
          branch byte_stream byte_stream.is_eof
            (pure (record { entry = e ∷ [] }))
            (raise other_error))
        two_entries
read_msg_bulk_push-one_entry_example = read_msg_bulk_push-one_entry byte_stream two_entries

header_fields_example :
    let h = header_of keepalive 0xC603 in
    (block_type_int h ≡ 6)
    × (item_count_int h ≡ 12)
    × (query_flag h ≡ 1)
    × (extended_params_present h ≡ 1)
    × (response_flag h ≡ 2)
    × (telemetry_size h ≡ 1539)
header_fields_example = header_fields (header_of keepalive 0xC603) (omega arith)

abbrev pub a_peer : ℕ → Peer
a_peer b = record { address = fill 16 b; port = 7075 }

pub keepalive-IsMessageHeader : IsMessageHeader (header_of keepalive 0)
unfolding network_of network_number msg_number msg_type_of
keepalive-IsMessageHeader = record {
  magic_ok = refl;
  network_fits = omega arith;
  network_ok = refl;
  max_ok = omega arith;
  using_ok = omega arith;
  min_ok = omega arith;
  type_fits = omega arith;
  type_ok = refl;
  extensions_ok = omega arith;
}

publish-IsMessageHeader : IsMessageHeader (header_of publish 0x600)
unfolding network_of network_number msg_number msg_type_of
publish-IsMessageHeader = record {
  magic_ok = refl;
  network_fits = omega arith;
  network_ok = refl;
  max_ok = omega arith;
  using_ok = omega arith;
  min_ok = omega arith;
  type_fits = omega arith;
  type_ok = refl;
  extensions_ok = omega arith;
}

telemetry-IsMessageHeader : IsMessageHeader (header_of telemetry_ack 202)
unfolding network_of network_number msg_number msg_type_of
telemetry-IsMessageHeader = record {
  magic_ok = refl;
  network_fits = omega arith;
  network_ok = refl;
  max_ok = omega arith;
  using_ok = omega arith;
  min_ok = omega arith;
  type_fits = omega arith;
  type_ok = refl;
  extensions_ok = omega arith;
}

abbrev pub keepalive_bytes : Bytes
keepalive_bytes =
    encode_message_header (header_of keepalive 0) ++ encode_peers (a_peer 1 ∷ a_peer 2 ∷ [])

read_nano-keepalive_example :
    (s' : Cursor) × (read_nano byte_stream (cursor keepalive_bytes)
      ≡ ok (
        record {
          header = header_of keepalive 0;
          body = keepalive_body (record { peers = some (a_peer 1 ∷ a_peer 2 ∷ []) });
        },
        s',
      ))
    × (s'.left ≡ [])
    × (s'.position ≡ 0 + length keepalive_bytes)
read_nano-keepalive_example =
    read_nano-keepalive byte_stream (header_of keepalive 0) (a_peer 1) (a_peer 2 ∷ [])
      keepalive-IsMessageHeader refl
      (
        record { address_ok = refl; port_ok = omega arith },
        (record { address_ok = refl; port_ok = omega arith }, tt),
      )
      (omega arith) (cursor keepalive_bytes) refl

abbrev publish_bytes : Bytes
publish_bytes = encode_message_header (header_of publish 0x600) ++ encode_block_state a_block

read_nano-publish_state_example :
    (s' : Cursor) × (read_nano byte_stream (cursor publish_bytes)
      ≡ ok (
        record { header = header_of publish 0x600; body = publish_body (state_selector a_block) },
        s',
      ))
    × (s'.left ≡ [])
    × (s'.position ≡ 0 + length publish_bytes)
read_nano-publish_state_example =
    read_nano-publish_state byte_stream (header_of publish 0x600) a_block publish-IsMessageHeader
      refl (unfold block_type_int in refl)
      (record {
        account_ok = refl;
        previous_ok = refl;
        representative_ok = refl;
        balance_ok = refl;
        link_ok = refl;
        signature_ok = refl;
        work_ok = omega arith;
      })
      (cursor publish_bytes) refl

abbrev telemetry : MsgTelemetryAck
telemetry = record {
  signature = fill 64 1;
  nodeid = fill 32 2;
  blockcount = 3;
  cementedcount = 4;
  uncheckedcount = 5;
  accountcount = 6;
  bandwidthcap = 7;
  uptime = 8;
  peercount = 9;
  protocolversion = 10;
  genesisblock = fill 32 11;
  majorversion = 12;
  minorversion = 13;
  patchversion = 14;
  prereleaseversion = 15;
  maker = 16;
  timestamp = 17;
  activedifficulty = 18;
}

abbrev telemetry_bytes : Bytes
telemetry_bytes =
    encode_message_header (header_of telemetry_ack 202) ++ encode_msg_telemetry_ack telemetry

read_nano-telemetry_ack_example :
    (s' : Cursor) × (read_nano byte_stream (cursor telemetry_bytes)
      ≡ ok (
        record { header = header_of telemetry_ack 202; body = telemetry_ack_body telemetry },
        s',
      ))
    × (s'.left ≡ [])
    × (s'.position ≡ 0 + length telemetry_bytes)
read_nano-telemetry_ack_example =
    read_nano-telemetry_ack byte_stream (header_of telemetry_ack 202) telemetry
      telemetry-IsMessageHeader refl
      (record {
        signature_ok = refl;
        nodeid_ok = refl;
        genesisblock_ok = refl;
        blockcount_ok = omega arith;
        cementedcount_ok = omega arith;
        uncheckedcount_ok = omega arith;
        accountcount_ok = omega arith;
        bandwidthcap_ok = omega arith;
        uptime_ok = omega arith;
        peercount_ok = omega arith;
        protocolversion_ok = omega arith;
        majorversion_ok = omega arith;
        minorversion_ok = omega arith;
        patchversion_ok = omega arith;
        prereleaseversion_ok = omega arith;
        maker_ok = omega arith;
        timestamp_ok = omega arith;
        activedifficulty_ok = omega arith;
      })
      (cursor telemetry_bytes) refl

abbrev send_value : BlockSend
send_value = record {
  previous = fill 32 1;
  destination = fill 32 2;
  balance = fill 16 3;
  signature = fill 64 4;
  work = 5;
}

read_block_lem_example :
    (s' : Cursor) × (read_block byte_stream send (cursor (encode_block_send send_value ++ (9 ∷ [])))
      ≡ ok (block_send send_value, s'))
    × (s'.left ≡ 9 ∷ [])
    × (s'.position ≡ 0 + length (encode_block_send send_value))
read_block_lem_example =
    read_block_lem byte_stream send (block_send send_value) (encode_block_send send_value) (9 ∷ [])
      (of_send send_value (record {
        previous_ok = refl;
        destination_ok = refl;
        balance_ok = refl;
        signature_ok = refl;
        work_ok = omega arith;
      }))
      (cursor (encode_block_send send_value ++ (9 ∷ []))) refl
