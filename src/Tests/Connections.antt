-- ===== src/Tests/Connections.antt =====
-- Connections: the loops over responses, and what `handle_tcp` makes of a packet.
use nanocap.Prelude.{
  arith, ℕ, ◌+◌, ◌≡◌, refl, [], ◌∷◌, ◌++◌, none, some, true, false, out_of_fuel, ◌⊎◌,
}
use nanocap.Stream.Instance.{byte_stream}
use nanocap.Flow.{reset, newest}
use nanocap.Flow.Instance.{byte_buffer}
use nanocap.Util.Text.{codes, to_hex}
use nanocap.Util.Text.Hex.{from_hex, from_hex-to_hex}
use nanocap.Protocol.Enums.{frontier_req, bulk_pull_account, invalid, keepalive}
use nanocap.Protocol.Nano.{keepalive_body}
use nanocap.Protocol.Bootstrap.{BulkEntry}
use nanocap.Protocol.Block.{block_state}
use nanocap.Protocol.Encode.{encode_frontier_entry}
use nanocap.Db.Bootstrap.{put_bulk_pull_entry}
use nanocap.Db.Bootstrap.Invalid.{put_bulk_pull_entry-invalid}
use nanocap.Handler.Session.{Session, all_zero}
use nanocap.Handler.Session.Ended.{IsEnded}
use nanocap.Handler.Frontier.{handle_frontier}
use nanocap.Handler.Frontier.Split.{
  IsOpen, accept_all, bytes_of, with_payload, handle_frontier-open, handle_frontier-end,
}
use nanocap.Handler.Frontier.Chunks.{handle_frontier-chunks}
use nanocap.Handler.Account.{account_loop}
use nanocap.Handler.Account.Rounds.{encode_full, account_loop-never_ends}
use nanocap.Handler.Account.First.{Partial, Whole, account_loop-lacking}
use nanocap.Handler.Message.{handle_message}
use nanocap.Handler.Message.Fresh.{IsFresh, handle_message-IsFresh}
use nanocap.Handler.Tcp.{PacketHandler, count_packet, handle_tcp}
use nanocap.Handler.Tcp.Returns.{handle_tcp-returns}
use nanocap.Handler.Tcp.Errors.{handle_tcp-short}
use nanocap.Handler.Tcp.Counts.{counts_after, handle_tcp-counts, handle_tcp-count_bounds}
use nanocap.Protocol.Nano.{read_nano}
use nanocap.Tests.Protocol.{keepalive_bytes}
use nanocap.Tests.Data.{
  fill, test_env, packet_of, empty_db, session_in, entry_of, full_entry, header_of, a_block,
}

abbrev idle : PacketHandler
idle = record {
  consumed = 0;
  packet_parse_error_count = 0;
  has_device = true;
  capture_stopped = false;
  hung = false;
}

abbrev waiting : Session byte_buffer
waiting = session_in frontier_req 0 0 []

entry_of-IsOpen : (b : ℕ) → all_zero (fill 32 b) ≡ false → IsOpen (entry_of b)
entry_of-IsOpen b h = record {
  sizes = record { account_ok = refl; frontier_hash_ok = refl };
  nonzero = h;
}

one-IsOpen : IsOpen (entry_of 1)
one-IsOpen = entry_of-IsOpen 1 (unfold all_zero in refl)

-- Half an entry in the first packet, the other half in the second.
handle_frontier-chunks_example :
    let half = packet_of (fill 32 1) in
    let rest = packet_of (fill 32 2) in
    let both = packet_of (fill 32 1 ++ fill 32 2) in
    let two =
      (handle_frontier byte_stream byte_buffer test_env rest
        (handle_frontier byte_stream byte_buffer test_env half waiting).0).0 in
    let one = (handle_frontier byte_stream byte_buffer test_env both waiting).0 in
    (two.1 ≡ one.1)
    × (two.0.response_count ≡ one.0.response_count)
    × (bytes_of byte_stream byte_buffer test_env two
        ≡ bytes_of byte_stream byte_buffer test_env one)
handle_frontier-chunks_example =
    handle_frontier-chunks byte_stream byte_buffer test_env (packet_of (fill 32 1))
      (packet_of (fill 32 2)) (packet_of (fill 32 1 ++ fill 32 2)) waiting [] (entry_of 1 ∷ [])
      (fill 32 1) [] tt (one-IsOpen, tt) refl refl (omega arith) (omega arith) refl (omega arith)

-- An entry and ten bytes of the next one.
handle_frontier-open_example :
    let info = packet_of (encode_frontier_entry (entry_of 1) ++ fill 10 9) in
    let entries = entry_of 1 ∷ [] in
    let after =
      accept_all byte_stream byte_buffer test_env entries
        (with_payload byte_stream byte_buffer test_env info waiting) in
    (handle_frontier byte_stream byte_buffer test_env info waiting ≡ (after, none))
    × (bytes_of byte_stream byte_buffer test_env after ≡ fill 10 9)
handle_frontier-open_example =
    handle_frontier-open byte_stream byte_buffer test_env
      (packet_of (encode_frontier_entry (entry_of 1) ++ fill 10 9)) waiting (entry_of 1 ∷ [])
      (fill 10 9) (one-IsOpen, tt) refl (omega arith) (omega arith)

-- An entry, the end, and three bytes more.
handle_frontier-end_example :
    let zero_entry = entry_of 0 in
    let info =
      packet_of
        (encode_frontier_entry (entry_of 1) ++ (encode_frontier_entry zero_entry ++ fill 3 9)) in
    IsEnded byte_buffer test_env
      (codes "end of frontier_req, responses. valid: ")
      info
      (accept_all byte_stream byte_buffer test_env
        (entry_of 1 ∷ [])
        (with_payload byte_stream byte_buffer test_env info waiting))
      (handle_frontier byte_stream byte_buffer test_env info waiting)
handle_frontier-end_example =
    handle_frontier-end byte_stream byte_buffer test_env
      (packet_of
        (encode_frontier_entry (entry_of 1) ++ (encode_frontier_entry (entry_of 0) ++ fill 3 9)))
      waiting (entry_of 1 ∷ []) (entry_of 0) (fill 3 9) (one-IsOpen, tt)
      (record { account_ok = refl; frontier_hash_ok = refl }) (unfold all_zero in refl) refl
      (omega arith)

handle_tcp-returns_example :
    (handle_tcp byte_stream byte_buffer test_env 0 (packet_of (fill 100 1)) (idle, waiting)).0.hung
    ≡ false
handle_tcp-returns_example =
    handle_tcp-returns byte_stream byte_buffer test_env 0 (packet_of (fill 100 1)) idle waiting
      (λ h. cc)

handle_tcp-short_example :
    let s = session_in invalid 0 0 [] in
    let counted = count_packet s.1 idle in
    handle_tcp byte_stream byte_buffer test_env 0 (packet_of (0x52 ∷ [])) (idle, s)
    ≡ (record counted { packet_parse_error_count = counted.packet_parse_error_count + 1 }, s)
handle_tcp-short_example =
    handle_tcp-short byte_stream byte_buffer test_env 0 (packet_of (0x52 ∷ [])) idle
      (session_in invalid 0 0 []) refl (omega arith)

-- The frontier was received, and the buffer holds one entry of three fields that are not zero.
stuck : Session byte_buffer
stuck = session_in bulk_pull_account 1 2 (encode_full full_entry)

account_loop-never_ends_example :
    ((account_loop byte_stream byte_buffer test_env 1000 (packet_of []) stuck).1 ≡ some out_of_fuel)
    × ((account_loop byte_stream byte_buffer test_env 1000 (packet_of []) stuck).0.0.response_count
        ≡ stuck.0.response_count + 1000)
    × (newest
          (account_loop byte_stream byte_buffer test_env 1000
            (packet_of [])
            stuck).0.0.accumulated_data
        ≡ encode_full full_entry ++ [])
unfolding stuck
account_loop-never_ends_example =
    account_loop-never_ends byte_stream byte_buffer test_env 1000 (packet_of []) stuck full_entry []
      (record {
        at_entries = refl;
        all_fields = refl;
        full = record { flags_ok = refl; hash_ok = refl; amount_ok = refl; source_ok = refl };
        source_nonzero = unfold all_zero in refl;
        hash_nonzero = unfold all_zero in refl;
        front = refl;
      })

-- The same buffer, for a request whose entries have no source.
account_loop-lacking_example :
    let s = session_in bulk_pull_account 1 0 (encode_full full_entry) in
    let r = account_loop byte_stream byte_buffer test_env 2 (packet_of []) s in
    (Partial byte_stream byte_buffer test_env s × (r ≡ (s, none)))
    ⊎ (Whole byte_stream byte_buffer test_env s
        × IsEnded byte_buffer test_env
            (codes "end of bulk_pull_account. valid entries: ")
            (packet_of [])
            s
            r)
account_loop-lacking_example =
    account_loop-lacking byte_stream byte_buffer test_env 0 (packet_of [])
      (session_in bulk_pull_account 1 0 (encode_full full_entry)) refl (λ h. omega arith)

handle_message-IsFresh_example :
    IsFresh byte_buffer test_env keepalive
      (handle_message byte_buffer test_env
        (header_of keepalive 0)
        (keepalive_body (record { peers = none }))
        (packet_of [])
        (reset byte_buffer invalid stuck.0, empty_db)).0
handle_message-IsFresh_example =
    handle_message-IsFresh byte_buffer test_env (header_of keepalive 0)
      (keepalive_body (record { peers = none })) (packet_of []) stuck.0 empty_db

a_bulk_entry : BulkEntry
a_bulk_entry = record {
  block_type = 6;
  block = record { arg_block_type = 6; block = block_state a_block };
}

put_bulk_pull_entry-invalid_example :
    (put_bulk_pull_entry test_env a_bulk_entry (packet_of []) waiting).0.invalid_response_count ≡ 0
unfolding a_bulk_entry
put_bulk_pull_entry-invalid_example =
    put_bulk_pull_entry-invalid test_env a_bulk_entry (packet_of []) waiting.0 waiting.1

from_hex-to_hex_example : from_hex (to_hex (0 ∷ 171 ∷ 255 ∷ [])) ≡ 0 ∷ 171 ∷ 255 ∷ []
from_hex-to_hex_example =
    from_hex-to_hex (0 ∷ 171 ∷ 255 ∷ []) (omega arith, (omega arith, (omega arith, tt)))

to_hex_of_bytes : to_hex (0 ∷ 171 ∷ 255 ∷ []) ≡ codes "00ABFF"
unfolding to_hex
to_hex_of_bytes = refl

-- A keepalive on a connection that waits for no response.
handle_tcp-counts_example :
    (handle_tcp byte_stream byte_buffer test_env 0
      (packet_of keepalive_bytes)
      (idle, session_in invalid 0 0 [])).1.1.count_per_type
    ≡ counts_after (read_nano byte_stream (byte_stream.open_stream keepalive_bytes)) (λ t. 0)
handle_tcp-counts_example =
    handle_tcp-counts byte_stream byte_buffer test_env 0 (packet_of keepalive_bytes) idle
      (session_in invalid 0 0 [])

handle_tcp-count_bounds_example :
    (handle_tcp byte_stream byte_buffer test_env 0
        (packet_of keepalive_bytes)
        (idle, session_in invalid 0 0 [])).1.1.count_per_type
      32
    ≡ 0
handle_tcp-count_bounds_example =
    handle_tcp-count_bounds byte_stream byte_buffer test_env 0 (packet_of keepalive_bytes) idle
      (session_in invalid 0 0 []) 32 (omega arith)
