-- ===== src/Handler/Tcp.antt =====
-- `handle_tcp`: the data of a connection goes to the loop of the response that the connection is
-- in, or is parsed as a message.
pub mod Returns
pub mod Errors
pub mod Ids
pub mod Counts
pub mod Writes
use nanocap.Prelude.{
  ℕ, ◌+◌, ◌%◌, Bool, true, ◌&&◌, Option, some, none, Outcome, ok, throw, Exception, runtime_error,
  other_error, out_of_fuel, ◌∷◌, ◌==◌, if◌then◌else◌,
}
use nanocap.Stream.{KStream, Bytes}
use nanocap.Flow.{CircularBuffer, NanoPacket, reset}
use nanocap.Protocol.Enums.{MsgType, invalid, bulk_pull, bulk_push, frontier_req, bulk_pull_account}
use nanocap.Protocol.Nano.{Nano, read_nano}
use nanocap.Db.{Env, Db}
use nanocap.Handler.Session.{Session, Ended}
use nanocap.Handler.Frontier.{handle_frontier}
use nanocap.Handler.Bulk.{handle_bulk_pull, handle_bulk_push}
use nanocap.Handler.Account.{handle_account}
use nanocap.Handler.Message.{handle_message}

-- `has_device` tells whether a device is open, `capture_stopped` whether `stopCapture` was called.
-- `hung` is no field of the source: the fuel of the model ran out in a loop.
pub record PacketHandler : Type 0 where
  pub consumed : ℕ
  pub packet_parse_error_count : ℕ
  pub has_device : Bool
  pub capture_stopped : Bool
  pub hung : Bool

-- Every 10000 packets the capture is stopped if the database is full.
unfoldable pub count_packet : Db → PacketHandler → PacketHandler
count_packet db p =
    let n = p.consumed + 1 in
    if n % 10000 == 0 && (p.has_device && db.max_reached)
    then record p { consumed = n; capture_stopped = true }
    else record p { consumed = n }

-- The outer handlers: `std::runtime_error` counts as a parse error, any other is printed.
unfoldable pub catch_all : Option Exception → PacketHandler → PacketHandler
catch_all none p = p
catch_all (some runtime_error) p = record p {
  packet_parse_error_count = p.packet_parse_error_count + 1;
}
catch_all (some other_error) p = p
catch_all (some out_of_fuel) p = record p { hung = true }

module _ (k : KStream) (cb : CircularBuffer) (env : Env) where
  open k use {Stream, open_stream}

  -- A message: the connection is reset only once it is parsed.
  unfoldable pub handle_parsed : NanoPacket → Session cb → Outcome (Nano × Stream) → Ended cb
  unfolding handle_message reset
  handle_parsed info (flow, db) (ok (nano, ks)) =
      (handle_message cb env nano.header nano.body info (reset cb invalid flow, db), none)
  handle_parsed info s (throw e) = (s, some e)

  abbrev pub parse_message : NanoPacket → Session cb → Ended cb
  parse_message info s = handle_parsed info s (read_nano k (open_stream info.payload))

  -- The ladder of tests on the type and on the size of the data.
  unfoldable pub process : ℕ → MsgType → Bytes → NanoPacket → Session cb → Ended cb
  unfolding handle_frontier handle_bulk_pull handle_bulk_push handle_account handle_parsed
  process fuel frontier_req (b ∷ bs) info s = handle_frontier k cb env info s
  process fuel bulk_pull (b ∷ bs) info s = handle_bulk_pull k cb env info s
  process fuel bulk_push (b ∷ bs) info s = handle_bulk_push k cb env info s
  process fuel bulk_pull_account (b ∷ bs) info s = handle_account k cb env fuel info s
  process fuel _ _ info s = parse_message info s

  -- `fuel` bounds the rounds over the responses to a bulk pull of an account, and no other loop.
  unfoldable pub handle_tcp :
      ℕ → NanoPacket → PacketHandler × Session cb → PacketHandler × Session cb
  unfolding process count_packet catch_all
  handle_tcp fuel info (p, (flow, db)) =
      let (s, thrown) = process fuel flow.current_msg_type info.payload info (flow, db) in
      (catch_all thrown (count_packet db p), s)
