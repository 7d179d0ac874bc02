-- ===== src/Handler/Session.antt =====
-- What the loops of `handle_tcp` share: the state of the connection with the database, events, and
-- how a loop ends.
pub mod Ended
use nanocap.Prelude.{
  ℕ, Bool, true, ◌&&◌, ◌==◌, [], ◌∷◌, ◌++◌, Option, some, none, Exception, runtime_error,
  other_error, out_of_fuel, if◌then◌else◌,
}
use nanocap.Stream.{Bytes}
use nanocap.Util.Text.{codes, to_string}
use nanocap.Flow.{CircularBuffer, TcpFlowData, NanoPacket, reset}
use nanocap.Protocol.Enums.{invalid}
use nanocap.Db.{Env, Db, put_connection}

-- `find_first_not_of((char)0) == npos`, which holds of the empty string too.
unfoldable pub all_zero : Bytes → Bool
all_zero [] = true
all_zero (b ∷ bs) = b == 0 && all_zero bs

module _ (cb : CircularBuffer) where
  open cb use {Buffer}

  abbrev pub Session : Type 0
  Session = TcpFlowData Buffer × Db

  -- A loop ends by its test or a `break`, or an exception leaves it; the state stays.
  abbrev pub Ended : Type 0
  Ended = Session × Option Exception

  -- `catch (std::runtime_error &)` with a `break`.
  abbrev pub caught : Exception → Session → Ended
  caught runtime_error s = (s, none)
  caught other_error s = (s, some other_error)
  caught out_of_fuel s = (s, some out_of_fuel)

  module _ (env : Env) where
    -- What is written only where bootstrap details are configured.
    abbrev pub if_details : (Db → Db) → Db → Db
    if_details write db = if env.bootstrap_details then write db else db

    unfoldable pub end_event : Bytes → ℕ → ℕ → Bytes
    unfolding to_string
    end_event what valid invalids =
        what ++ (to_string valid ++ (codes ", invalid: " ++ to_string invalids))

    -- The end of a response: an event, and the connection takes new types of messages.
    unfoldable pub end_response : Bytes → NanoPacket → Session → Session
    unfolding end_event put_connection reset
    end_response what info (flow, db) = (
      reset cb invalid flow,
      if_details
          (put_connection info (end_event what flow.response_count flow.invalid_response_count)) db,
    )
