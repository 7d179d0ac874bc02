-- ===== src/Handler/Session/Ended.antt =====
-- The end of a response (src/packet_handler.cpp): what the event and the reset leave.
use nanocap.Prelude.{◌≡◌, refl, sym, subst, ◌++◌, none, if◌then◌else◌}
use nanocap.Stream.{Bytes}
use nanocap.Util.Text.{codes, to_string}
use nanocap.Flow.{CircularBuffer, NanoPacket}
use nanocap.Protocol.Enums.{invalid}
use nanocap.Db.{Env, put_connection}
use nanocap.Handler.Session.{Session, Ended, end_event, end_response}
use nanocap.Handler.Message.Fresh.{IsFresh, reset-IsFresh}

module _ (cb : CircularBuffer) (env : Env) where
  -- From a state, a loop ended a response: the connection waits for no response and holds no byte,
  -- the event with the counts of the response is the only change of the database, and only where
  -- bootstrap details are configured, and no exception leaves the loop.
  pub record IsEnded (what : Bytes) (info : NanoPacket) (s : Session cb) (r : Ended cb)
      : Type 0 where
    pub fresh : IsFresh cb env invalid r.0.0
    pub event : r.0.1 ≡ (
        if env.bootstrap_details
        then put_connection info
            (what
              ++ (to_string s.0.response_count
                  ++ (codes ", invalid: " ++ to_string s.0.invalid_response_count)))
            s.1
        else s.1)
    pub returns : r.1 ≡ none

  end_response-IsEnded :
      (what : Bytes) (info : NanoPacket) (s : Session cb)
      → IsEnded what info s (end_response cb env what info s, none)
  unfolding end_response end_event
  end_response-IsEnded what info (flow, db) = record {
    fresh = reset-IsFresh cb env invalid flow;
    event = refl;
    returns = refl;
  }

  -- What is the end of a response, ended it.
  pub ended :
      (what : Bytes) (info : NanoPacket) (s : Session cb) (r : Ended cb)
      → r ≡ (end_response cb env what info s, none)
      → IsEnded what info s r
  ended what info s r e = subst (IsEnded what info s) (sym e) (end_response-IsEnded what info s)
