-- ===== src/Handler/Account/Rounds.antt =====
-- The loop over the responses to a bulk pull of an account: when its entries end it, and when
-- nothing does.
use nanocap.Prelude.{
  ℕ, zero, suc, ◌+◌, ◌<◌, ◌≡◌, refl, sym, ◌∙◌, ap, arith, false, some, [], ◌∷◌, ◌++◌, length,
  out_of_fuel, length-append,
}
use nanocap.Stream.{KStream, Bytes, joined}
use nanocap.Stream.Decodes.{Decodes, bytes-Decodes, bind-Decodes, pure-Decodes}
use nanocap.Flow.{CircularBuffer, NanoPacket}
use nanocap.Protocol.Bootstrap.{BulkPullAccountEntry, read_bulk_pull_account_entry, read_bytes_if}
use nanocap.Db.{Env}
use nanocap.Handler.Session.{Session, all_zero}
use nanocap.Handler.Account.{account_loop, accept_account}

-- An entry of a request with the flags of all three fields, on the wire.
pub record IsFull (e : BulkPullAccountEntry) : Type 0 where
  pub flags_ok : e.flags ≡ 2
  pub hash_ok : length e.hash ≡ 32
  pub amount_ok : length e.amount ≡ 16
  pub source_ok : length e.source ≡ 32

abbrev pub encode_full : BulkPullAccountEntry → Bytes
encode_full e = joined (e.hash ∷ e.amount ∷ e.source ∷ [])

module _ (k : KStream) where
  full-Decodes :
      (e : BulkPullAccountEntry)
      → IsFull e
      → Decodes k (read_bulk_pull_account_entry k 2) e (encode_full e)
  unfolding read_bulk_pull_account_entry read_bytes_if
  full-Decodes e h = rw (← h.flags_ok) (
      bind-Decodes k _ (bytes-Decodes k 32 e.hash h.hash_ok) (
        bind-Decodes k _ (bytes-Decodes k 16 e.amount h.amount_ok)
          (bind-Decodes k _ (bytes-Decodes k 32 e.source h.source_ok) (pure-Decodes k e))))

cons_of : (xs : Bytes) → 0 < length xs → (b : ℕ) × (bs : Bytes) × (xs ≡ b ∷ bs)
cons_of [] h = absurd (omega arith)
cons_of (b ∷ bs) h = (b, bs, refl)

module _ (k : KStream) (cb : CircularBuffer) (env : Env) where
  open cb use {contents}

  -- A connection that waits for entries with all three fields, and the entry at the front of its
  -- buffer, which does not end the response.
  pub record IsWaiting (s : Session cb) (e : BulkPullAccountEntry) (rest : Bytes) : Type 0 where
    pub at_entries : s.0.step ≡ 1
    pub all_fields : s.0.request_flags ≡ 2
    pub full : IsFull e
    pub source_nonzero : all_zero e.source ≡ false
    pub hash_nonzero : all_zero e.hash ≡ false
    pub front : contents s.0.accumulated_data ≡ encode_full e ++ rest

  -- A round leaves the buffer, the step and the flags as they are.
  round :
      (fuel : ℕ) (info : NanoPacket) (s : Session cb) (e : BulkPullAccountEntry) (rest : Bytes)
      → IsWaiting s e rest
      → account_loop k cb env (suc fuel) info s
        ≡ account_loop k cb env fuel info (accept_account k cb env e s)
  unfolding account_loop
  round fuel info (flow, db) e rest w =
      let some_byte : 0 < length (contents flow.accumulated_data) = omega (
        arith,
        ap length w.front,
        length-append (encode_full e) rest,
        length-append e.hash (e.amount ++ (e.source ++ [])),
        w.full.hash_ok,
      ) in
      let (b, bs, cons) = cons_of (contents flow.accumulated_data) some_byte in
      let (ks, parsed, _, _) =
        (full-Decodes k e w.full).decoded (k.open_stream (b ∷ bs)) rest
          (k.remaining-open_stream _ ∙ sym cons ∙ w.front) in
      rw (cons, w.at_entries, w.all_fields, parsed, w.source_nonzero, w.hash_nonzero)

  accept-IsWaiting :
      (s : Session cb) (e : BulkPullAccountEntry) (rest : Bytes)
      → IsWaiting s e rest
      → IsWaiting (accept_account k cb env e s) e rest
  unfolding accept_account
  accept-IsWaiting s e rest w = record {
    at_entries = w.at_entries;
    all_fields = w.all_fields;
    full = w.full;
    source_nonzero = w.source_nonzero;
    hash_nonzero = w.hash_nonzero;
    front = w.front;
  }

  -- On a connection past the frontier, for a request of all three fields, let a full entry whose
  -- source and hash are not zero be at the front of the buffer. Then, whatever the number of
  -- rounds, the loop has not ended, has counted one entry per round, and has erased nothing from
  -- the buffer.
  pub account_loop-never_ends :
      (fuel : ℕ) (info : NanoPacket) (s : Session cb) (e : BulkPullAccountEntry) (rest : Bytes)
      → IsWaiting s e rest
      → ((account_loop k cb env fuel info s).1 ≡ some out_of_fuel)
        × ((account_loop k cb env fuel info s).0.0.response_count ≡ s.0.response_count + fuel)
        × (contents (account_loop k cb env fuel info s).0.0.accumulated_data
            ≡ encode_full e ++ rest)
  unfolding account_loop
  account_loop-never_ends zero info s e rest w = (refl, omega arith, w.front)
  account_loop-never_ends (suc fuel) info s e rest w =
      let s' = accept_account k cb env e s in
      let (stuck, count, held) =
        account_loop-never_ends fuel info s' e rest (accept-IsWaiting s e rest w) in
      let counted : s'.0.response_count ≡ s.0.response_count + 1 = unfold accept_account in refl in
      rw (round fuel info s e rest w) (stuck, omega arith, held)
