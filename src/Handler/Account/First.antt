-- ===== src/Handler/Account/First.antt =====
-- The loop over the responses to a bulk pull of an account, where the entries lack a field.
use nanocap.Prelude.{
  ℕ, suc, ◌≡◌, ◌≢◌, refl, arith, Bool, true, false, ◌||◌, none, [], ◌∷◌, throw, runtime_error, ◌⊎◌,
  inl, inr, Bool-cases, ◌==◌, ok, pure, Outcome,
}
use nanocap.Stream.{KStream, Bytes}
use nanocap.Stream.Reads.{Outcome-cases, bind-ok}
use nanocap.Stream.Quiet.{Quiet-runtime}
use nanocap.Flow.{CircularBuffer, NanoPacket, reset}
use nanocap.Util.Text.{codes}
use nanocap.Protocol.Bootstrap.{
  BulkPullAccountEntry, read_bulk_pull_account_entry, read_bytes_if, pending_address_only,
  pending_include_address,
}
use nanocap.Protocol.Reads.{read_bulk_pull_account_entry-Reads}
use nanocap.Protocol.Quiet.{read_bulk_pull_account_entry-Quiet}
use nanocap.Db.{Env}
use nanocap.Handler.Session.{Session, all_zero, end_response}
use nanocap.Handler.Session.Ended.{IsEnded, ended}
use nanocap.Handler.Account.{account_loop, account_body, account_entry}

is_last : BulkPullAccountEntry → Bool
is_last e = all_zero e.source || all_zero e.hash

or-true : (a : Bool) → (a || true) ≡ true
or-true true = refl
or-true false = refl

bytes-cases : (xs : Bytes) → (xs ≡ []) ⊎ ((b : ℕ) × (bs : Bytes) × (xs ≡ b ∷ bs))
bytes-cases [] = inl refl
bytes-cases (b ∷ bs) = inr (b, bs, refl)

module _ (k : KStream) where
  ok-injective :
      {A : Type 0} {a b : A} {s t : k.Stream}
      → ◌≡◌ {A = Outcome (A × k.Stream)} (ok (a, s)) (ok (b, t))
      → a ≡ b
  ok-injective h = cc

  not_read :
      (b : Bool) (n : ℕ) (s s' : k.Stream) (xs : Bytes)
      → b ≡ false
      → read_bytes_if k b n s ≡ ok (xs, s')
      → all_zero xs ≡ true
  unfolding read_bytes_if pure all_zero
  not_read true n s s' xs h e = absurd cc
  not_read false n s s' xs h e = let none_read : [] ≡ xs = ok-injective e in rw (← none_read) refl

  -- Without all three fields, the field that was not read is empty, which counts as zero.
  lacking-IsLast :
      (flags : ℕ) (s s' : k.Stream) (e : BulkPullAccountEntry)
      → flags ≢ 2
      → read_bulk_pull_account_entry k flags s ≡ ok (e, s')
      → is_last e ≡ true
  unfolding read_bulk_pull_account_entry pending_address_only pending_include_address pure is_last
  lacking-IsLast flags s s' e h run =
      let (hash, s₁, e₁, run₁) = bind-ok _ _ s s' e run in
      let (amount, s₂, e₂, run₂) = bind-ok _ _ s₁ s' e run₁ in
      let (source, s₃, e₃, run₃) = bind-ok _ _ s₂ s' e run₂ in
      let built : record { flags = flags; hash = hash; amount = amount; source = source } ≡ e =
        ok-injective run₃ in
      rw (← built) (elim (Bool-cases (flags == 1)) [
        | inl one ↦
            let zeros = not_read _ 32 s s₁ hash (rw one refl) e₁ in
            rw zeros (or-true (all_zero source))
        | inr other ↦
            let two : (flags == 2) ≡ false = ground arith in
            let zeros = not_read _ 32 s₂ s₃ source (rw (other, two) refl) e₃ in rw zeros refl
      ])

module _ (k : KStream) (cb : CircularBuffer) (env : Env) where
  open cb use {contents}

  -- The bytes of the connection are no entry: there is none, or the entry has more bytes.
  pub record Partial (s : Session cb) : Type 0 where
    pub no_entry :
        (contents s.0.accumulated_data ≡ [])
        ⊎ (read_bulk_pull_account_entry k s.0.request_flags
              (k.open_stream (contents s.0.accumulated_data))
            ≡ throw runtime_error)

  -- The bytes of the connection begin with an entry.
  pub record Whole (s : Session cb) : Type 0 where
    pub some_byte : contents s.0.accumulated_data ≢ []
    pub entry : BulkPullAccountEntry
    pub left : k.Stream
    pub first :
        read_bulk_pull_account_entry k s.0.request_flags
          (k.open_stream (contents s.0.accumulated_data))
        ≡ ok (entry, left)

  -- Past the frontier, and where the flags of the request are not those of all three fields, two
  -- rounds of the loop are enough, whatever the buffer holds. Where it holds no whole entry, nothing
  -- changes. Where it begins with an entry, whatever its fields, the response ends without the
  -- entry: the connection waits for no response, its counts are zero and its buffer is empty, and
  -- the database only gets the event with the counts, where bootstrap details are configured.
  pub account_loop-lacking :
      (fuel : ℕ) (info : NanoPacket) (s : Session cb)
      → s.0.step ≡ 1
      → s.0.request_flags ≢ 2
      → (let r = account_loop k cb env (suc (suc fuel)) info s in
          (Partial s × (r ≡ (s, none)))
          ⊎ (Whole s × IsEnded cb env (codes "end of bulk_pull_account. valid entries: ") info s r))
  unfolding account_loop account_body account_entry is_last
  account_loop-lacking fuel info (flow, db) step flags =
      elim (bytes-cases (contents flow.accumulated_data)) [
        | inl e ↦ inl (record { no_entry = inl e }, rw e refl)
        | inr (b, bs, e) ↦
            let stream = k.open_stream (b ∷ bs) in
            elim (Outcome-cases (read_bulk_pull_account_entry k flow.request_flags stream)) [
              | inr (x, t) ↦
                  let quiet : x ≡ runtime_error =
                    Quiet-runtime k stream x
                      (read_bulk_pull_account_entry-Quiet k flow.request_flags)
                      (read_bulk_pull_account_entry-Reads k flow.request_flags stream) t in
                  inl
                    (record { no_entry = inr (rw (e, t, quiet) refl) }, rw (e, step, t, quiet) refl)
              | inl ((entry, ks), t) ↦
                  let last = lacking-IsLast k flow.request_flags stream ks entry flags t in
                  inr (
                    record {
                      some_byte = λ h. cc;
                      entry = entry;
                      left = ks;
                      first = rw (e, t) refl;
                    },
                    ended cb env (codes "end of bulk_pull_account. valid entries: ") info (flow, db)
                        _
                        (rw (e, step, t, last, reset, end_response)
                          (rw (cb.contents-clear flow.accumulated_data) refl)),
                  )
            ]
      ]
