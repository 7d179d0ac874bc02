-- ===== src/Protocol/Reads.antt =====
-- Every reader of the parser ends: none runs out of fuel, and what one reads where it succeeds is a
-- prefix of what the stream held.
use nanocap.Prelude.{
  ℕ, ◌+◌, ◌≤◌, ◌≢◌, ◌⊎◌, ◌∙◌, ap, ok, throw, Exception, out_of_fuel, length, drop, Bool, true,
  false, [], ◌∷◌, some, none, Parser, other_error, runtime_error, if◌then◌else◌, pure, raise,
  Bool-cases, inl, inr, ◌≡◌, ◌>>=◌,
}
use nanocap.Stream.{KStream, Bytes, eq_bytes}
use nanocap.Stream.Takes.{read_bytes-Takes}
use nanocap.Stream.Reads.{
  Reads, Takes-Reads, pure-Reads, raise-Reads, bind-Reads, same-ReadsAt, optional_repeat-Reads,
  branch-ReadsAt, map-Reads, loose, Outcome-cases,
}
use nanocap.Stream.Repeat.{repeat_at, branch, branch-true, branch-false}
use nanocap.Stream.Words.{read_u1-Takes, read_u2le-Takes}
use nanocap.Protocol.Enums.{
  BlockType, invalid_block, not_a_block, send, receive, open_account, change, state, other_block,
  MsgType, invalid, not_a_type, keepalive, publish, confirm_req, confirm_ack, bulk_pull, bulk_push,
  frontier_req, bulk_pull_blocks, node_id_handshake, bulk_pull_account, telemetry_req,
  telemetry_ack, other_msg, block_type_of,
}
use nanocap.Protocol.Header.{MessageHeader, read_message_header}
use nanocap.Protocol.Block.{read_ignore_until_eof, read_block, read_block_selector}
use nanocap.Protocol.Messages.{
  read_if, read_msg_keepalive, read_msg_confirm_req, read_msg_confirm_ack, read_msg_publish,
  read_msg_node_id_handshake, read_msg_telemetry_req, read_confirm_request_by_hash,
  read_vote_by_hash,
}
use nanocap.Protocol.Bootstrap.{
  read_msg_bulk_pull, read_msg_bulk_pull_account, read_bulk_push_entry, read_bulk_pull_entry,
  read_msg_bulk_push, read_bytes_if, read_bulk_pull_account_entry,
}
use nanocap.Protocol.Nano.{Nano, read_body, read_nano}
use nanocap.Protocol.Sizes.{
  read_block_send-Takes, read_block_receive-Takes, read_block_open-Takes, read_block_change-Takes,
  read_block_state-Takes, read_peer-Takes, read_hash_pair-Takes, read_vote_common-Takes,
  read_node_id_query-Takes, read_node_id_response-Takes, read_msg_telemetry_ack-Takes,
  read_extended_parameters-Takes, read_msg_frontier_req-Takes, read_msg_bulk_pull_blocks-Takes,
}

module _ (k : KStream) where
  read_ignore_until_eof-Reads : Reads k (read_ignore_until_eof k) 0
  unfolding read_ignore_until_eof
  read_ignore_until_eof-Reads =
      bind-Reads k _ (optional_repeat-Reads k (Takes-Reads k (read_u1-Takes k)) (λ _. false))
        λ a. pure-Reads k _

  read_block-Reads : (t : BlockType) → Reads k (read_block k t) 0
  unfolding read_block
  read_block-Reads send = map-Reads k _ (Takes-Reads k (read_block_send-Takes k))
  read_block-Reads receive = map-Reads k _ (Takes-Reads k (read_block_receive-Takes k))
  read_block-Reads open_account = map-Reads k _ (Takes-Reads k (read_block_open-Takes k))
  read_block-Reads change = map-Reads k _ (Takes-Reads k (read_block_change-Takes k))
  read_block-Reads state = map-Reads k _ (Takes-Reads k (read_block_state-Takes k))
  read_block-Reads invalid_block = map-Reads k _ read_ignore_until_eof-Reads
  read_block-Reads not_a_block = map-Reads k _ read_ignore_until_eof-Reads
  read_block-Reads (other_block n) = map-Reads k _ read_ignore_until_eof-Reads

  read_block_selector-Reads : (t : ℕ) → Reads k (read_block_selector k t) 0
  unfolding read_block_selector
  read_block_selector-Reads t = map-Reads k _ (read_block-Reads (block_type_of t))

  read_if-Reads :
      {A : Type 0} {p : Parser k.Stream A} (b : Bool) → Reads k p 0 → Reads k (read_if k b p) 0
  unfolding read_if
  read_if-Reads true rp = map-Reads k some rp
  read_if-Reads false rp = pure-Reads k none

  read_msg_keepalive-Reads : Reads k (read_msg_keepalive k) 0
  unfolding read_msg_keepalive
  read_msg_keepalive-Reads =
      map-Reads k _ (optional_repeat-Reads k (Takes-Reads k (read_peer-Takes k)) _)

  read_confirm_request_by_hash-Reads :
      (h : MessageHeader) → Reads k (read_confirm_request_by_hash k h) 0
  unfolding read_confirm_request_by_hash
  read_confirm_request_by_hash-Reads h =
      map-Reads k _ (optional_repeat-Reads k (Takes-Reads k (read_hash_pair-Takes k)) _)

  read_vote_by_hash-Reads : (h : MessageHeader) → Reads k (read_vote_by_hash k h) 0
  unfolding read_vote_by_hash
  read_vote_by_hash-Reads h =
      map-Reads k _ (optional_repeat-Reads k (Takes-Reads k (read_bytes-Takes k 32)) _)

  read_msg_confirm_req-Reads : (h : MessageHeader) → Reads k (read_msg_confirm_req k h) 0
  unfolding read_msg_confirm_req
  read_msg_confirm_req-Reads h =
      bind-Reads k _ (read_if-Reads _ (read_confirm_request_by_hash-Reads h))
        λ r. map-Reads k _ (read_if-Reads _ (read_block_selector-Reads _))

  read_msg_confirm_ack-Reads : (h : MessageHeader) → Reads k (read_msg_confirm_ack k h) 0
  unfolding read_msg_confirm_ack
  read_msg_confirm_ack-Reads h =
      bind-Reads k _ (loose k (Takes-Reads k (read_vote_common-Takes k))) λ c.
        bind-Reads k _ (read_if-Reads _ (read_vote_by_hash-Reads h))
          λ v. map-Reads k _ (read_if-Reads _ (read_block_selector-Reads _))

  read_msg_node_id_handshake-Reads :
      (h : MessageHeader) → Reads k (read_msg_node_id_handshake k h) 0
  unfolding read_msg_node_id_handshake
  read_msg_node_id_handshake-Reads h =
      bind-Reads k _ (read_if-Reads _ (loose k (Takes-Reads k (read_node_id_query-Takes k)))) λ q.
        map-Reads k _ (read_if-Reads _ (loose k (Takes-Reads k (read_node_id_response-Takes k))))

  read_msg_bulk_pull-Reads : (h : MessageHeader) → Reads k (read_msg_bulk_pull k h) 0
  unfolding read_msg_bulk_pull
  read_msg_bulk_pull-Reads h =
      bind-Reads k _ (loose k (Takes-Reads k (read_bytes-Takes k 32))) λ start.
        bind-Reads k _ (loose k (Takes-Reads k (read_bytes-Takes k 32))) λ end.
          map-Reads k _
            (read_if-Reads _ (loose k (Takes-Reads k (read_extended_parameters-Takes k))))

  read_msg_bulk_pull_account-Reads : Reads k (read_msg_bulk_pull_account k) 0
  unfolding read_msg_bulk_pull_account
  read_msg_bulk_pull_account-Reads =
      bind-Reads k _ (loose k (Takes-Reads k (read_bytes-Takes k 32))) λ account.
        bind-Reads k _ (loose k (Takes-Reads k (read_bytes-Takes k 16)))
          λ amount. map-Reads k _ (Takes-Reads k (read_u1-Takes k))

  -- An entry of a bulk pull response takes a byte at least.
  pub read_bulk_pull_entry-Reads : Reads k (read_bulk_pull_entry k) 1
  unfolding read_bulk_pull_entry
  read_bulk_pull_entry-Reads =
      bind-Reads k _ (Takes-Reads k (read_u1-Takes k))
        λ t. map-Reads k _ (read_block_selector-Reads t)

  pub read_bulk_push_entry-Reads : Reads k (read_bulk_push_entry k) 1
  unfolding read_bulk_push_entry
  read_bulk_push_entry-Reads =
      bind-Reads k _ (Takes-Reads k (read_u1-Takes k))
        λ t. map-Reads k _ (read_block_selector-Reads t)

  -- The reader of a bulk push message makes one round at most: it reads one entry, returns it if the
  -- stream has ended behind it, and otherwise raises an exception that is no `runtime_error`.
  pub read_msg_bulk_push-one_entry :
      (s : k.Stream)
      → read_msg_bulk_push k s
        ≡ (read_bulk_push_entry k >>= λ e.
              branch k k.is_eof (pure (record { entry = e ∷ [] })) (raise other_error))
            s
  unfolding read_msg_bulk_push repeat_at ◌>>=◌ pure raise
  read_msg_bulk_push-one_entry s = elim (Outcome-cases (read_bulk_push_entry k s)) [
    | inr (x, e) ↦ rw e
    | inl ((a, t), e) ↦ rw e (elim (Bool-cases (k.is_eof t)) [
      | inl end_ ↦ rw (branch-true k k.is_eof _ _ t end_, branch-true k k.is_eof _ _ t end_)
      | inr more ↦ rw (branch-false k k.is_eof _ _ t more, branch-false k k.is_eof _ _ t more)
    ])
  ]

  read_msg_bulk_push-Reads : Reads k (read_msg_bulk_push k) 0
  read_msg_bulk_push-Reads s = same-ReadsAt k (read_msg_bulk_push-one_entry s) (
      bind-Reads k _ (loose k read_bulk_push_entry-Reads)
        (λ e t.
          branch-ReadsAt k _ (λ _. pure-Reads k _ t) (λ _. raise-Reads k other_error 0 (λ e. cc) t))
        s)

  read_body-Reads : (t : MsgType) (h : MessageHeader) → Reads k (read_body k t h) 0
  unfolding read_body read_msg_publish read_msg_telemetry_req
  read_body-Reads confirm_req h = map-Reads k _ (read_msg_confirm_req-Reads h)
  read_body-Reads confirm_ack h = map-Reads k _ (read_msg_confirm_ack-Reads h)
  read_body-Reads bulk_pull h = map-Reads k _ (read_msg_bulk_pull-Reads h)
  read_body-Reads bulk_pull_account h = map-Reads k _ read_msg_bulk_pull_account-Reads
  read_body-Reads keepalive h = map-Reads k _ read_msg_keepalive-Reads
  read_body-Reads bulk_push h = map-Reads k _ read_msg_bulk_push-Reads
  read_body-Reads telemetry_ack h = map-Reads k _ (Takes-Reads k (read_msg_telemetry_ack-Takes k))
  read_body-Reads node_id_handshake h = map-Reads k _ (read_msg_node_id_handshake-Reads h)
  read_body-Reads frontier_req h = map-Reads k _ (Takes-Reads k (read_msg_frontier_req-Takes k))
  read_body-Reads bulk_pull_blocks h =
      map-Reads k _ (Takes-Reads k (read_msg_bulk_pull_blocks-Takes k))
  read_body-Reads publish h = map-Reads k _ (map-Reads k _ (read_block_selector-Reads _))
  read_body-Reads telemetry_req h = map-Reads k _ (pure-Reads k _)
  read_body-Reads invalid h = map-Reads k _ read_ignore_until_eof-Reads
  read_body-Reads not_a_type h = map-Reads k _ read_ignore_until_eof-Reads
  read_body-Reads (other_msg n) h = map-Reads k _ read_ignore_until_eof-Reads

  magic-Reads : (b e : Bytes) → Reads k (if eq_bytes b e then pure b else raise runtime_error) 0
  magic-Reads b e = elim (Bool-cases (eq_bytes b e)) [
    | inl same ↦ rw same (pure-Reads k b)
    | inr differ ↦ rw differ (raise-Reads k runtime_error 0 (λ h. cc))
  ]

  pub read_message_header-Reads : Reads k (read_message_header k) 8
  unfolding read_message_header
  read_message_header-Reads =
      bind-Reads k _ {m = 1}
        (rw (k.ensure_fixed_contents_lem (0x52 ∷ [])) (
          bind-Reads k _ {m = 1} (Takes-Reads k (read_bytes-Takes k 1))
            (λ b. magic-Reads b (0x52 ∷ []))))
        λ magic. bind-Reads k _ (Takes-Reads k (read_u1-Takes k)) λ network_id.
          bind-Reads k _ (Takes-Reads k (read_u1-Takes k)) λ version_max.
            bind-Reads k _ (Takes-Reads k (read_u1-Takes k)) λ version_using.
              bind-Reads k _ (Takes-Reads k (read_u1-Takes k)) λ version_min.
                bind-Reads k _ (Takes-Reads k (read_u1-Takes k)) λ message_type.
                  bind-Reads k _ (Takes-Reads k (read_u2le-Takes k)) λ extensions. pure-Reads k _

  pub read_nano-Reads : Reads k (read_nano k) 8
  unfolding read_nano
  read_nano-Reads =
      bind-Reads k _ {n = 0} read_message_header-Reads
        λ h. map-Reads k _ (read_body-Reads h.message_type h)

  -- Parsing any datagram ends: with a message, which takes at least the eight bytes of its header and
  -- at most the bytes that there are, and moves the position by what it takes from the front of the
  -- stream; or with an exception of the program, never for want of fuel.
  pub read_nano-total :
      (s : k.Stream)
      → ((n : Nano) × (s' : k.Stream) × (m : ℕ) × (read_nano k s ≡ ok (n, s'))
          × (8 ≤ m)
          × (m ≤ length (k.remaining s))
          × (k.remaining s' ≡ drop m (k.remaining s))
          × (k.pos s' ≡ k.pos s + m))
        ⊎ ((x : Exception) × (read_nano k s ≡ throw x) × (x ≢ out_of_fuel))
  read_nano-total s = elim (Outcome-cases (read_nano k s)) [
    | inl ((n, s'), e) ↦
        let (m, le, after) = (read_nano-Reads s).moves s' n e in
        inl (n, s', m, e, le, after.fits, after.rest, after.moved)
    | inr (x, e) ↦ inr (x, e, λ h. (read_nano-Reads s).safe (e ∙ ap throw h))
  ]

  read_bytes_if-Reads : (b : Bool) (n : ℕ) → Reads k (read_bytes_if k b n) 0
  unfolding read_bytes_if
  read_bytes_if-Reads true n = loose k (Takes-Reads k (read_bytes-Takes k n))
  read_bytes_if-Reads false n = pure-Reads k []

  pub read_bulk_pull_account_entry-Reads :
      (flags : ℕ) → Reads k (read_bulk_pull_account_entry k flags) 0
  unfolding read_bulk_pull_account_entry
  read_bulk_pull_account_entry-Reads flags = bind-Reads k _ (read_bytes_if-Reads _ 32) λ hash.
      bind-Reads k _ (read_bytes_if-Reads _ 16) λ amount. map-Reads k _ (read_bytes_if-Reads _ 32)
