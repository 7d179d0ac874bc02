-- ===== src/Protocol/Quiet.antt =====
-- Readers of the parser that throw nothing but `runtime_error`.
use nanocap.Prelude.{
  Bool, true, false, Parser, pure, raise, runtime_error, ◌>>=◌, [], ◌∷◌, ℕ, Bool-cases, inl, inr,
  if◌then◌else◌,
}
use nanocap.Stream.{KStream, Bytes, eq_bytes}
use nanocap.Stream.Takes.{read_bytes-Takes}
use nanocap.Stream.Words.{read_u1-Takes, read_u2le-Takes}
use nanocap.Stream.Quiet.{
  Quiet, Takes-Quiet, pure-Quiet, bind-Quiet, optional_repeat-Quiet, raise-Quiet,
}
use nanocap.Protocol.Enums.{
  BlockType, invalid_block, not_a_block, send, receive, open_account, change, state, other_block,
  block_type_of,
}
use nanocap.Protocol.Header.{read_message_header}
use nanocap.Protocol.Block.{read_ignore_until_eof, read_block, read_block_selector}
use nanocap.Protocol.Bootstrap.{
  read_bulk_push_entry, read_bulk_pull_entry, read_bytes_if, read_bulk_pull_account_entry,
}
use nanocap.Protocol.Sizes.{
  read_block_send-Takes, read_block_receive-Takes, read_block_open-Takes, read_block_change-Takes,
  read_block_state-Takes,
}

module _ (k : KStream) where
  map-Quiet :
      {A B : Type 0} {p : Parser k.Stream A} (f : A → B)
      → Quiet k p
      → Quiet k (p >>= λ a. pure (f a))
  map-Quiet f q = bind-Quiet k _ q λ a. pure-Quiet k (f a)

  read_ignore_until_eof-Quiet : Quiet k (read_ignore_until_eof k)
  unfolding read_ignore_until_eof
  read_ignore_until_eof-Quiet =
      map-Quiet _ (optional_repeat-Quiet k (Takes-Quiet k (read_u1-Takes k)) (λ _. false))

  read_block-Quiet : (t : BlockType) → Quiet k (read_block k t)
  unfolding read_block
  read_block-Quiet send = map-Quiet _ (Takes-Quiet k (read_block_send-Takes k))
  read_block-Quiet receive = map-Quiet _ (Takes-Quiet k (read_block_receive-Takes k))
  read_block-Quiet open_account = map-Quiet _ (Takes-Quiet k (read_block_open-Takes k))
  read_block-Quiet change = map-Quiet _ (Takes-Quiet k (read_block_change-Takes k))
  read_block-Quiet state = map-Quiet _ (Takes-Quiet k (read_block_state-Takes k))
  read_block-Quiet invalid_block = map-Quiet _ read_ignore_until_eof-Quiet
  read_block-Quiet not_a_block = map-Quiet _ read_ignore_until_eof-Quiet
  read_block-Quiet (other_block n) = map-Quiet _ read_ignore_until_eof-Quiet

  read_block_selector-Quiet : (t : ℕ) → Quiet k (read_block_selector k t)
  unfolding read_block_selector
  read_block_selector-Quiet t = map-Quiet _ (read_block-Quiet (block_type_of t))

  pub read_bulk_pull_entry-Quiet : Quiet k (read_bulk_pull_entry k)
  unfolding read_bulk_pull_entry
  read_bulk_pull_entry-Quiet =
      bind-Quiet k _ (Takes-Quiet k (read_u1-Takes k))
        λ t. map-Quiet _ (read_block_selector-Quiet t)

  pub read_bulk_push_entry-Quiet : Quiet k (read_bulk_push_entry k)
  unfolding read_bulk_push_entry
  read_bulk_push_entry-Quiet =
      bind-Quiet k _ (Takes-Quiet k (read_u1-Takes k))
        λ t. map-Quiet _ (read_block_selector-Quiet t)

  magic-Quiet : (b e : Bytes) → Quiet k (if eq_bytes b e then pure b else raise runtime_error)
  magic-Quiet b e = elim (Bool-cases (eq_bytes b e)) [
    | inl same ↦ rw same (pure-Quiet k b)
    | inr differ ↦ rw differ (raise-Quiet k runtime_error (λ h. cc))
  ]

  pub read_message_header-Quiet : Quiet k (read_message_header k)
  unfolding read_message_header
  read_message_header-Quiet =
      bind-Quiet k _
        (rw (k.ensure_fixed_contents_lem (0x52 ∷ []))
          (bind-Quiet k _ (Takes-Quiet k (read_bytes-Takes k 1)) (λ b. magic-Quiet b (0x52 ∷ []))))
        λ magic. bind-Quiet k _ (Takes-Quiet k (read_u1-Takes k)) λ network_id.
          bind-Quiet k _ (Takes-Quiet k (read_u1-Takes k)) λ version_max.
            bind-Quiet k _ (Takes-Quiet k (read_u1-Takes k)) λ version_using.
              bind-Quiet k _ (Takes-Quiet k (read_u1-Takes k)) λ version_min.
                bind-Quiet k _ (Takes-Quiet k (read_u1-Takes k)) λ message_type.
                  bind-Quiet k _ (Takes-Quiet k (read_u2le-Takes k)) λ extensions. pure-Quiet k _

  read_bytes_if-Quiet : (b : Bool) (n : ℕ) → Quiet k (read_bytes_if k b n)
  unfolding read_bytes_if
  read_bytes_if-Quiet true n = Takes-Quiet k (read_bytes-Takes k n)
  read_bytes_if-Quiet false n = pure-Quiet k []

  pub read_bulk_pull_account_entry-Quiet :
      (flags : ℕ) → Quiet k (read_bulk_pull_account_entry k flags)
  unfolding read_bulk_pull_account_entry
  read_bulk_pull_account_entry-Quiet flags = bind-Quiet k _ (read_bytes_if-Quiet _ 32) λ hash.
      bind-Quiet k _ (read_bytes_if-Quiet _ 16) λ amount. map-Quiet _ (read_bytes_if-Quiet _ 32)
