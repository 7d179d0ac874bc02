-- ===== src/Db/Rows/Votes.antt =====
-- The row of a vote by hash.
use nanocap.Prelude.{
  ℕ, ◌+◌, ◌≡◌, refl, ◌∙◌, ap, String, List, [], ◌∷◌, ◌++◌, append-nil, Option, none, some,
}
use nanocap.Stream.{Bytes}
use nanocap.Flow.{NanoPacket}
use nanocap.Protocol.Header.{MessageHeader}
use nanocap.Protocol.Messages.{VoteByHash, MsgConfirmAck}
use nanocap.Db.{Env, Db, Value, packet, vote, call, execute, text, integer, as_int64, bind_all}
use nanocap.Db.Messages.{
  start_packet, or_empty, bind_vote, vote_by_hash_fields, hash_fields, put_confirm_ack,
}
use nanocap.Util.Text.{codes, to_hex}
use nanocap.Util.Account.{pub_to_account}
use nanocap.Db.Rows.Leaves.{Leaves, vote_binding, vote_rows, call-Leaves, start_packet-Leaves}
use nanocap.Db.Rows.{Bindings, no_bindings, bound, inserted, bound-append, inserted-append}

vote_binds-rows :
    (fields : List (String × Value)) (b : Bindings) → inserted vote (bind_all vote fields) b ≡ []
vote_binds-rows [] b = refl
vote_binds-rows ((m, v) ∷ fields) b = vote_binds-rows fields _

hashes_content :
    (hashes : List Bytes) (b : Bindings)
    → (bound (bind_all vote (hash_fields hashes)) b vote ":content_id" ≡ b vote ":content_id")
      × (bound (bind_all vote (hash_fields hashes)) b vote ":content_table"
          ≡ b vote ":content_table")
unfolding hash_fields
hashes_content [] b = (refl, refl)
hashes_content (h ∷ hs) b = (refl, refl)

-- The fields of a vote by hash have none of the parameters of a voted block.
hash_binds-content :
    (v : Option VoteByHash) (b : Bindings)
    → (bound (bind_all vote (vote_by_hash_fields v)) b vote ":content_id" ≡ b vote ":content_id")
      × (bound (bind_all vote (vote_by_hash_fields v)) b vote ":content_table"
          ≡ b vote ":content_table")
unfolding vote_by_hash_fields hash_fields
hash_binds-content none b = (refl, refl)
hash_binds-content (some v) b = hashes_content (or_empty v.hashes) b

packet_row-Leaves :
    (id table : Value) (db : Db)
    → Leaves db (execute packet ((":content_id", id) ∷ (":content_table", table) ∷ []) db)
unfolding execute
packet_row-Leaves id table db = call-Leaves _ db (λ b name. refl) (λ b. refl)

-- The calls that insert a vote: parameters other than those of the voted block, and the execution.
vote_row :
    (account signature sequence id packet_id : Value) (db : Db)
    → (let columns : List (String × Value) =
          (":account", account)
          ∷ (":signature", signature)
          ∷ (":sequence", sequence)
          ∷ (":id", id)
          ∷ (":packet_id", packet_id)
          ∷ [] in
        (row : String → Value) × ((vote_rows (execute vote columns db) ≡ vote_rows db ++ row ∷ [])
          × ((row ":content_id" ≡ vote_binding db ":content_id")
              × (row ":content_table" ≡ vote_binding db ":content_table"))))
unfolding execute call
vote_row account signature sequence id packet_id db =
    (_, (inserted-append vote db.calls _ no_bindings, (refl, refl)))

module _ (env : Env) where
  vote_fields-Leaves :
      (v : Option VoteByHash) (packet_id : ℕ) (db : Db)
      → (let db' = bind_vote env none v packet_id db in
          (vote_rows db' ≡ vote_rows db)
          × ((vote_binding db' ":content_id" ≡ vote_binding db ":content_id")
              × (vote_binding db' ":content_table" ≡ vote_binding db ":content_table")))
  unfolding bind_vote call
  vote_fields-Leaves v packet_id db =
      let binds = bind_all vote (vote_by_hash_fields v) in
      let kept = hash_binds-content v (bound db.calls no_bindings) in
      (
        inserted-append vote db.calls binds no_bindings
            ∙ ap (λ rs. vote_rows db ++ rs)
                (vote_binds-rows (vote_by_hash_fields v) (bound db.calls no_bindings))
            ∙ append-nil (vote_rows db),
        (
          ap (λ f. f vote ":content_id") (bound-append db.calls binds no_bindings) ∙ kept.0,
          ap (λ f. f vote ":content_table") (bound-append db.calls binds no_bindings) ∙ kept.1,
        ),
      )

  -- A vote that names no block, as a vote by hash, inserts one row of a vote, whose content id
  -- and content table are those that were bound to the statement of votes before the message.
  pub put_confirm_ack-stale :
      (h : MessageHeader) (m : MsgConfirmAck) (info : NanoPacket) (db : Db)
      → m.block ≡ none
      → (row : String → Value) × ((vote_rows (put_confirm_ack env h m info db)
            ≡ vote_rows db ++ row ∷ [])
          × ((row ":content_id" ≡ vote_binding db ":content_id")
              × (row ":content_table" ≡ vote_binding db ":content_table")))
  unfolding put_confirm_ack
  put_confirm_ack-stale h m info db by_hash =
      let started = start_packet env h info db.next_id (record db { next_id = db.next_id + 1 }) in
      let before =
        start_packet-Leaves env h info db.next_id (record db { next_id = db.next_id + 1 }) in
      let fielded = bind_vote env none m.votebyhash db.next_id started in
      let (same_rows, (same_id, same_table)) = vote_fields-Leaves m.votebyhash db.next_id started in
      let columns : List (String × Value) =
        (":account", text (pub_to_account env.blake2b m.common.account))
        ∷ (":signature", text (to_hex m.common.signature))
        ∷ (":sequence", as_int64 m.common.sequence)
        ∷ (":id", integer fielded.next_id)
        ∷ (":packet_id", integer db.next_id)
        ∷ [] in
      let (row, (more_rows, (row_id, row_table))) =
        vote_row (text (pub_to_account env.blake2b m.common.account))
          (text (to_hex m.common.signature)) (as_int64 m.common.sequence) (integer fielded.next_id)
          (integer db.next_id) (record fielded { next_id = fielded.next_id + 1 }) in
      let last =
        packet_row-Leaves (integer fielded.next_id) (text (codes "vote"))
          (execute vote columns (record fielded { next_id = fielded.next_id + 1 })) in
      (
        row,
        (
          rw (by_hash, put_confirm_ack)
              (last.rows ∙ more_rows ∙ ap (λ rs. rs ++ row ∷ []) (same_rows ∙ before.rows)),
          (
            row_id ∙ same_id ∙ before.bindings ":content_id",
            row_table ∙ same_table ∙ before.bindings ":content_table",
          ),
        ),
      )
