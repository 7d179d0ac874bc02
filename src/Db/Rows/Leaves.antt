-- ===== src/Db/Rows/Leaves.antt =====
-- Calls that neither bind a parameter of a vote nor insert one, as those that start a packet.
use nanocap.Prelude.{
  ℕ, ◌≡◌, refl, ◌∙◌, ap, Bool, String, List, [], ◌∷◌, ◌++◌, append-nil, if_both, if◌then◌else◌, ◌%◌,
  ◌==◌,
}
use nanocap.Flow.{NanoPacket}
use nanocap.Protocol.Header.{MessageHeader}
use nanocap.Db.{
  Env, Db, Value, SqlCall, commit, begin_transaction, packet, vote, call, flush_internal,
  check_size, bind_header_fields, bind_packet_fields, header_columns, packet_columns, bind_all,
  clear_bindings,
}
use nanocap.Db.Messages.{start_packet}
use nanocap.Db.Rows.{
  Bindings, no_bindings, bound_by, bound, inserted, bound-append, inserted-append,
}

-- The value that is bound to a parameter of the statement of votes, and the rows of votes.
abbrev pub vote_binding : Db → String → Value
vote_binding db name = bound db.calls no_bindings vote name

abbrev pub vote_rows : Db → List (String → Value)
vote_rows db = inserted vote db.calls no_bindings

-- Calls that neither bind a parameter of a vote nor insert one.
pub record Leaves (db db' : Db) : Type 0 where
  pub bindings : (name : String) → vote_binding db' name ≡ vote_binding db name
  pub rows : vote_rows db' ≡ vote_rows db

Leaves-trans : {a b c : Db} → Leaves a b → Leaves b c → Leaves a c
Leaves-trans p q = record {
  bindings = λ name. q.bindings name ∙ p.bindings name;
  rows = q.rows ∙ p.rows;
}

Leaves-refl : (db : Db) → Leaves db db
Leaves-refl db = record { bindings = λ name. refl; rows = refl }

pub call-Leaves :
    (cs : List SqlCall) (db : Db)
    → ((b : Bindings) (name : String) → bound cs b vote name ≡ b vote name)
    → ((b : Bindings) → inserted vote cs b ≡ [])
    → Leaves db (call cs db)
unfolding call
call-Leaves cs db same nothing = record {
  bindings = λ name.
      ap (λ f. f vote name) (bound-append db.calls cs no_bindings)
      ∙ same (bound db.calls no_bindings) name;
  rows =
      inserted-append vote db.calls cs no_bindings
      ∙ ap (λ rs. vote_rows db ++ rs) (nothing (bound db.calls no_bindings))
      ∙ append-nil (vote_rows db);
}

packet_binds-same :
    (fields : List (String × Value)) (b : Bindings) (name : String)
    → bound (bind_all packet fields) b vote name ≡ b vote name
packet_binds-same [] b name = refl
packet_binds-same ((m, v) ∷ fields) b name = packet_binds-same fields _ name

packet_binds-rows :
    (fields : List (String × Value)) (b : Bindings) → inserted vote (bind_all packet fields) b ≡ []
packet_binds-rows [] b = refl
packet_binds-rows ((m, v) ∷ fields) b = packet_binds-rows fields _

full-Leaves : {a b : Db} → Leaves a b → Leaves a (record b { max_reached = Bool.true })
full-Leaves h = record { bindings = h.bindings; rows = h.rows }

module _ (env : Env) where
  check_size-Leaves : (db : Db) → Leaves db (check_size env db)
  unfolding check_size flush_internal call
  check_size-Leaves db =
      let flushed = call-Leaves (commit ∷ begin_transaction ∷ []) db (λ b name. refl) (λ b. refl) in
      if_both (λ (d : Db). Leaves db d) _ (full-Leaves flushed) flushed

  header-Leaves :
      (h : MessageHeader) (id : ℕ) (db : Db) → Leaves db (bind_header_fields env h id db)
  unfolding bind_header_fields
  header-Leaves h id db =
      let sized =
        if_both (λ (d : Db). Leaves db d) (db.next_id % 10000 == 0) (check_size-Leaves db)
          (Leaves-refl db) in
      let columns = header_columns env h id in
      let cleared =
        call-Leaves (clear_bindings packet ∷ bind_all packet columns)
          (if db.next_id % 10000 == 0 then check_size env db else db)
          (λ b name. packet_binds-same columns (bound_by (clear_bindings packet) b) name)
          (λ b. packet_binds-rows columns (bound_by (clear_bindings packet) b)) in
      record {
        bindings = λ name. cleared.bindings name ∙ sized.bindings name;
        rows = cleared.rows ∙ sized.rows;
      }

  packet_fields-Leaves : (info : NanoPacket) (db : Db) → Leaves db (bind_packet_fields env info db)
  unfolding bind_packet_fields
  packet_fields-Leaves info db =
      call-Leaves (bind_all packet (packet_columns env info)) db
        (packet_binds-same (packet_columns env info)) (packet_binds-rows (packet_columns env info))

  pub start_packet-Leaves :
      (h : MessageHeader) (info : NanoPacket) (id : ℕ) (db : Db)
      → Leaves db (start_packet env h info id db)
  unfolding start_packet
  start_packet-Leaves h info id db =
      Leaves-trans (header-Leaves h id db) (packet_fields-Leaves info _)
