-- ===== src/Db/Rows.antt =====
-- The rows that the prepared statements insert: SQLite keeps the bindings of a statement through its
-- executions and resets, until they are bound again or cleared, and what was never bound is null.
pub mod Leaves
pub mod Votes
use nanocap.Prelude.{
  ℕ, is_name, Bool, true, false, ◌&&◌, ◌≡◌, refl, sym, ◌∙◌, ap, String, List, [], ◌∷◌, ◌++◌,
  append_assoc, ◌==◌, if◌then◌else◌,
}
use nanocap.Db.{
  Value, null, Statement, connection, packet, block_state, block_send, block_receive, block_open,
  block_change, vote, host, nodeid_query, nodeid_response, telemetry, frontier_request,
  frontier_response, bulk_pull_request, bulk_pull_response, bulk_push_entry,
  bulk_pull_account_request, bulk_pull_account_response, bulk_pull_account_response_entry, SqlCall,
  bind, exec, reset_statement, clear_bindings, commit, begin_transaction,
}

abbrev pub statement_number : Statement → ℕ
statement_number connection = 0
statement_number packet = 1
statement_number block_state = 2
statement_number block_send = 3
statement_number block_receive = 4
statement_number block_open = 5
statement_number block_change = 6
statement_number vote = 7
statement_number host = 8
statement_number nodeid_query = 9
statement_number nodeid_response = 10
statement_number telemetry = 11
statement_number frontier_request = 12
statement_number frontier_response = 13
statement_number bulk_pull_request = 14
statement_number bulk_pull_response = 15
statement_number bulk_push_entry = 16
statement_number bulk_pull_account_request = 17
statement_number bulk_pull_account_response = 18
statement_number bulk_pull_account_response_entry = 19

abbrev pub is_statement : Statement → Statement → Bool
is_statement a b = statement_number a == statement_number b

abbrev pub Bindings : Type 0
Bindings = Statement → String → Value

abbrev pub no_bindings : Bindings
no_bindings s name = null

-- The bindings after a call.
abbrev pub bound_by : SqlCall → Bindings → Bindings
bound_by (bind s name v) b t n = if is_statement t s && is_name n name then v else b t n
bound_by (clear_bindings s) b t n = if is_statement t s then null else b t n
bound_by (exec s) b t n = b t n
bound_by (reset_statement s) b t n = b t n
bound_by commit b t n = b t n
bound_by begin_transaction b t n = b t n

abbrev pub bound : List SqlCall → Bindings → Bindings
bound [] b = b
bound (c ∷ cs) b = bound cs (bound_by c b)

-- The row that a call inserts by a statement.
abbrev pub row_of : Statement → SqlCall → Bindings → List (String → Value)
row_of s (exec t) b = if is_statement s t then b s ∷ [] else []
row_of s _ b = []

-- The rows that a statement inserts, in their order.
abbrev pub inserted : Statement → List SqlCall → Bindings → List (String → Value)
inserted s [] b = []
inserted s (c ∷ cs) b = row_of s c b ++ inserted s cs (bound_by c b)

pub bound-append :
    (cs ds : List SqlCall) (b : Bindings) → bound (cs ++ ds) b ≡ bound ds (bound cs b)
bound-append [] ds b = refl
bound-append (c ∷ cs) ds b = bound-append cs ds (bound_by c b)

pub inserted-append :
    (s : Statement) (cs ds : List SqlCall) (b : Bindings)
    → inserted s (cs ++ ds) b ≡ inserted s cs b ++ inserted s ds (bound cs b)
inserted-append s [] ds b = refl
inserted-append s (c ∷ cs) ds b =
    ap (λ rs. row_of s c b ++ rs) (inserted-append s cs ds (bound_by c b))
    ∙ sym (
        append_assoc (row_of s c b) (inserted s cs (bound_by c b))
          (inserted s ds (bound cs (bound_by c b))))
