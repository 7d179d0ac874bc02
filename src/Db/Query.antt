-- ===== src/Db/Query.antt =====
-- Queries of the database (src/db.cpp): the rows of a statement, the counts per type, and the removal
-- of captured data.
pub mod Rows
pub mod Destroy
use nanocap.Prelude.{
  ℕ, zero, suc, ◌+◌, ◌≡◌, Bool, true, false, ◌&&◌, Option, none, some, List, [], ◌∷◌, ◌++◌, length,
  take, Outcome, ok, throw, Exception, runtime_error, other_error, out_of_fuel, map, ◌==◌,
  if◌then◌else◌,
}
use nanocap.Stream.{Bytes}
use nanocap.Util.Text.{codes}
use nanocap.Db.{Db}

-- What a query calls of SQLiteCpp: a statement is prepared, or that throws, and each step gives the
-- texts of the columns of the next row, or none behind the last.
pub record Statements : Type 1 where
  pub Cursor : Type 0
  pub prepare : Bytes → Outcome Cursor
  pub execute_step : Cursor → Outcome (Option (List Bytes × Cursor))
  pub column_names : Cursor → List Bytes

-- The fields of the JSON object that a query returns.
pub record QueryResult : Type 0 where
  pub columns : Option (List Bytes)
  pub rows : Option (List (List Bytes))
  pub error : Bool

-- The names of the columns are set with the first row.
abbrev pub or_names : Option (List Bytes) → List Bytes → Option (List Bytes)
or_names none names = some names
or_names (some known) names = some known

module _ (sql : Statements) where
  open sql use {Cursor, prepare, execute_step, column_names}

  -- The loop, with the columns and the rows so far: the names of the columns come with the first row.
  -- An exception keeps the columns, and the rows are lost.
  unfoldable pub query_loop :
      ℕ → Cursor → Option (List Bytes) → List (List Bytes) → QueryResult × Option Exception
  query_loop zero c columns rows =
      (record { columns = columns; rows = some rows; error = false }, none)
  query_loop (suc left) c columns rows = elim (execute_step c) [
    | ok none ↦ (record { columns = columns; rows = some rows; error = false }, none)
    | ok (some (row, c')) ↦
        query_loop left c' (or_names columns (column_names c')) (rows ++ row ∷ [])
    | throw e ↦ (record { columns = columns; rows = none; error = false }, some e)
  ]

  -- `catch (std::runtime_error &)`; any other exception leaves the function.
  abbrev pub report : QueryResult × Option Exception → Outcome QueryResult
  report (r, none) = ok r
  report (r, some runtime_error) = ok (record r { error = true })
  report (r, some other_error) = throw other_error
  report (r, some out_of_fuel) = throw out_of_fuel

  -- A maximum below zero is as zero.
  unfoldable pub query : ℕ → Bytes → Outcome QueryResult
  unfolding query_loop
  query max_rows text = elim (prepare text) [
    | ok c ↦ report (query_loop max_rows c none [])
    | throw e ↦ report (record { columns = none; rows = none; error = false }, some e)
  ]

-- The objects of the array of counts, one for each of the `n` types from `i` on.
unfoldable pub count_objects : (ℕ → ℕ) → ℕ → ℕ → List (ℕ × ℕ)
count_objects counts i zero = []
count_objects counts i (suc n) = (counts i, i) ∷ count_objects counts (i + 1) n

unfoldable pub count_packets_per_type : Db → List (ℕ × ℕ)
unfolding count_objects
count_packets_per_type db = count_objects db.count_per_type 0 32

-- The rows of `SELECT COUNT(*), msg_type …` set the counts of their types.
unfoldable pub init_packets_per_type : List (ℕ × ℕ) → Db → Db
init_packets_per_type [] db = db
init_packets_per_type ((count, msg_type) ∷ rows) db =
    init_packets_per_type rows
      (record db { count_per_type = λ n. if n == msg_type then count else db.count_per_type n })

-- What the removal makes the database execute.
pub data AdminCall : Type 0 where
  delete_from : Bytes → AdminCall
  insert_run flush_transaction : AdminCall

abbrev pub same_bytes : Bytes → Bytes → Bool
same_bytes [] [] = true
same_bytes (a ∷ as') (b ∷ bs) = a == b && same_bytes as' bs
same_bytes _ _ = false

unfoldable pub delete_tables : List Bytes → List AdminCall
delete_tables [] = []
delete_tables (t ∷ ts) =
    if same_bytes t (codes "sqlite_sequence")
    then delete_tables ts
    else delete_from t ∷ flush_transaction ∷ delete_tables ts

-- The names of the tables are those that `sqlite_master` lists.
unfoldable pub destroy_capture_data : List Bytes → Db → List AdminCall × Db
unfolding delete_tables
destroy_capture_data tables db = (
  delete_tables tables ++ insert_run ∷ flush_transaction ∷ [],
  record db { count_per_type = λ n. 0 },
)
