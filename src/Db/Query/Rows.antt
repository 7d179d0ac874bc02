-- ===== src/Db/Query/Rows.antt =====
-- The rows and the columns that a query returns.
use nanocap.Prelude.{
  ℕ, zero, suc, ◌<◌, ◌≡◌, refl, ◌∙◌, arith, false, true, Option, none, some, List, [], ◌∷◌, ◌++◌,
  append-nil, append_assoc, length, take, ok, throw, runtime_error,
}
use nanocap.Stream.{Bytes}
use nanocap.Db.Query.{Statements, QueryResult, or_names, query_loop, query}

module _ (sql : Statements) where
  open sql use {Cursor, prepare, execute_step, column_names}

  -- A statement that gives some rows, whose columns have some names, and then none.
  pub data Yields (names : List Bytes) : Cursor → List (List Bytes) → Type 0 where
    no_rows : (c : Cursor) → execute_step c ≡ ok none → Yields names c []
    a_row :
        (c c' : Cursor) (row : List Bytes) (rows : List (List Bytes))
        → execute_step c ≡ ok (some (row, c'))
        → column_names c' ≡ names
        → Yields names c' rows
        → Yields names c (row ∷ rows)

  -- The same, but with an error of SQLite in place of the end.
  pub data Breaks (names : List Bytes) : Cursor → List (List Bytes) → Type 0 where
    an_error : (c : Cursor) → execute_step c ≡ throw runtime_error → Breaks names c []
    a_good_row :
        (c c' : Cursor) (row : List Bytes) (rows : List (List Bytes))
        → execute_step c ≡ ok (some (row, c'))
        → column_names c' ≡ names
        → Breaks names c' rows
        → Breaks names c (row ∷ rows)

-- The names of the columns, where there is a row, or they are known before.
abbrev pub names_with : List Bytes → List (List Bytes) → Option (List Bytes) → Option (List Bytes)
names_with names [] before = before
names_with names (row ∷ rows) before = or_names before names

or_names-twice :
    (names : List Bytes) (before : Option (List Bytes))
    → or_names (or_names before names) names ≡ or_names before names
or_names-twice names none = refl
or_names-twice names (some known) = refl

names_with-known :
    (names : List Bytes) (rows : List (List Bytes)) (before : Option (List Bytes))
    → names_with names rows (or_names before names) ≡ or_names before names
names_with-known names [] before = refl
names_with-known names (row ∷ rows) before = or_names-twice names before

-- A result with some rows, and with columns and no rows because of an error.
abbrev pub with_rows : Option (List Bytes) → List (List Bytes) → QueryResult
with_rows columns rows = record { columns = columns; rows = some rows; error = false }

abbrev pub with_error : Option (List Bytes) → QueryResult
with_error columns = record { columns = columns; rows = none; error = true }

module _ (sql : Statements) where
  open sql use {Cursor, prepare, execute_step, column_names}

  loop-rows :
      (n : ℕ) {c : Cursor} (names : List Bytes) {rows : List (List Bytes)} (acc : List (List Bytes))
      (columns : Option (List Bytes))
      → Yields sql names c rows
      → query_loop sql n c columns acc
        ≡ (with_rows (names_with names (take n rows) columns) (acc ++ take n rows), none)
  unfolding query_loop
  loop-rows zero names acc columns y = rw (append-nil acc) refl
  loop-rows (suc n) names acc columns (no_rows c end) = rw (end, query_loop, append-nil acc) refl
  loop-rows (suc n) names acc columns (a_row c c' row rows step named y) =
      rw (step, query_loop, named)
        (loop-rows n names (acc ++ row ∷ []) (or_names columns names) y
          ∙ rw
              (
                names_with-known names (take n rows) columns,
                append_assoc acc (row ∷ []) (take n rows),
              )
              refl)

  loop-Breaks :
      (n : ℕ) {c : Cursor} (names : List Bytes) {rows : List (List Bytes)} (acc : List (List Bytes))
      (columns : Option (List Bytes))
      → Breaks sql names c rows
      → length rows < n
      → query_loop sql n c columns acc ≡ (
        record { columns = names_with names rows columns; rows = none; error = false },
        some runtime_error,
      )
  unfolding query_loop
  loop-Breaks zero names acc columns b room = absurd (omega (arith, room))
  loop-Breaks (suc n) names acc columns (an_error c broken) room = rw (broken, query_loop) refl
  loop-Breaks (suc n) names acc columns (a_good_row c c' row rows step named b) room =
      rw (step, query_loop, named)
        (loop-Breaks n names (acc ++ row ∷ []) (or_names columns names) b (omega (arith, room))
          ∙ rw (names_with-known names rows columns) refl)

  -- A query of a statement that gives some rows returns those of them that are within the maximum,
  -- in their order, and no error; the names of the columns are there only if a row is.
  pub query-rows :
      (max_rows : ℕ) (sql_text : Bytes) (c : Cursor) (names : List Bytes) (rows : List (List Bytes))
      → prepare sql_text ≡ ok c
      → Yields sql names c rows
      → query sql max_rows sql_text
        ≡ ok (with_rows (names_with names (take max_rows rows) none) (take max_rows rows))
  unfolding query
  query-rows max_rows sql_text c names rows prepared y =
      rw (prepared, query, loop-rows max_rows names [] none y) refl

  -- A query that meets an error of SQLite behind fewer rows than the maximum returns the error and
  -- none of those rows, with the names of the columns if there was a row.
  pub query-Breaks :
      (max_rows : ℕ) (sql_text : Bytes) (c : Cursor) (names : List Bytes) (rows : List (List Bytes))
      → prepare sql_text ≡ ok c
      → Breaks sql names c rows
      → length rows < max_rows
      → query sql max_rows sql_text ≡ ok (with_error (names_with names rows none))
  unfolding query
  query-Breaks max_rows sql_text c names rows prepared b room =
      rw (prepared, query, loop-Breaks max_rows names [] none b room) refl
