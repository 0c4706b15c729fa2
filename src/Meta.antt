-- ===== src/Meta.antt =====
-- `_Meta` of src/durastream/store.py: the table of streams in the metadata database.
use durastream.Common.{ℕ, Bool, true, Option, none, some, List, [], ◌∷◌, ◌++◌, Text, if◌then◌else◌}
use durastream.Texts.{text_eq, text_lt}
use durastream.Errors.{Result, ok, err, durastream_error}
use durastream.Disk.{Answer, fail}

pub record Row : Type 0 where
  pub name : Text
  pub content_type : Text
  pub closed : Bool
  pub created_at : ℕ

-- The statements that the program executes.
pub data Sql : Type 0 where
  create_table : Sql
  insert_row : Row → Sql
  select_row : Text → Sql
  update_closed : Text → Sql
  delete_row : Text → Sql
  select_names : Sql

unfoldable pub find_row : Text → List Row → List Row
unfolding text_eq
find_row name [] = []
find_row name (r ∷ rows) =
    if text_eq r.name name then r ∷ find_row name rows else find_row name rows

unfoldable pub close_row : Text → List Row → List Row
unfolding text_eq
close_row name [] = []
close_row name (r ∷ rows) =
    (if text_eq r.name name then record r { closed = true } else r) ∷ close_row name rows

unfoldable pub remove_row : Text → List Row → List Row
unfolding text_eq
remove_row name [] = []
remove_row name (r ∷ rows) =
    let rest = remove_row name rows in if text_eq r.name name then rest else r ∷ rest

-- `ORDER BY name`
unfoldable pub insert_sorted : Row → List Row → List Row
unfolding text_lt
insert_sorted r [] = r ∷ []
insert_sorted r (q ∷ rows) =
    let rest = insert_sorted r rows in if text_lt q.name r.name then q ∷ rest else r ∷ q ∷ rows

unfoldable pub sort_rows : List Row → List Row
unfolding insert_sorted
sort_rows [] = []
sort_rows (r ∷ rows) = insert_sorted r (sort_rows rows)

-- What a statement returns, and the table after it. A second row of one name breaks the primary key.
unfoldable pub run : Sql → List Row → Result (List Row) × List Row
unfolding find_row close_row remove_row sort_rows
run create_table rows = (ok [], rows)
run (insert_row r) rows = elim (find_row r.name rows) [
  | [] ↦ (ok [], rows ++ r ∷ [])
  | _ ↦ (err durastream_error, rows)
]
run (select_row name) rows = (ok (find_row name rows), rows)
run (update_closed name) rows = (ok [], close_row name rows)
run (delete_row name) rows = (ok [], remove_row name rows)
run select_names rows = (ok (sort_rows rows), rows)

-- `none` is a store that was closed.
pub record Meta : Type 0 where
  pub db : Option (List Row)
  pub os : List Answer

abbrev run_in : Sql → List Row → List Answer → Result (List Row) × Meta
run_in sql rows [] = let (r, rows') = run sql rows in (r, record { db = some rows'; os = [] })
run_in sql rows (fail ∷ os) = (err durastream_error, record { db = some rows; os = os })
run_in sql rows (_ ∷ os) = let (r, rows') = run sql rows in (r, record { db = some rows'; os = os })

abbrev execute_on : Sql → Option (List Row) → List Answer → Result (List Row) × Meta
execute_on sql none os = (err durastream_error, record { db = none; os = os })
execute_on sql (some rows) os = run_in sql rows os

unfoldable pub execute : Sql → Meta → Result (List Row) × Meta
unfolding run
execute sql m = execute_on sql m.db m.os

unfoldable pub check_open : Meta → Result (Unit {0}) × Meta
check_open m = elim m.db [ none ↦ (err durastream_error, m) | some rows ↦ (ok tt, m) ]

unfoldable pub close : Meta → Meta
close m = record m { db = none }
