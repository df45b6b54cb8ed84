-- ===== src/Engine/ExecutorInsert/Built.antt =====
-- The row that `build_row` of src/engine/executor_insert.c builds has the values of the statement.
use midori_db.Prelude.{
  ℕ, ◌≤◌, ◌≡◌, refl, sym, ap, ◌∙◌, true, false, ◌||◌, List, [], ◌++◌, length, take, replicate, some,
  if_true, if_false, ok, Returns,
}
use mathlib.Core.Path.{subst}
use mathlib.Core.Option
use midori_db.Heap.{Heap}
use midori_db.Datastructure.Words.{word_size, word_bytes}
use midori_db.Primitive.Column.{Column, table_check_var_column, table_calc_column_space}
use midori_db.Primitive.Row.{Cell, zero_cell}
use midori_db.Primitive.Row.Values.{Value, null, fixed, text, value, SuppliedCell}
use midori_db.Engine.Database.{ReturnCode, midoridb_ok}
use midori_db.Engine.ExecutorDelete.Compare.{str_at}
use midori_db.Engine.ExecutorInsert.Cells.{
  InsVal, ParseTime, parse_date_type, copied_cell, is_date, str_cell, value_cell,
}

-- The first bytes of some, with zero bytes behind them where they end.
abbrev pub padded : ℕ → List ℕ → List ℕ
padded n bytes = take n (bytes ++ replicate n 0)

-- A value that a column can have, and what it is there: a number or a truth value, NULL, the time of
-- a string, or a text.
pub data Storable (parse_time : ParseTime) (h : Heap) (column : Column) (val : InsVal)
    : Value → Type 0 where
  number :
      (val.value_type.is_intnum || (val.value_type.is_approxnum || val.value_type.is_bool)) ≡ true
      → val.value_type.is_null ≡ false
      → table_check_var_column column ≡ false
      → Storable parse_time h column val (fixed (padded (table_calc_column_space column) val.bytes))
  nothing :
      (val.value_type.is_intnum || (val.value_type.is_approxnum || val.value_type.is_bool)) ≡ false
      → val.value_type.is_null ≡ true
      → Storable parse_time h column val null
  time :
      (t : ℕ)
      → (val.value_type.is_intnum || (val.value_type.is_approxnum || val.value_type.is_bool))
        ≡ false
      → val.value_type.is_null ≡ false
      → val.value_type.is_str ≡ true
      → is_date column.kind ≡ true
      → table_check_var_column column ≡ false
      → parse_date_type parse_time (str_at val.bytes) column.kind ≡ (midoridb_ok, t)
      → Storable parse_time h column val
          (fixed (padded (table_calc_column_space column) (word_bytes word_size t)))
  string :
      (src : List ℕ)
      → (val.value_type.is_intnum || (val.value_type.is_approxnum || val.value_type.is_bool))
        ≡ false
      → val.value_type.is_null ≡ false
      → val.value_type.is_str ≡ true
      → is_date column.kind ≡ false
      → table_check_var_column column ≡ true
      → h.texts val.address ≡ some src
      → column.precision ≤ length src
      → Storable parse_time h column val (text (some (take column.precision src)))

-- The cell that is made of it, in place of a cell of zero bytes.
pub record MadeCell (h : Heap) (column : Column) (val : InsVal) (v : Value)
    (out : ReturnCode × Cell) : Type 0 where
  pub returns : out.0 ≡ midoridb_ok
  pub stored : value h column (ok val.value_type.is_null) out.1 ≡ v
  pub supplied : SuppliedCell h column (ok val.value_type.is_null) out.1

copied-plain :
    (column : Column) (bytes : List ℕ)
    → table_check_var_column column ≡ false
    → copied_cell column bytes
      ≡ record { bytes = padded (table_calc_column_space column) bytes; pointer = 0 }
unfolding copied_cell
copied-plain column bytes plain = if_false (table_check_var_column column) _ _ plain

value-plain :
    (h : Heap) (column : Column) (cell : Cell)
    → table_check_var_column column ≡ false
    → value h column (ok false) cell ≡ fixed cell.bytes
unfolding value
value-plain h column cell plain = if_false (table_check_var_column column) _ _ plain

value-var :
    (h : Heap) (column : Column) (cell : Cell)
    → table_check_var_column column ≡ true
    → value h column (ok false) cell
      ≡ text (Option.map (take column.precision) (h.texts cell.pointer))
unfolding value
value-var h column cell var = if_true (table_check_var_column column) _ _ var

-- A value that is not NULL: the cell that is made of it, and what the column has with that cell.
made :
    (h : Heap) (column : Column) (val : InsVal) (v : Value) (cell : Cell)
    → val.value_type.is_null ≡ false
    → value h column (ok false) cell ≡ v
    → SuppliedCell h column (ok false) cell
    → MadeCell h column val v (midoridb_ok, cell)
made h column val v cell there stored supplied = record {
  returns = refl;
  stored = ap (λ b. value h column (ok b) cell) there ∙ stored;
  supplied = subst (λ b. SuppliedCell h column (ok b) cell) (sym there) supplied;
}

made-plain :
    (h : Heap) (column : Column) (val : InsVal) (bytes : List ℕ)
    → val.value_type.is_null ≡ false
    → table_check_var_column column ≡ false
    → MadeCell h column val
        (fixed (padded (table_calc_column_space column) bytes))
        (midoridb_ok, copied_cell column bytes)
made-plain h column val bytes there plain =
    made h column val _ (copied_cell column bytes) there
      (value-plain h column _ plain
        ∙ ap (λ cell. fixed cell.bytes) (copied-plain column bytes plain))
      (λ var n. absurd (cc (sym var ∙ plain)))

-- The branch for a string.
to_str :
    (parse_time : ParseTime) (column : Column) (val : InsVal)
    → (val.value_type.is_intnum || (val.value_type.is_approxnum || val.value_type.is_bool)) ≡ false
    → val.value_type.is_null ≡ false
    → val.value_type.is_str ≡ true
    → value_cell parse_time column zero_cell val ≡ str_cell parse_time column val
unfolding value_cell
to_str parse_time column val num there str =
    if_false _ _ _ num ∙ if_false _ _ _ there ∙ if_true _ _ _ str

pub value_cell-Made :
    (parse_time : ParseTime) (h : Heap) (column : Column) (val : InsVal) (v : Value)
    → Storable parse_time h column val v
    → Returns (value_cell parse_time column zero_cell val) (MadeCell h column val v)
unfolding value_cell str_cell value
value_cell-Made parse_time h column val v (number num there plain) = (
  (midoridb_ok, copied_cell column val.bytes),
  if_true _ _ _ num,
  made-plain h column val val.bytes there plain,
)
value_cell-Made parse_time h column val v (nothing num is_null) = (
  (midoridb_ok, zero_cell),
  if_false _ _ _ num ∙ if_true _ _ _ is_null,
  record {
    returns = refl;
    stored = ap (λ b. value h column (ok b) zero_cell) is_null;
    supplied = λ var n. let both : ok true ≡ ok false = sym (ap ok is_null) ∙ n in absurd (cc both);
  },
)
value_cell-Made parse_time h column val v (time t num there str dated plain parsed) = (
  (midoridb_ok, copied_cell column (word_bytes word_size t)),
  to_str parse_time column val num there str
      ∙ if_true _ _ _ dated
      ∙ ap (λ r. ok (r.0, copied_cell column (word_bytes word_size (r.1)))) parsed,
  made-plain h column val (word_bytes word_size t) there plain,
)
value_cell-Made parse_time h column val v (string src num there str dated var at long) = (
  (midoridb_ok, record { bytes = []; pointer = val.address }),
  to_str parse_time column val num there str ∙ if_false _ _ _ dated ∙ if_true _ _ _ var,
  made h column val _ (record { bytes = []; pointer = val.address }) there
      (value-var h column _ var ∙ ap (λ o. text (Option.map (take column.precision) o)) at)
      (λ _ _. (src, at, long)),
)
