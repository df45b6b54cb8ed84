-- ===== src/Engine/Tests.antt =====
-- A result of rows without columns, and sums of integers.
use midori_db.Prelude.{ℕ, ◌<◌, ◌≡◌, refl, true, false, [], ◌∷◌, replicate, none, ok, Returns, arith}
use midori_db.Primitive.Column.{table_calc_row_size}
use midori_db.Primitive.Row.{Row, empty_row}
use midori_db.Primitive.Table.{Table}
use midori_db.Engine.Cursor.{midoridb_ok, midoridb_row, query_cur_step}
use midori_db.Engine.Cursor.Laws.{cursor_at, read_rows, read_rows-block, query_cur_step-behind_last}
use midori_db.Engine.OptimiserInsert.{
  Expr, exprval, exprop, op_add, op_sub, Doubles, resolve_math_expr,
}
use midori_db.Engine.OptimiserInsert.Laws.{IsSmall, Resolved, resolve_math_expr-Resolved}

abbrev a_row : Row
a_row = record empty_row { empty = false }

-- What the bytes behind a block may read as: a row.
abbrev tail : ℕ → Row
tail blk = a_row

abbrev two_rows : Table
two_rows = record {
  name = b'r' ∷ [];
  columns = [];
  blocks = (a_row ∷ a_row ∷ replicate 168 empty_row) ∷ [];
  free_dtbkl_offset = 48;
}

abbrev full : Table
full = record {
  name = b'r' ∷ [];
  columns = [];
  blocks = replicate 170 a_row ∷ (a_row ∷ replicate 169 empty_row) ∷ [];
  free_dtbkl_offset = 24;
}

read_rows-block_example :
    read_rows tail 3 (record { table = two_rows; cursor_blk = none; cursor_offset = 0 })
    ≡ ok (a_row ∷ a_row ∷ [], midoridb_ok)
unfolding table_calc_row_size
read_rows-block_example =
    read_rows-block tail two_rows (a_row ∷ a_row ∷ replicate 168 empty_row) (a_row ∷ a_row ∷ [])
      empty_row (replicate 167 empty_row) refl refl refl ((refl, refl), ((refl, refl), tt)) refl
      refl

query_cur_step-behind_last_example :
    query_cur_step tail (cursor_at tail full 0 169) ≡ ok (midoridb_row, cursor_at tail full 0 170)
unfolding table_calc_row_size
query_cur_step-behind_last_example =
    query_cur_step-behind_last tail full 0 (replicate 170 a_row) refl 169 refl refl

abbrev number : ℕ → Expr
number n = exprval (record {
  value_type = record {
    is_intnum = true;
    is_str = false;
    is_approxnum = false;
    is_bool = false;
    is_null = false;
    is_negation = false;
  };
  bits = n;
})

number-IsInt : (n : ℕ) → n < 2147483648 → IsSmall (number n)
number-IsInt n lt = (record { intnum = refl; not_null = refl; no_sign = refl }, lt)

abbrev no_doubles : Doubles
no_doubles = record {
  add = λ a b. a;
  sub = λ a b. a;
  mul = λ a b. a;
  div = λ a b. a;
  is_zero = λ a. false;
  of_int = λ a. a;
  to_int = λ a. a;
  zero_bits = 0;
  minus = λ a. a;
}

-- 9 - (3 + 4)
abbrev nine_less_seven : Expr
nine_less_seven = exprop op_sub (exprop op_add (number 4) (number 3)) (number 9)

nine_less_seven-IsSmall : IsSmall nine_less_seven
nine_less_seven-IsSmall = (
  (number-IsInt 4 (omega arith), number-IsInt 3 (omega arith), tt, omega arith),
  number-IsInt 9 (omega arith),
  omega arith,
  omega arith,
)

resolve_math_expr-Resolved_example :
    Returns (resolve_math_expr no_doubles nine_less_seven) (Resolved nine_less_seven)
resolve_math_expr-Resolved_example =
    resolve_math_expr-Resolved no_doubles nine_less_seven nine_less_seven-IsSmall
