-- ===== src/Engine/ExecutorDelete/Tests.antt =====
-- Conditions of src/engine/executor_delete.c on a table of a number and a text.
use midori_db.Prelude.{
  ℕ, ◌≡◌, refl, true, false, List, [], ◌∷◌, replicate, some, none, All-replicate, ok, fault, bug_on,
  Returns, ◌==◌, if◌then◌else◌, arith,
}
use midori_db.Bit.{bit_test}
use midori_db.Heap.{Heap}
use midori_db.Primitive.Column.{Column, varchar, integer, table_calc_row_size}
use midori_db.Primitive.Row.{Row, empty_row}
use midori_db.Primitive.Table.{Table}
use midori_db.Primitive.Table.Valid.{IsFree, IsValid}
use midori_db.Primitive.TableColumns.{has_column}
use midori_db.Engine.ExecutorDelete.Compare.{
  Platform, equals_op, int64_at, str_at, cmp_int_value_to_value, cmp_str_value_to_value,
}
use midori_db.Engine.ExecutorDelete.Fields.{
  ValueType, Exprval, find_field, cmp_field_to_field, cell_str,
}
use midori_db.Engine.ExecutorDelete.Eval.{
  logop_xor, DelNode, no_nodes, node_then, del_cmp, del_logop, del_deleteone, eval_isxin,
  eval_delete_row, eval_cmp,
}
use midori_db.Engine.ExecutorDelete.Evaluated.{IsChecked}
use midori_db.Engine.ExecutorDelete.Scan.{scan_delete}
use midori_db.Engine.ExecutorDelete.Conditions.{
  eval_delete_row-del_logop, cmp_field_to_field-same, eval_isxin-two_integers,
}
use midori_db.Engine.ExecutorDelete.Laws.{Scanned, decides, IsReadable, scan_delete-checked}

abbrev id_column : Column
id_column = record {
  name = b'i' ∷ b'd' ∷ [];
  kind = integer;
  precision = 8;
  indexed = false;
  nullable = true;
  unique = false;
  auto_inc = false;
  primary_key = false;
  is_count = false;
}

abbrev text_column : Column
text_column = record id_column { name = b't' ∷ []; kind = varchar; precision = 2 }

abbrev columns : List Column
columns = id_column ∷ text_column ∷ []

abbrev row_of : ℕ → ℕ → Row
row_of n p = record {
  empty = false;
  deleted = false;
  null_bitmap = replicate 16 0;
  cells =
      record { bytes = n ∷ replicate 7 0; pointer = 0 } ∷ record { bytes = []; pointer = p } ∷ [];
}

abbrev people : Table
people = record {
  name = b'p' ∷ [];
  columns = columns;
  blocks =
      (row_of 1 1 ∷ record (row_of 2 2) { deleted = true } ∷ row_of 3 2 ∷ replicate 99 empty_row)
      ∷ [];
  free_dtbkl_offset = 120;
}

-- The texts "x" and "y".
abbrev heap : Heap
heap = record {
  texts =
      λ p. if p == 1 then some (b'x' ∷ 0 ∷ []) else if p == 2 then some (b'y' ∷ 0 ∷ []) else none;
  next = 2;
}

abbrev platform : Platform
platform = record {
  double_eq = λ a b. a == b;
  double_lt = λ a b. false;
  double_le = λ a b. a == b;
  parse_time = λ str fmt. 0;
}

abbrev no_type : ValueType
no_type = record {
  is_name = false;
  is_intnum = false;
  is_str = false;
  is_approxnum = false;
  is_bool = false;
  is_null = false;
}

abbrev name_of : List ℕ → Exprval
name_of name = record { value_type = record no_type { is_name = true }; bytes = name }

abbrev number : ℕ → Exprval
number n = record { value_type = record no_type { is_intnum = true }; bytes = n ∷ [] }

abbrev str_of : List ℕ → Exprval
str_of str = record { value_type = record no_type { is_str = true }; bytes = str }

-- id = 1
abbrev first : DelNode
first = del_cmp equals_op (name_of id_column.name ∷ number 1 ∷ [])

-- t = 'y'
abbrev second : DelNode
second = del_cmp equals_op (name_of text_column.name ∷ str_of (b'y' ∷ []) ∷ [])

-- DELETE FROM p WHERE t = 'y'
abbrev condition : DelNode
condition = del_deleteone (node_then second no_nodes)

people-IsValid : IsValid people
unfolding table_calc_row_size
people-IsValid = record {
  fits = omega arith;
  width = (refl, tt);
  spare = (tt, tt);
  aligned = refl;
  inside = omega arith;
  free = All-replicate IsFree 99 empty_row (refl, refl);
}

condition-IsChecked : IsChecked columns condition
unfolding IsChecked has_column str_at
condition-IsChecked = (
  record {
    name_1 = λ _. refl;
    name_2 = λ e. absurd (cc e);
    two_names = λ _ e. absurd (cc e);
    two_values = λ e _. absurd (cc e);
  },
  tt,
)

scan_delete-checked_example :
    Returns
      (scan_delete platform heap condition people 0)
      (Scanned people (λ r. decides (eval_delete_row platform heap columns r condition)) 0)
unfolding cell_str
scan_delete-checked_example =
    scan_delete-checked platform heap condition people 0 people-IsValid (omega arith)
      condition-IsChecked
      (
        (λ _. (refl, (λ e. absurd (cc e), (λ _ _. (b'x' ∷ [], refl), tt)))),
        (
          λ e. absurd (cc e),
          (
            λ _. (refl, (λ e. absurd (cc e), (λ _ _. (b'y' ∷ [], refl), tt))),
            All-replicate (IsReadable heap columns) 99 empty_row (λ e. absurd (cc e)),
          ),
        ),
      )

-- XOR of two conditions of which one holds.
eval_delete_row-del_logop_example :
    eval_delete_row platform heap columns
      (row_of 1 1)
      (del_logop logop_xor (node_then first (node_then second no_nodes)))
    ≡ ok true
unfolding eval_delete_row eval_cmp cmp_int_value_to_value cmp_str_value_to_value
eval_delete_row-del_logop_example =
    eval_delete_row-del_logop platform heap columns (row_of 1 1) logop_xor first
      (node_then second no_nodes) true (false ∷ []) (refl, (refl, tt))

cmp_field_to_field-same_example :
    cmp_field_to_field platform heap columns
      (row_of 1 1)
      equals_op
      (name_of id_column.name)
      (name_of id_column.name)
    ≡ fault bug_on
cmp_field_to_field-same_example =
    cmp_field_to_field-same platform heap columns (row_of 1 1) equals_op (name_of id_column.name)
      (name_of id_column.name) refl refl (omega arith)

-- id NOT IN (1, 2) on the row whose id is 1.
eval_isxin-two_integers_example :
    eval_isxin platform heap columns
      (row_of 1 1)
      true
      (name_of id_column.name ∷ number 1 ∷ number 2 ∷ [])
    ≡ ok true
unfolding find_field str_at int64_at bit_test
eval_isxin-two_integers_example =
    eval_isxin-two_integers platform heap columns (row_of 1 1) (name_of id_column.name) (number 1)
      (number 2) [] 0 (record { bytes = 1 ∷ replicate 7 0; pointer = 0 }) refl refl refl refl refl
      refl refl (λ e. absurd (cc e))
