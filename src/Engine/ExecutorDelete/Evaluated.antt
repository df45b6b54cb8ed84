-- ===== src/Engine/ExecutorDelete/Evaluated.antt =====
-- The conditions of src/engine/executor_delete.c evaluate, on the rows that a table holds.
use midori_db.Prelude.{
  ℕ, ◌≤◌, ◌≡◌, refl, sym, ap, ◌∙◌, Bool, true, false, ◌||◌, not, List, [], ◌∷◌, length, Option,
  none, some, All, Outcome, ok, if◌then◌else◌, ◌>>=◌, arith,
}
use midori_db.Bit.{bit_test}
use midori_db.Heap.{Heap}
use midori_db.Primitive.Column.{
  ColumnType, varchar, integer, tinyint, double, date, datetime, Column,
}
use midori_db.Primitive.Name.{str_eq}
use midori_db.Primitive.Row.{Cell, Row, bitmap_size}
use midori_db.Primitive.Row.Values.{bit_at}
use midori_db.Primitive.TableColumns.{has_column}
use midori_db.Engine.ExecutorDelete.Compare.{
  Platform, ComparisonType, equals_op, diff_op, bool_eq, str_at, cmp_str_value_to_value,
}
use midori_db.Engine.ExecutorDelete.Fields.{
  Exprval, Field, null_bit, cell_str, cmp_cells, cmp_found, cmp_cell_to_value, cmp_field_to_field,
  cmp_field_to_value, cmp_value_to_value,
}
use midori_db.Engine.ExecutorDelete.Eval.{
  LogopType, DelNode, DelNodes, no_nodes, node_then, del_cmp, del_isxnull, del_isxin, del_logop,
  del_deleteone, del_exprval, last_val, cmp_operands, eval_cmp, eval_isxnull, find_name, any_value,
  eval_isxin, gate, eval_delete_row, eval_gate, eval_all,
}
use midori_db.Engine.ExecutorDelete.Checked.{
  Readable, SameKind, IsField, find_field-IsField, IsFieldOf, is_found, find_fields-AreFields,
}

-- The call returns.
abbrev pub Evaluates : Outcome Bool → Type 0
Evaluates out = (b : Bool) × (out ≡ ok b)

-- A value that is the name of a column.
abbrev pub IsNamed : List Column → Exprval → Type 0
IsNamed columns val = has_column columns (str_at val.bytes) ≡ true

-- A value has a type.
abbrev pub has_type : Exprval → Bool
has_type val =
    val.value_type.is_approxnum
    || (val.value_type.is_bool
        || (val.value_type.is_intnum || (val.value_type.is_null || val.value_type.is_str)))

-- The operands of a comparison: names of columns, of one type if there are two, and values.
pub record AreOperands (columns : List Column) (val_1 val_2 : Exprval) : Type 0 where
  pub name_1 : val_1.value_type.is_name ≡ true → IsNamed columns val_1
  pub name_2 : val_2.value_type.is_name ≡ true → IsNamed columns val_2
  pub two_names :
      val_1.value_type.is_name ≡ true
      → val_2.value_type.is_name ≡ true
      → (str_eq (str_at val_1.bytes) (str_at val_2.bytes) ≡ false)
        × ((kind : ColumnType) × All
              (SameKind kind (str_at val_1.bytes) (str_at val_2.bytes))
              columns)
  pub two_values :
      val_1.value_type.is_name ≡ false → val_2.value_type.is_name ≡ false → has_type val_1 ≡ true

-- A condition whose names are columns of the table, whose values have a type, and in which two columns
-- that are compared are different ones of one type. The semantic phase also lets a column be compared
-- with itself.
unfoldable mutual
  pub IsChecked : List Column → DelNode → Type 0
  IsChecked columns (del_cmp cmp_type []) = ⊥
  IsChecked columns (del_cmp cmp_type (val_1 ∷ [])) = ⊥
  IsChecked columns (del_cmp cmp_type (val_1 ∷ val ∷ vals)) =
      AreOperands columns val_1 (last_val val vals)
  IsChecked columns (del_isxnull is_negation []) = ⊥
  IsChecked columns (del_isxnull is_negation (val ∷ vals)) = IsNamed columns (last_val val vals)
  IsChecked columns (del_isxin is_negation vals) =
      (field : Exprval) × (find_name vals ≡ some field) × IsNamed columns field
  IsChecked columns (del_logop logop_type nodes) = AllChecked columns nodes
  IsChecked columns (del_deleteone nodes) = AllChecked columns nodes
  IsChecked columns (del_exprval val) = ⊥

  pub AllChecked : List Column → DelNodes → Type 0
  AllChecked columns no_nodes = Unit
  AllChecked columns (node_then node nodes) = IsChecked columns node × AllChecked columns nodes

either-Returns :
    (a : Bool) (x y : Outcome Bool)
    → (a ≡ true → Evaluates x)
    → (a ≡ false → Evaluates y)
    → Evaluates (if a then x else y)
either-Returns true x y e_x e_y = e_x refl
either-Returns false x y e_x e_y = e_y refl

untyped :
    (a b c d e : Bool)
    → (a || (b || (c || (d || e)))) ≡ true
    → a ≡ false
    → b ≡ false
    → c ≡ false
    → d ≡ false
    → e ≡ false
    → ⊥
untyped a b c d e typed f_a f_b f_c f_d f_e = ground (arith, typed, f_a, f_b, f_c, f_d, f_e)

left_false : (a b : Bool) → (a || b) ≡ false → a ≡ false
left_false true b f = f
left_false false b f = refl

right_false : (a b : Bool) → (a || b) ≡ false → b ≡ false
right_false true b f = absurd (cc f)
right_false false b f = f

module _ (p : Platform) (h : Heap) (columns : List Column) (row : Row)
    (bitmap : length row.null_bitmap ≡ bitmap_size) (few : length columns ≤ 128)
    (readable : Readable h row.null_bitmap columns 0 row.cells) where
  abbrev IsGood : Field → Type 0
  IsGood = IsField h row.null_bitmap (length columns)

  null_bit-Returns :
      (field : Field)
      → IsGood field
      → (b : Bool) × (bit_test row.null_bitmap field.col_idx bitmap_size ≡ ok b)
  null_bit-Returns field good =
      bit_at row.null_bitmap field.col_idx bitmap (omega (arith, good.inside, few))

  cmp_cell_to_value-Returns :
      (cmp_type : ComparisonType) (kind : ColumnType) (cell : Cell) (value : Exprval)
      → (kind ≡ varchar → (str : List ℕ) × (cell_str h cell ≡ ok str))
      → Evaluates (cmp_cell_to_value p h cmp_type kind cell value)
  unfolding cmp_cell_to_value
  cmp_cell_to_value-Returns cmp_type varchar cell value text =
      let (str, e) = text refl in
      (cmp_str_value_to_value cmp_type str (str_at value.bytes), rw e refl)
  cmp_cell_to_value-Returns cmp_type integer cell value text = (_, refl)
  cmp_cell_to_value-Returns cmp_type tinyint cell value text = (_, refl)
  cmp_cell_to_value-Returns cmp_type double cell value text = (_, refl)
  cmp_cell_to_value-Returns cmp_type date cell value text = (_, refl)
  cmp_cell_to_value-Returns cmp_type datetime cell value text = (_, refl)

  cmp_cells-Returns :
      (cmp_type : ComparisonType) (kind : ColumnType) (cell_1 cell_2 : Cell)
      → (kind ≡ varchar → (str : List ℕ) × (cell_str h cell_1 ≡ ok str))
      → (kind ≡ varchar → (str : List ℕ) × (cell_str h cell_2 ≡ ok str))
      → Evaluates (cmp_cells p h cmp_type kind cell_1 cell_2)
  unfolding cmp_cells
  cmp_cells-Returns cmp_type varchar cell_1 cell_2 text_1 text_2 =
      let (str_1, e_1) = text_1 refl in
      let (str_2, e_2) = text_2 refl in
      (cmp_str_value_to_value cmp_type str_1 str_2, rw (e_1, e_2) refl)
  cmp_cells-Returns cmp_type integer cell_1 cell_2 text_1 text_2 = (_, refl)
  cmp_cells-Returns cmp_type tinyint cell_1 cell_2 text_1 text_2 = (_, refl)
  cmp_cells-Returns cmp_type double cell_1 cell_2 text_1 text_2 = (_, refl)
  cmp_cells-Returns cmp_type date cell_1 cell_2 text_1 text_2 = (_, refl)
  cmp_cells-Returns cmp_type datetime cell_1 cell_2 text_1 text_2 = (_, refl)

  cmp_field_to_value-Returns :
      (cmp_type : ComparisonType) (field value : Exprval)
      → IsNamed columns field
      → Evaluates (cmp_field_to_value p h columns row cmp_type field value)
  unfolding cmp_field_to_value null_bit
  cmp_field_to_value-Returns cmp_type field value name =
      let (found, at, good) =
        find_field-IsField h row.null_bitmap columns 0 row.cells (str_at field.bytes)
          (length columns) readable name (omega arith) in
      let (null, bit) = null_bit-Returns found good in
      rw (at, bit)
        (either-Returns (null || value.value_type.is_null) _ _ (λ _. (false, refl))
          (λ f. cmp_cell_to_value-Returns cmp_type found.kind found.cell value (λ kind.
            good.readable kind (bit ∙ ap ok (left_false null value.value_type.is_null f)))))

  cmp_found-Returns :
      (cmp_type : ComparisonType) (kind : ColumnType) (found_1 found_2 : Option Field)
      → is_found found_1 ≡ true
      → is_found found_2 ≡ true
      → IsFieldOf h row.null_bitmap (length columns) kind found_1
      → IsFieldOf h row.null_bitmap (length columns) kind found_2
      → Evaluates (
          null_bit row found_1 >>= λ null_1. null_bit row found_2 >>= λ null_2.
          if null_1 || null_2 then ok false else cmp_found p h cmp_type found_1 found_2)
  unfolding null_bit
  cmp_found-Returns cmp_type kind none found_2 is_1 is_2 good_1 good_2 = absurd (cc is_1)
  cmp_found-Returns cmp_type kind (some _) none is_1 is_2 good_1 good_2 = absurd (cc is_2)
  cmp_found-Returns cmp_type kind (some field_1) (some field_2) is_1 is_2 good_1 good_2 =
      let (null_1, bit_1) = null_bit-Returns field_1 (good_1.0) in
      let (null_2, bit_2) = null_bit-Returns field_2 (good_2.0) in
      rw (bit_1, bit_2)
        (either-Returns (null_1 || null_2) _ _ (λ _. (false, refl))
          (λ f.
            cmp_cells-Returns cmp_type field_1.kind field_1.cell field_2.cell
              (λ kind. good_1.0.readable kind (bit_1 ∙ ap ok (left_false null_1 null_2 f)))
              (λ same.
                good_2.0.readable (good_2.1 ∙ sym (good_1.1) ∙ same)
                  (bit_2 ∙ ap ok (right_false null_1 null_2 f)))))

  cmp_field_to_field-Returns :
      (cmp_type : ComparisonType) (val_1 val_2 : Exprval) (kind : ColumnType)
      → IsNamed columns val_1
      → IsNamed columns val_2
      → str_eq (str_at val_1.bytes) (str_at val_2.bytes) ≡ false
      → All (SameKind kind (str_at val_1.bytes) (str_at val_2.bytes)) columns
      → Evaluates (cmp_field_to_field p h columns row cmp_type val_1 val_2)
  unfolding cmp_field_to_field
  cmp_field_to_field-Returns cmp_type val_1 val_2 kind name_1 name_2 differ kinds =
      let fields =
        find_fields-AreFields h row.null_bitmap kind (str_at val_1.bytes) (str_at val_2.bytes)
          (length columns) columns 0 row.cells (none, none) readable kinds (omega arith) tt tt in
      cmp_found-Returns cmp_type kind _ _ (fields.has_first (rw name_1 refl))
        (fields.has_second differ (rw name_2 refl)) fields.first fields.second

  cmp_value_to_value-Returns :
      (cmp_type : ComparisonType) (val_1 val_2 : Exprval)
      → has_type val_1 ≡ true
      → Evaluates (cmp_value_to_value p cmp_type val_1 val_2)
  unfolding cmp_value_to_value
  cmp_value_to_value-Returns cmp_type val_1 val_2 typed =
      let v = val_1.value_type in
      either-Returns v.is_approxnum _ _ (λ _. (_, refl))
        (λ f_1.
          either-Returns v.is_bool _ _ (λ _. (_, refl))
            (λ f_2.
              either-Returns v.is_intnum _ _ (λ _. (_, refl))
                (λ f_3.
                  either-Returns v.is_null _ _ (λ _. (_, refl))
                    (λ f_4.
                      either-Returns v.is_str _ _ (λ _. (_, refl))
                        (λ f_5. absurd (
                          untyped v.is_approxnum v.is_bool v.is_intnum v.is_null v.is_str typed f_1
                            f_2 f_3 f_4 f_5))))))

  cmp_operands-Returns :
      (cmp_type : ComparisonType) (val_1 val_2 : Exprval)
      → AreOperands columns val_1 val_2
      → Evaluates (cmp_operands p h columns row cmp_type val_1 val_2)
  unfolding cmp_operands
  cmp_operands-Returns cmp_type val_1 val_2 are =
      either-Returns val_1.value_type.is_name _ _
        (λ name_1.
          either-Returns val_2.value_type.is_name _ _
            (λ name_2.
              let (differ, kinds) = are.two_names name_1 name_2 in
              cmp_field_to_field-Returns cmp_type val_1 val_2 (kinds.0) (are.name_1 name_1)
                (are.name_2 name_2) differ (kinds.1))
            (λ _. cmp_field_to_value-Returns cmp_type val_1 val_2 (are.name_1 name_1)))
        (λ value_1.
          either-Returns val_2.value_type.is_name _ _
            (λ name_2. cmp_field_to_value-Returns cmp_type val_2 val_1 (are.name_2 name_2))
            (λ value_2.
              cmp_value_to_value-Returns cmp_type val_1 val_2 (are.two_values value_1 value_2)))

  eval_isxnull-Returns :
      (is_negation : Bool) (val : Exprval) (vals : List Exprval)
      → IsNamed columns (last_val val vals)
      → Evaluates (eval_isxnull columns row is_negation (val ∷ vals))
  unfolding eval_isxnull null_bit
  eval_isxnull-Returns is_negation val vals name =
      let (found, at, good) =
        find_field-IsField h row.null_bitmap columns 0 row.cells (str_at (last_val val vals).bytes)
          (length columns) readable name (omega arith) in
      let (null, bit) = null_bit-Returns found good in
      (not (bool_eq null is_negation), rw (at, bit) refl)

  any_value-Returns :
      (cmp_type : ComparisonType) (field : Exprval) (vals : List Exprval)
      → IsNamed columns field
      → Evaluates (any_value p h columns row cmp_type field vals)
  unfolding any_value
  any_value-Returns cmp_type field [] name = (false, refl)
  any_value-Returns cmp_type field (val ∷ vals) name =
      let (b, e) = cmp_field_to_value-Returns cmp_type field val name in
      let rest = any_value-Returns cmp_type field vals name in
      either-Returns val.value_type.is_name _ _ (λ _. rest)
        (λ _. rw e (either-Returns b _ _ (λ _. (true, refl)) (λ _. rest)))

  eval_isxin-Returns :
      (is_negation : Bool) (vals : List Exprval) (field : Exprval)
      → find_name vals ≡ some field
      → IsNamed columns field
      → Evaluates (eval_isxin p h columns row is_negation vals)
  unfolding eval_isxin
  eval_isxin-Returns is_negation vals field at name =
      rw (eval_isxin, at)
        (any_value-Returns (if is_negation then diff_op else equals_op) field vals name)

  mutual
    unfolding eval_delete_row IsChecked eval_cmp

    -- Such a condition evaluates on a row with a bitmap of its size,
    -- at most 128 columns, and the texts of its varchar columns, each with a NUL.
    pub eval_delete_row-Returns :
        (node : DelNode) → IsChecked columns node → Evaluates (eval_delete_row p h columns row node)
    eval_delete_row-Returns (del_cmp cmp_type []) is = elim is [ ]
    eval_delete_row-Returns (del_cmp cmp_type (val_1 ∷ [])) is = elim is [ ]
    eval_delete_row-Returns (del_cmp cmp_type (val_1 ∷ val ∷ vals)) is =
        cmp_operands-Returns cmp_type val_1 (last_val val vals) is
    eval_delete_row-Returns (del_isxnull is_negation []) is = elim is [ ]
    eval_delete_row-Returns (del_isxnull is_negation (val ∷ vals)) is =
        eval_isxnull-Returns is_negation val vals is
    eval_delete_row-Returns (del_isxin is_negation vals) (field, at, name) =
        eval_isxin-Returns is_negation vals field at name
    eval_delete_row-Returns (del_logop logop_type nodes) is =
        eval_gate-Returns logop_type none nodes is
    eval_delete_row-Returns (del_deleteone nodes) is = eval_all-Returns true nodes is
    eval_delete_row-Returns (del_exprval val) is = elim is [ ]

    eval_gate-Returns :
        (logop_type : LogopType) (ret : Option Bool) (nodes : DelNodes)
        → AllChecked columns nodes
        → Evaluates (eval_gate p h columns row logop_type ret nodes)
    eval_gate-Returns logop_type none no_nodes is = (true, refl)
    eval_gate-Returns logop_type (some ret) no_nodes is = (ret, refl)
    eval_gate-Returns logop_type none (node_then node nodes) is =
        let (b, e) = eval_delete_row-Returns node (is.0) in
        rw e (eval_gate-Returns logop_type (some b) nodes (is.1))
    eval_gate-Returns logop_type (some ret) (node_then node nodes) is =
        let (b, e) = eval_delete_row-Returns node (is.0) in
        rw e (eval_gate-Returns logop_type (some (gate logop_type ret b)) nodes (is.1))

    eval_all-Returns :
        (ret : Bool) (nodes : DelNodes)
        → AllChecked columns nodes
        → Evaluates (eval_all p h columns row ret nodes)
    eval_all-Returns ret no_nodes is = (ret, refl)
    eval_all-Returns true (node_then node nodes) is =
        let (b, e) = eval_delete_row-Returns node (is.0) in rw e (eval_all-Returns b nodes (is.1))
    eval_all-Returns false (node_then node nodes) is = eval_all-Returns false nodes (is.1)
