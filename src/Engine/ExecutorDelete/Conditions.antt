-- ===== src/Engine/ExecutorDelete/Conditions.antt =====
-- What the conditions of src/engine/executor_delete.c mean.
use midori_db.Prelude.{
  ℕ, suc, ◌+◌, ◌%◌, ◌^◌, ◌<◌, ◌≡◌, ◌≢◌, refl, sym, ap, ◌∙◌, Bool, true, false, ◌||◌, List, [], ◌∷◌,
  length, Option, none, some, Bool-cases, inl, inr, Outcome, ok, fault, bug_on, if◌then◌else◌,
  if_true, if_false, ◌>>=◌, ltb, ◌==◌, arith,
}
use midori_db.Bit.{bit_test}
use midori_db.Heap.{Heap}
use midori_db.Primitive.Column.{integer, Column}
use midori_db.Primitive.Name.{str_eq}
use midori_db.Primitive.Row.Values.{bit_at}
use midori_db.Primitive.Row.{Cell, Row, bitmap_size, other_cells}
use midori_db.Engine.ExecutorDelete.Compare.{
  Platform, ComparisonType, diff_op, cmp_int_value_to_value, int64_at, str_at,
}
use midori_db.Engine.ExecutorDelete.Fields.{
  Exprval, Field, find_field, find_fields, null_bit, cmp_found, cmp_cell_to_value,
  cmp_field_to_field, cmp_field_to_value,
}
use midori_db.Engine.ExecutorDelete.Eval.{
  LogopType, logop_and, logop_or, logop_xor, DelNode, DelNodes, no_nodes, node_then, del_logop,
  any_value, eval_isxin, find_name, gate, eval_delete_row, eval_gate,
}

-- How many children hold, and what each operator makes of that.
abbrev pub trues : List Bool → ℕ
trues [] = 0
trues (b ∷ bs) = (if b then 1 else 0) + trues bs

abbrev pub verdict : LogopType → ℕ → ℕ → Bool
verdict logop_and held all = held == all
verdict logop_or held all = ltb 0 held
verdict logop_xor held all = held % 2 == 1

-- The result so far, when `held` of `all` children have held, and that of one more child.
gate-verdict :
    (op : LogopType) (ret b : Bool) (held all : ℕ)
    → held < suc all
    → ret ≡ verdict op held all
    → gate op ret b ≡ verdict op (held + (if b then 1 else 0)) (all + 1)
unfolding gate
gate-verdict logop_and ret true held all le e = ground (arith, e)
gate-verdict logop_and ret false held all le e = ground (arith, e)
gate-verdict logop_or ret true held all le e = ground (arith, e)
gate-verdict logop_or ret false held all le e = ground (arith, e)
gate-verdict logop_xor ret true held all le e = ground (arith, e)
gate-verdict logop_xor ret false held all le e = ground (arith, e)

one_child : (op : LogopType) (b : Bool) → b ≡ verdict op (if b then 1 else 0) 1
one_child logop_and true = refl
one_child logop_and false = refl
one_child logop_or true = refl
one_child logop_or false = refl
one_child logop_xor true = refl
one_child logop_xor false = refl

-- The fields that the loop has found, when it looks for one name twice: no second one.
abbrev IsBelow : ℕ → Option Field → Type 0
IsBelow n none = Unit
IsBelow n (some field) = field.col_idx < n

find_fields-same :
    (columns : List Column) (idx : ℕ) (cells : List Cell) (name : List ℕ) (first : Option Field)
    (n : ℕ)
    → idx + length columns < suc n
    → IsBelow n first
    → (field : Option Field) × (find_fields columns idx cells name name (first, none)
        ≡ (field, none))
      × IsBelow n field
unfolding find_fields
find_fields-same [] idx cells name first n le below = (first, refl, below)
find_fields-same (col ∷ columns) idx cells name first n le below =
    elim (Bool-cases (str_eq col.name name)) [
      | inl same ↦ rw same (
          find_fields-same columns (idx + 1) (other_cells cells) name _ n (omega (arith, le))
            (omega (arith, le)))
      | inr other ↦ rw other (
          find_fields-same columns (idx + 1) (other_cells cells) name first n (omega (arith, le))
            below)
    ]

module _ (p : Platform) (h : Heap) (columns : List Column) (row : Row) where
  -- The children evaluate to the bits.
  abbrev pub EvaluateTo : DelNodes → List Bool → Type 0
  EvaluateTo no_nodes [] = Unit
  EvaluateTo no_nodes (b ∷ bs) = ⊥
  EvaluateTo (node_then node nodes) [] = ⊥
  EvaluateTo (node_then node nodes) (b ∷ bs) =
      (eval_delete_row p h columns row node ≡ ok b) × EvaluateTo nodes bs

  eval_gate-verdict :
      (op : LogopType) (nodes : DelNodes) (bs : List Bool) (ret : Bool) (held all : ℕ)
      → EvaluateTo nodes bs
      → held < suc all
      → ret ≡ verdict op held all
      → eval_gate p h columns row op (some ret) nodes
        ≡ ok (verdict op (held + trues bs) (all + length bs))
  unfolding eval_delete_row
  eval_gate-verdict op no_nodes [] ret held all evals le e =
      let same_held : held + 0 ≡ held = omega arith in
      let same_all : all + 0 ≡ all = omega arith in rw (same_held, same_all) (ap ok e)
  eval_gate-verdict op no_nodes (b ∷ bs) ret held all evals le e = elim evals [ ]
  eval_gate-verdict op (node_then node nodes) [] ret held all evals le e = elim evals [ ]
  eval_gate-verdict op (node_then node nodes) (b ∷ bs) ret held all (eval, evals) le e =
      let one : ℕ = if b then 1 else 0 in
      let same_held : held + (one + trues bs) ≡ held + one + trues bs = omega arith in
      let same_all : all + suc (length bs) ≡ all + 1 + length bs = omega arith in
      rw (eval, same_held, same_all)
        (eval_gate-verdict op nodes bs (gate op ret b) (held + one) (all + 1) evals
          (ground (arith, le)) (gate-verdict op ret b held all le e))

  -- A logical operator, on children that all evaluate: AND holds if all of them do, OR if one does,
  -- and XOR if an odd number does.
  pub eval_delete_row-del_logop :
      (op : LogopType) (node : DelNode) (nodes : DelNodes) (b : Bool) (bs : List Bool)
      → EvaluateTo (node_then node nodes) (b ∷ bs)
      → eval_delete_row p h columns row (del_logop op (node_then node nodes))
        ≡ ok (verdict op (trues (b ∷ bs)) (length (b ∷ bs)))
  unfolding eval_delete_row
  eval_delete_row-del_logop op node nodes b bs (eval, evals) =
      let one : ℕ = if b then 1 else 0 in
      rw eval (
        eval_gate-verdict op nodes bs b one 1 evals (ground arith) (one_child op b)
        ∙ ap (λ all. ok (verdict op (one + trues bs) all)) (omega arith))

  -- The comparison of a column with itself ends the process, on a row with a bitmap of its size and at
  -- most 128 columns.
  pub cmp_field_to_field-same :
      (cmp_type : ComparisonType) (val_1 val_2 : Exprval)
      → str_at val_1.bytes ≡ str_at val_2.bytes
      → length row.null_bitmap ≡ bitmap_size
      → length columns < 129
      → cmp_field_to_field p h columns row cmp_type val_1 val_2 ≡ fault bug_on
  unfolding cmp_field_to_field null_bit
  cmp_field_to_field-same cmp_type val_1 val_2 same bitmap few =
      let (field, found, below) =
        find_fields-same columns 0 row.cells (str_at val_1.bytes) none 128 (omega (arith, few))
          tt in
      let names =
        ap (λ name. find_fields columns 0 row.cells (str_at val_1.bytes) name (none, none))
          (sym same) in
      rw (names, found) (first_null field below)
    where
      first_null :
          (field : Option Field)
          → IsBelow 128 field
          → (null_bit row field >>= λ is_null_1. null_bit row none >>= λ is_null_2.
              if is_null_1 || is_null_2 then ok false else cmp_found p h cmp_type field none)
            ≡ fault bug_on
      first_null none below = refl
      first_null (some field) below =
          let (b, bit) = bit_at row.null_bitmap field.col_idx bitmap below in rw bit refl

  -- A NULL, in the column or as the value, makes a comparison of a column with a value false,
  -- whatever the operator.
  cmp_field_to_value-null :
      (cmp_type : ComparisonType) (field value : Exprval) (found : Field) (b : Bool)
      → find_field columns 0 row.cells (str_at field.bytes) ≡ some found
      → null_bit row (some found) ≡ ok b
      → (b || value.value_type.is_null) ≡ true
      → cmp_field_to_value p h columns row cmp_type field value ≡ ok false
  unfolding cmp_field_to_value
  cmp_field_to_value-null cmp_type field value found b at bit null = rw (at, bit, null) refl

  -- The comparison of an integer column that is not NULL with an integer.
  cmp_field_to_value-integer :
      (cmp_type : ComparisonType) (field value : Exprval) (idx : ℕ) (cell : Cell)
      → find_field columns 0 row.cells (str_at field.bytes)
        ≡ some (record { col_idx = idx; kind = integer; cell = cell })
      → bit_test row.null_bitmap idx bitmap_size ≡ ok false
      → value.value_type.is_null ≡ false
      → cmp_field_to_value p h columns row cmp_type field value
        ≡ ok (cmp_int_value_to_value cmp_type (int64_at cell.bytes) (int64_at value.bytes))
  unfolding cmp_field_to_value null_bit cmp_cell_to_value
  cmp_field_to_value-integer cmp_type field value idx cell at bit value_there =
      rw (at, bit, value_there) refl

  find_name-first :
      (val : Exprval) (vals : List Exprval)
      → val.value_type.is_name ≡ true
      → find_name (val ∷ vals) ≡ some val
  unfolding find_name
  find_name-first val vals name = if_true _ (some val) (find_name vals) name

  any_value-name :
      (cmp_type : ComparisonType) (field val : Exprval) (vals : List Exprval)
      → val.value_type.is_name ≡ true
      → any_value p h columns row cmp_type field (val ∷ vals)
        ≡ any_value p h columns row cmp_type field vals
  unfolding any_value
  any_value-name cmp_type field val vals name = if_true _ _ _ name

  any_value-value :
      (cmp_type : ComparisonType) (field val : Exprval) (vals : List Exprval) (b : Bool)
      → val.value_type.is_name ≡ false
      → cmp_field_to_value p h columns row cmp_type field val ≡ ok b
      → any_value p h columns row cmp_type field (val ∷ vals)
        ≡ (if b then ok true else any_value p h columns row cmp_type field vals)
  unfolding any_value
  any_value-value cmp_type field val vals b value cmp =
      if_false _ _ _ value
      ∙ ap
          (λ out. out >>= λ holds.
            if holds then ok true else any_value p h columns row cmp_type field vals)
          cmp

  -- Two values that differ: a third one differs from one of them.
  apart_lem :
      (a v w : ℕ) (rest : Outcome Bool)
      → v % 2 ^ 32 ≢ w % 2 ^ 32
      → (if cmp_int_value_to_value diff_op a v
          then ok true
          else if cmp_int_value_to_value diff_op a w
          then ok true
          else rest)
        ≡ ok true
  unfolding cmp_int_value_to_value
  apart_lem a v w rest apart = ground (arith, apart)

  -- NOT IN with two integers that differ in their low 32 bits: it holds of a row whose integer
  -- column is not NULL, whatever value the column has.
  pub eval_isxin-two_integers :
      (field val_1 val_2 : Exprval) (vals : List Exprval) (idx : ℕ) (cell : Cell)
      → field.value_type.is_name ≡ true
      → find_field columns 0 row.cells (str_at field.bytes)
        ≡ some (record { col_idx = idx; kind = integer; cell = cell })
      → bit_test row.null_bitmap idx bitmap_size ≡ ok false
      → val_1.value_type.is_name ≡ false
      → val_2.value_type.is_name ≡ false
      → val_1.value_type.is_null ≡ false
      → val_2.value_type.is_null ≡ false
      → int64_at val_1.bytes % 2 ^ 32 ≢ int64_at val_2.bytes % 2 ^ 32
      → eval_isxin p h columns row true (field ∷ val_1 ∷ val_2 ∷ vals) ≡ ok true
  unfolding eval_isxin
  eval_isxin-two_integers field val_1 val_2 vals idx cell name at bit value_1 value_2 there_1
        there_2 apart =
      ap
        (λ o. elim o [
          | none ↦ fault bug_on
          | some found ↦ any_value p h columns row diff_op found (field ∷ val_1 ∷ val_2 ∷ vals)
        ])
        (find_name-first field (val_1 ∷ val_2 ∷ vals) name)
      ∙ any_value-name diff_op field field (val_1 ∷ val_2 ∷ vals) name
      ∙ any_value-value diff_op field val_1 (val_2 ∷ vals) _ value_1
          (cmp_field_to_value-integer diff_op field val_1 idx cell at bit there_1)
      ∙ ap
          (λ out.
            if cmp_int_value_to_value diff_op (int64_at cell.bytes) (int64_at val_1.bytes)
            then ok true
            else out)
          (any_value-value diff_op field val_2 vals _ value_2
            (cmp_field_to_value-integer diff_op field val_2 idx cell at bit there_2))
      ∙ apart_lem (int64_at cell.bytes) (int64_at val_1.bytes) (int64_at val_2.bytes) _ apart
