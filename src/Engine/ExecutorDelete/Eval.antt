-- ===== src/Engine/ExecutorDelete/Eval.antt =====
-- The conditions of a DELETE on a row: `eval_delete_row` and its callees in
-- src/engine/executor_delete.c, on the nodes of include/parser/ast.h.
use midori_db.Prelude.{
  Bool, true, false, ◌&&◌, ◌||◌, not, List, [], ◌∷◌, Option, none, some, if◌then◌else◌, Outcome, ok,
  fault, bug_on, segfault, ◌>>=◌,
}
use midori_db.Heap.{Heap}
use midori_db.Primitive.Column.{Column}
use midori_db.Primitive.Row.{Row}
use midori_db.Engine.ExecutorDelete.Compare.{
  ComparisonType, equals_op, diff_op, Platform, str_at, bool_eq,
}
use midori_db.Engine.ExecutorDelete.Fields.{
  Exprval, find_field, null_bit, cmp_field_to_field, cmp_field_to_value, cmp_value_to_value,
}

-- enum ast_logop_type
pub data LogopType : Type 0 where
  logop_and logop_or logop_xor : LogopType

-- The nodes of a condition. The children of the first three are values.
mutual
  pub data DelNode : Type 0 where
    del_cmp : ComparisonType → List Exprval → DelNode
    del_isxnull : Bool → List Exprval → DelNode
    del_isxin : Bool → List Exprval → DelNode
    del_logop : LogopType → DelNodes → DelNode
    del_deleteone : DelNodes → DelNode
    del_exprval : Exprval → DelNode

  pub data DelNodes : Type 0 where
    no_nodes : DelNodes
    node_then : DelNode → DelNodes → DelNodes

-- The first child is one operand, the last of the others the other one.
abbrev pub last_val : Exprval → List Exprval → Exprval
last_val val [] = val
last_val val (next ∷ rest) = last_val next rest

-- The branches of `eval_cmp`. A column is made the first operand, whatever the comparison.
unfoldable pub cmp_operands :
    Platform → Heap → List Column → Row → ComparisonType → Exprval → Exprval → Outcome Bool
unfolding cmp_field_to_field cmp_field_to_value cmp_value_to_value
cmp_operands p h columns row cmp_type val_1 val_2 =
    if val_1.value_type.is_name
    then (if val_2.value_type.is_name
        then cmp_field_to_field p h columns row cmp_type val_1 val_2
        else cmp_field_to_value p h columns row cmp_type val_1 val_2)
    else if val_2.value_type.is_name
    then cmp_field_to_value p h columns row cmp_type val_2 val_1
    else cmp_value_to_value p cmp_type val_1 val_2

unfoldable pub eval_cmp :
    Platform → Heap → List Column → Row → ComparisonType → List Exprval → Outcome Bool
unfolding cmp_operands
eval_cmp p h columns row cmp_type (val_1 ∷ val ∷ vals) =
    cmp_operands p h columns row cmp_type val_1 (last_val val vals)
eval_cmp p h columns row cmp_type _ = fault segfault

unfoldable pub eval_isxnull : List Column → Row → Bool → List Exprval → Outcome Bool
unfolding null_bit find_field str_at
eval_isxnull columns row is_negation [] = fault bug_on
eval_isxnull columns row is_negation (val ∷ vals) = do
  let field = last_val val vals
  bit ← null_bit row (find_field columns 0 row.cells (str_at field.bytes))
  ok (not (bool_eq bit is_negation))

-- The first value that is a name.
unfoldable pub find_name : List Exprval → Option Exprval
find_name [] = none
find_name (val ∷ vals) =
    let rest = find_name vals in if val.value_type.is_name then some val else rest

-- The loop of `eval_isxin` over the values that are no names: it stops at the first that compares.
unfoldable pub any_value :
    Platform → Heap → List Column → Row → ComparisonType → Exprval → List Exprval → Outcome Bool
unfolding cmp_field_to_value
any_value p h columns row cmp_type field [] = ok false
any_value p h columns row cmp_type field (val ∷ vals) =
    let rest = any_value p h columns row cmp_type field vals in
    if val.value_type.is_name then rest else do
      holds ← cmp_field_to_value p h columns row cmp_type field val
      if holds then ok true else rest

unfoldable pub eval_isxin : Platform → Heap → List Column → Row → Bool → List Exprval → Outcome Bool
unfolding find_name any_value
eval_isxin p h columns row is_negation vals = elim (find_name vals) [
  | none ↦ fault bug_on
  | some field ↦ any_value p h columns row (if is_negation then diff_op else equals_op) field vals
]

-- What a logical operator makes of the result so far and that of the next child.
unfoldable pub gate : LogopType → Bool → Bool → Bool
gate logop_and ret eval = ret && eval
gate logop_or ret eval = ret || eval
gate logop_xor ret eval = not (bool_eq ret eval)

-- The child of a DELETE is evaluated only if those before it hold.
unfoldable mutual
  unfolding eval_cmp eval_isxnull eval_isxin gate

  pub eval_delete_row : Platform → Heap → List Column → Row → DelNode → Outcome Bool
  eval_delete_row p h columns row (del_cmp cmp_type vals) = eval_cmp p h columns row cmp_type vals
  eval_delete_row p h columns row (del_isxnull is_negation vals) =
      eval_isxnull columns row is_negation vals
  eval_delete_row p h columns row (del_isxin is_negation vals) =
      eval_isxin p h columns row is_negation vals
  eval_delete_row p h columns row (del_logop logop_type nodes) =
      eval_gate p h columns row logop_type none nodes
  eval_delete_row p h columns row (del_deleteone nodes) = eval_all p h columns row true nodes
  eval_delete_row p h columns row (del_exprval val) = fault bug_on

  -- The loop over the children of an operator, with the result so far: none before the first.
  pub eval_gate :
      Platform → Heap → List Column → Row → LogopType → Option Bool → DelNodes → Outcome Bool
  eval_gate p h columns row logop_type none no_nodes = ok true
  eval_gate p h columns row logop_type (some ret) no_nodes = ok ret
  eval_gate p h columns row logop_type none (node_then node nodes) = do
    eval ← eval_delete_row p h columns row node
    eval_gate p h columns row logop_type (some eval) nodes
  eval_gate p h columns row logop_type (some ret) (node_then node nodes) = do
    eval ← eval_delete_row p h columns row node
    eval_gate p h columns row logop_type (some (gate logop_type ret eval)) nodes

  -- The loop over the children of the statement.
  pub eval_all : Platform → Heap → List Column → Row → Bool → DelNodes → Outcome Bool
  eval_all p h columns row ret no_nodes = ok ret
  eval_all p h columns row true (node_then node nodes) = do
    eval ← eval_delete_row p h columns row node
    eval_all p h columns row eval nodes
  eval_all p h columns row false (node_then node nodes) = eval_all p h columns row false nodes
