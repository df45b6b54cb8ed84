-- ===== src/Engine/OptimiserInsert.antt =====
-- src/engine/optimiser_insert.c: the arithmetic of the values of an INSERT is done before it runs.
--
-- The union of a value is the pattern of its 64 bits. The operations on doubles are a parameter: they
-- are those of the machine, on patterns.
pub mod Laws
use midori_db.Prelude.{
  ℕ, zero, suc, ◌+◌, ◌-◌, ◌*◌, ◌/◌, ◌%◌, ◌^◌, Bool, true, false, ◌&&◌, ◌||◌, List, [], ◌∷◌, ltb,
  leb, ◌==◌, if◌then◌else◌, Outcome, ok, fault, trap, bug_on, ◌>>=◌,
}

-- The flags of `value_type`.
pub record ValueType : Type 0 where
  pub is_intnum : Bool
  pub is_str : Bool
  pub is_approxnum : Bool
  pub is_bool : Bool
  pub is_null : Bool
  pub is_negation : Bool

-- `struct ast_ins_exprval_node`
pub record ExprVal : Type 0 where
  pub value_type : ValueType
  pub bits : ℕ

-- enum ast_ins_expr_op_type
pub data OpType : Type 0 where
  op_add op_sub op_mul op_div op_mod : OpType

-- An expression: the two children of an operation, in the order of its list.
pub data Expr : Type 0 where
  exprval : ExprVal → Expr
  exprop : OpType → Expr → Expr → Expr

-- What the machine does to doubles, and to the `int`s that they are cast to.
pub record Doubles : Type 0 where
  pub add : ℕ → ℕ → ℕ
  pub sub : ℕ → ℕ → ℕ
  pub mul : ℕ → ℕ → ℕ
  pub div : ℕ → ℕ → ℕ
  pub is_zero : ℕ → Bool
  pub of_int : ℕ → ℕ
  pub to_int : ℕ → ℕ
  pub zero_bits : ℕ
  pub minus : ℕ → ℕ

-- Two's complement of `w` bits.
abbrev pub is_negative : ℕ → ℕ → Bool
is_negative w a = leb (2 ^ (w - 1)) a

abbrev pub minus : ℕ → ℕ → ℕ
minus w a = (2 ^ w - a) % 2 ^ w

abbrev pub magnitude : ℕ → ℕ → ℕ
magnitude w a = if is_negative w a then minus w a else a

abbrev pub signed : ℕ → Bool → ℕ → ℕ
signed w negative a = if negative then minus w a else a % 2 ^ w

abbrev pub differ : Bool → Bool → Bool
differ true b = if b then false else true
differ false b = b

-- The processor refuses a division by 0, and that of the least number by -1.
unfoldable pub signed_div : ℕ → ℕ → ℕ → Outcome ℕ
signed_div w a b =
    if b == 0 || (a == 2 ^ (w - 1) && b == 2 ^ w - 1)
    then fault trap
    else ok (signed w (differ (is_negative w a) (is_negative w b)) (magnitude w a / magnitude w b))

unfoldable pub signed_mod : ℕ → ℕ → ℕ → Outcome ℕ
signed_mod w a b =
    if b == 0 || (a == 2 ^ (w - 1) && b == 2 ^ w - 1)
    then fault trap
    else ok (signed w (is_negative w a) (magnitude w a % magnitude w b))

-- The `int` that a number of 64 bits is cut to, as a number of 64 bits again.
unfoldable pub int_of : ℕ → ℕ
int_of a = let low = a % 2 ^ 32 in if is_negative 32 low then 2 ^ 64 - 2 ^ 32 + low else low

-- The value that a NULL operand or a division by 0 leaves, where `flags` has no longer its type.
abbrev pub nulled : ValueType → ValueType
nulled flags = record flags { is_null = true }

unfoldable pub calci : OpType → ExprVal → ExprVal → Outcome ExprVal
calci op val_1 val_2 =
    if val_1.value_type.is_null || val_2.value_type.is_null then ok null_out else calc op
  where
    null_out : ExprVal
    null_out = record {
      value_type = nulled (record (val_1.value_type) { is_intnum = false });
      bits = 0;
    }

    out : ℕ → ExprVal
    out result = record val_1 { bits = int_of result }

    calc : OpType → Outcome ExprVal
    calc op_add = ok (out ((val_2.bits + val_1.bits) % 2 ^ 64))
    calc op_sub = ok (out ((val_2.bits + minus 64 val_1.bits) % 2 ^ 64))
    calc op_mul = ok (out (val_2.bits * val_1.bits % 2 ^ 64))
    calc op_div =
        if val_1.bits == 0
        then ok null_out
        else (signed_div 64 val_2.bits val_1.bits >>= λ result. ok (out result))
    calc op_mod = signed_mod 64 val_2.bits val_1.bits >>= λ result. ok (out result)

unfoldable pub calcd : Doubles → OpType → ExprVal → ExprVal → Outcome ExprVal
calcd d op val_1 val_2 =
    if val_1.value_type.is_null || val_2.value_type.is_null then ok null_out else calc op
  where
    null_out : ExprVal
    null_out = record {
      value_type = nulled (record (val_1.value_type) { is_approxnum = false });
      bits = d.zero_bits;
    }

    out : ℕ → ExprVal
    out result = record val_1 { bits = result }

    calc : OpType → Outcome ExprVal
    calc op_add = ok (out (d.add val_2.bits val_1.bits))
    calc op_sub = ok (out (d.sub val_2.bits val_1.bits))
    calc op_mul = ok (out (d.mul val_2.bits val_1.bits))
    calc op_div =
        if d.is_zero val_1.bits then ok null_out else ok (out (d.div val_2.bits val_1.bits))
    calc op_mod = signed_mod 32 (d.to_int val_2.bits) (d.to_int val_1.bits) >>= λ result.
        ok (out (d.of_int result))

-- `negate(in, out)`
unfoldable pub negate : Doubles → ExprVal → Outcome ExprVal
negate d val =
    if val.value_type.is_intnum
    then ok (record val { bits = minus 64 val.bits })
    else if val.value_type.is_approxnum
    then ok (record val { bits = d.minus val.bits })
    else fault bug_on

-- The operation of a node, on the values of its children.
unfoldable pub calculate : Doubles → OpType → ExprVal → ExprVal → Outcome ExprVal
calculate d op val_1 val_2 =
    if val_1.value_type.is_negation
    then negate d val_2
    else if val_1.value_type.is_intnum
    then calci op val_1 val_2
    else if val_1.value_type.is_approxnum
    then calcd d op val_1 val_2
    else fault bug_on

unfoldable pub resolve_math_expr : Doubles → Expr → Outcome ExprVal
unfolding calculate
resolve_math_expr d (exprval val) = ok val
resolve_math_expr d (exprop op expr_1 expr_2) = resolve_math_expr d expr_1 >>= λ val_1.
    resolve_math_expr d expr_2 >>= λ val_2. calculate d op val_1 val_2

-- The values of one VALUES list, and the lists of the statement.
unfoldable pub optimise_values : Doubles → List Expr → Outcome (List ExprVal)
unfolding resolve_math_expr
optimise_values d [] = ok []
optimise_values d (expr ∷ exprs) =
    resolve_math_expr d expr >>= λ val. optimise_values d exprs >>= λ vals. ok (val ∷ vals)

unfoldable pub optimise_math_expr : Doubles → List (List Expr) → Outcome (List (List ExprVal))
unfolding optimise_values
optimise_math_expr d [] = ok []
optimise_math_expr d (values ∷ rows) =
    optimise_values d values >>= λ vals. optimise_math_expr d rows >>= λ rest. ok (vals ∷ rest)
