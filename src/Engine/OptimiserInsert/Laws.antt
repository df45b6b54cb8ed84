-- ===== src/Engine/OptimiserInsert/Laws.antt =====
-- What the arithmetic of an INSERT computes of integers.
use midori_db.Prelude.{
  ℕ, ◌+◌, ◌-◌, ◌*◌, ◌/◌, ◌%◌, ◌^◌, ◌<◌, ◌≤◌, ◌≡◌, refl, sym, ap, ◌∙◌, Bool, true, false, ◌&&◌, ◌||◌,
  leb, ◌==◌, if◌then◌else◌, Outcome, ok, Returns, arith,
}
use mathlib.Core.Path.{subst}
use midori_db.Engine.OptimiserInsert.{
  ExprVal, OpType, op_add, op_sub, op_mul, op_div, op_mod, Expr, exprval, exprop, Doubles, minus,
  signed_div, signed_mod, int_of, calci, calculate, resolve_math_expr,
}

-- An integer that is not NULL and no sign.
pub record IsInt (val : ExprVal) : Type 0 where
  pub intnum : val.value_type.is_intnum ≡ true
  pub not_null : val.value_type.is_null ≡ false
  pub no_sign : val.value_type.is_negation ≡ false

-- The second child is the left operand.
abbrev pub result_of : OpType → ℕ → ℕ → ℕ
result_of op_add b a = a + b
result_of op_sub b a = a - b
result_of op_mul b a = a * b
result_of op_div b a = a / b
result_of op_mod b a = a % b

-- The result is no negative number, and there is one.
abbrev pub Defined : OpType → ℕ → ℕ → Type 0
Defined op_add b a = Unit
Defined op_sub b a = b ≤ a
Defined op_mul b a = Unit
Defined op_div b a = 0 < b
Defined op_mod b a = 0 < b

abbrev pub Small : ℕ → Type 0
Small n = n < 2 ^ 31

-- The value of an expression.
abbrev pub eval : Expr → ℕ
eval (exprval val) = val.bits
eval (exprop op expr_1 expr_2) = result_of op (eval expr_1) (eval expr_2)

-- An expression of integers in which every value is below 2 ^ 31 and every result is defined.
abbrev pub IsSmall : Expr → Type 0
IsSmall (exprval val) = IsInt val × Small val.bits
IsSmall (exprop op expr_1 expr_2) =
    IsSmall expr_1
    × IsSmall expr_2
    × Defined op (eval expr_1) (eval expr_2)
    × Small (result_of op (eval expr_1) (eval expr_2))

int_of-Small : (n : ℕ) → Small n → int_of n ≡ n
unfolding int_of
int_of-Small n h = ground arith

int_of-wrapped : (n m : ℕ) → n % 2 ^ 64 ≡ m → Small m → int_of (n % 2 ^ 64) ≡ m
int_of-wrapped n m e h = ap int_of e ∙ int_of-Small m h

signed_div-Small :
    (a b : ℕ) → Small a → Small b → 0 < b → Small (a / b) → signed_div 64 a b ≡ ok (a / b)
unfolding signed_div
signed_div-Small a b ha hb pos h =
    let allowed : (b == 0 || (a == 2 ^ 63 && b == 2 ^ 64 - 1)) ≡ false = ground arith in
    let plus_a : leb (2 ^ 63) a ≡ false = ground arith in
    let plus_b : leb (2 ^ 63) b ≡ false = ground arith in
    let wide : a / b % 2 ^ 64 ≡ a / b = omega arith in rw (allowed, plus_a, plus_b, wide)

signed_mod-Small :
    (a b : ℕ) → Small a → Small b → 0 < b → Small (a % b) → signed_mod 64 a b ≡ ok (a % b)
unfolding signed_mod
signed_mod-Small a b ha hb pos h =
    let allowed : (b == 0 || (a == 2 ^ 63 && b == 2 ^ 64 - 1)) ≡ false = ground arith in
    let plus_a : leb (2 ^ 63) a ≡ false = ground arith in
    let plus_b : leb (2 ^ 63) b ≡ false = ground arith in
    let wide : a % b % 2 ^ 64 ≡ a % b = omega arith in rw (allowed, plus_a, plus_b, wide)

Small-eval : (expr : Expr) → IsSmall expr → Small (eval expr)
Small-eval (exprval val) h = h.1
Small-eval (exprop op expr_1 expr_2) h = h.3

choose :
    (sign int : Bool) (a b c : Outcome ExprVal)
    → sign ≡ false
    → int ≡ true
    → (if sign then a else if int then b else c) ≡ b
choose sign int a b c s i = rw (s, i)

module _ (val_1 val_2 : ExprVal) (int_1 : IsInt val_1) (int_2 : IsInt val_2)
    (small_1 : Small val_1.bits) (small_2 : Small val_2.bits) where
  no_null : (val_1.value_type.is_null || val_2.value_type.is_null) ≡ false
  no_null = ground (arith, int_1.not_null, int_2.not_null)

  calci-Small :
      (op : OpType)
      → Defined op val_1.bits val_2.bits
      → Small (result_of op val_1.bits val_2.bits)
      → calci op val_1 val_2 ≡ ok (record val_1 { bits = result_of op val_1.bits val_2.bits })
  unfolding calci
  calci-Small op_add d s = rw no_null (
      ap (λ n. ok (record val_1 { bits = n }))
        (int_of-wrapped (val_2.bits + val_1.bits) (val_2.bits + val_1.bits) (omega arith) s))
  calci-Small op_sub d s = rw no_null (
      ap (λ n. ok (record val_1 { bits = n }))
        (int_of-wrapped (val_2.bits + minus 64 val_1.bits) (val_2.bits - val_1.bits) (omega arith)
          s))
  calci-Small op_mul d s = rw no_null (
      ap (λ n. ok (record val_1 { bits = n }))
        (int_of-wrapped (val_2.bits * val_1.bits) (val_2.bits * val_1.bits) (omega arith) s))
  calci-Small op_div d s =
      let not_zero : (val_1.bits == 0) ≡ false = ground arith in
      rw (no_null, not_zero, signed_div-Small val_2.bits val_1.bits small_2 small_1 d s)
        (ap (λ n. ok (record val_1 { bits = n })) (int_of-Small (val_2.bits / val_1.bits) s))
  calci-Small op_mod d s =
      rw (no_null, signed_mod-Small val_2.bits val_1.bits small_2 small_1 d s)
        (ap (λ n. ok (record val_1 { bits = n })) (int_of-Small (val_2.bits % val_1.bits) s))

  calculate-Small :
      (d : Doubles) (op : OpType)
      → Defined op val_1.bits val_2.bits
      → Small (result_of op val_1.bits val_2.bits)
      → calculate d op val_1 val_2 ≡ ok (record val_1 { bits = result_of op val_1.bits val_2.bits })
  unfolding calculate
  calculate-Small d op defined small =
      choose val_1.value_type.is_negation val_1.value_type.is_intnum _ _ _ int_1.no_sign
        int_1.intnum
      ∙ calci-Small op defined small

-- What a resolved value is.
abbrev pub Resolved : Expr → ExprVal → Type 0
Resolved expr val = IsInt val × (val.bits ≡ eval expr)

both :
    (d : Doubles) (op : OpType) (expr_1 expr_2 : Expr) (val_1 val_2 : ExprVal)
    → Resolved expr_1 val_1
    → Resolved expr_2 val_2
    → IsSmall (exprop op expr_1 expr_2)
    → Returns (calculate d op val_1 val_2) (Resolved (exprop op expr_1 expr_2))
both d op expr_1 expr_2 val_1 val_2 r_1 r_2 h =
    let same =
      ap (λ n. result_of op n val_2.bits) r_1.1 ∙ ap (λ n. result_of op (eval expr_1) n) r_2.1 in
    let small_1 = subst Small (sym r_1.1) (Small-eval expr_1 h.0) in
    let small_2 = subst Small (sym r_2.1) (Small-eval expr_2 h.1) in
    let defined =
      subst (λ n. Defined op n val_2.bits) (sym r_1.1)
        (subst (Defined op (eval expr_1)) (sym r_2.1) h.2) in
    (
      record val_1 { bits = result_of op val_1.bits val_2.bits },
      calculate-Small val_1 val_2 r_1.0 r_2.0 small_1 small_2 d op defined
          (subst Small (sym same) h.3),
      (record { intnum = r_1.0.intnum; not_null = r_1.0.not_null; no_sign = r_1.0.no_sign }, same),
    )

-- An expression of integers in which every value is below 2 ^ 31, no difference is negative and no
-- divisor is 0, is resolved to an integer that is its value, the second child of an operation being
-- its left operand.
pub resolve_math_expr-Resolved :
    (d : Doubles) (expr : Expr) → IsSmall expr → Returns (resolve_math_expr d expr) (Resolved expr)
unfolding resolve_math_expr
resolve_math_expr-Resolved d (exprval val) h = (val, refl, (h.0, refl))
resolve_math_expr-Resolved d (exprop op expr_1 expr_2) h =
    let (val_1, run_1, r_1) = resolve_math_expr-Resolved d expr_1 h.0 in
    let (val_2, run_2, r_2) = resolve_math_expr-Resolved d expr_2 h.1 in
    let (val, run, r) = both d op expr_1 expr_2 val_1 val_2 r_1 r_2 h in
    (val, rw run_1 (rw run_2 run), r)
