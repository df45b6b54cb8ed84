-- ===== src/Engine/ExecutorInsert/Start.antt =====
-- Where `build_row` of src/engine/executor_insert.c starts: a bitmap with all the bits of the columns,
-- and the natural order of the columns.
use midori_db.Prelude.{
  ℕ, zero, suc, ◌+◌, ◌^◌, ◌/◌, ◌%◌, ◌<◌, ◌≤◌, ◌≡◌, refl, sym, ap, ◌∙◌, Bool, true, false, List, [],
  ◌∷◌, length, length-set, replicate, get_elem?, get_elem?-some, get_elem?-set_self,
  get_elem?-set_ne, set, All-get, All-replicate, none, some, ◌==◌, Bool-cases, inl, inr, if_true,
  if_false, ok, fault, segfault, ◌>>=◌, Returns, arith,
}
use native.Mathlib.Nat.{zero-div}
use midori_db.Bit.Laws.{bit_of, bit_test_lem, AreBytes}
use midori_db.Bit.Bitmap.{IsBitmap, bit_set-IsBitmap}
use midori_db.Primitive.Column.{Column}
use midori_db.Engine.ExecutorInsert.BuildRow.{ColumnOrder, column_at, set_nulls}
use midori_db.Engine.ExecutorInsert.Run.{natural_order}

-- A bitmap of zero bytes.
pub no_bits : IsBitmap (replicate 16 0) (λ _. false)
no_bits = record {
  bytes = bytes 16;
  size = refl;
  tests = λ i lt.
      let (b, at) = get_elem?-some (replicate 16 0) (i / 8) (omega arith) in
      let is_zero : b ≡ 0 =
        All-get (λ b. b ≡ 0) (replicate 16 0) (i / 8) (All-replicate (λ b. b ≡ 0) 16 0 refl) at in
      bit_test_lem (replicate 16 0) i 16 b (omega arith) at
      ∙ ap (λ b. ok (bit_of b (i % 8))) is_zero
      ∙ ap (λ q. ok (q % 2 == 1)) (zero-div (2 ^ (i % 8)));
}
  where
    bytes : (n : ℕ) → AreBytes (replicate n 0)
    bytes zero = tt
    bytes (suc n) = (omega arith, bytes n)

-- The bitmap after the loop: the bits of the columns are set.
pub record Nulls (columns : List Column) (i : ℕ) (bits : ℕ → Bool) (out : List ℕ) : Type 0 where
  pub bits_now : ℕ → Bool
  pub bitmap : IsBitmap out bits_now
  pub kept : (j : ℕ) → bits j ≡ true → bits_now j ≡ true
  pub null : (j : ℕ) → i ≤ j → j < i + length columns → bits_now j ≡ true

pub set_nulls-Nulls :
    (columns : List Column) (i : ℕ) (bm : List ℕ) (bits : ℕ → Bool)
    → IsBitmap bm bits
    → i + length columns ≤ 128
    → Returns (set_nulls columns i bm) (Nulls columns i bits)
unfolding set_nulls
set_nulls-Nulls [] i bm bits is few = (
  bm,
  refl,
  record { bits_now = bits; bitmap = is; kept = λ j e. e; null = λ j le lt. absurd (omega arith) },
)
set_nulls-Nulls (column ∷ columns) i bm bits is few =
    let (bm', run, is') = bit_set-IsBitmap bm bits is i (omega (arith, few)) in
    let (out, runs, nulls) = set_nulls-Nulls columns (i + 1) bm' _ is' (omega (arith, few)) in
    (
      out,
      rw run runs,
      record {
        bits_now = nulls.bits_now;
        bitmap = nulls.bitmap;
        kept = λ j e. nulls.kept j (elim (Bool-cases (j == i)) [
          | inl at ↦ if_true (j == i) _ _ at
          | inr off ↦ if_false (j == i) _ _ off ∙ e
        ]);
        null = λ j le lt. elim (Bool-cases (j == i)) [
          | inl at ↦ nulls.kept j (if_true (j == i) _ _ at)
          | inr off ↦ nulls.null j (ground (arith, off)) (omega arith)
        ];
      },
    )

-- The natural order.
natural-kept :
    (columns : List Column) (i k : ℕ) (column_order : ColumnOrder)
    → k < i
    → get_elem? (natural_order i columns column_order) k ≡ get_elem? column_order k
unfolding natural_order
natural-kept [] i k column_order lt = refl
natural-kept (column ∷ columns) i k column_order lt =
    natural-kept columns (i + 1) k (set column_order i (some i)) (omega arith)
    ∙ get_elem?-set_ne column_order (some i) (λ e. absurd (omega (arith, e)))

natural-found :
    (columns : List Column) (i k : ℕ) (column_order : ColumnOrder)
    → i ≤ k
    → k < i + length columns
    → i + length columns ≤ length column_order
    → get_elem? (natural_order i columns column_order) k ≡ some (some k)
unfolding natural_order
natural-found [] i k column_order le lt few = absurd (omega arith)
natural-found (column ∷ columns) i k column_order le lt few = elim (Bool-cases (k == i)) [
  | inl at ↦
      let same : k ≡ i = ground (arith, at) in
      ap (λ k. get_elem? (natural_order (i + 1) columns (set column_order i (some i))) k) same
      ∙ natural-kept columns (i + 1) i (set column_order i (some i)) (omega arith)
      ∙ get_elem?-set_self column_order i (some i) (omega arith)
      ∙ ap (λ k. some (some k)) (sym same)
  | inr off ↦
      natural-found columns (i + 1) k (set column_order i (some i)) (ground (arith, off))
        (omega arith) (omega (arith, length-set column_order i (some i)))
]

pub natural_order-column_at :
    (columns : List Column) (k : ℕ)
    → length columns ≤ 128
    → k < length columns
    → column_at (natural_order 0 columns (replicate 128 none)) k ≡ ok k
unfolding column_at
natural_order-column_at columns k few lt =
    ap
      (λ o. elim o [ none ↦ fault segfault | some x ↦ ok x ] >>= λ i. elim i [
        | none ↦ fault segfault
        | some idx ↦ ok idx
      ])
      (natural-found columns 0 k (replicate 128 none) (omega arith) (omega arith) (omega arith))
