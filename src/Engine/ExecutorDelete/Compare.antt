-- ===== src/Engine/ExecutorDelete/Compare.antt =====
-- The comparisons of two values in src/engine/executor_delete.c: `cmp_*_value_to_value`.
--
-- Numbers are patterns of 64 bits.
use midori_db.Prelude.{
  ℕ, ◌+◌, ◌-◌, ◌%◌, ◌^◌, Bool, true, false, not, List, [], ◌∷◌, take, ltb, ◌==◌, if◌then◌else◌,
  Outcome, ok, fault, segfault, ◌>>=◌,
}
use midori_db.Datastructure.Words.{of_bytes}
use midori_db.Primitive.Column.{ColumnType, date}
use midori_db.Primitive.Name.{str_eq}

-- enum ast_comparison_type
pub data ComparisonType : Type 0 where
  equals_op gte_op gt_op lte_op lt_op diff_op : ComparisonType

-- The comparisons of doubles, and what `mktime` makes of the fields that `strptime` reads of a string
-- by a format.
pub record Platform : Type 0 where
  pub double_eq : ℕ → ℕ → Bool
  pub double_lt : ℕ → ℕ → Bool
  pub double_le : ℕ → ℕ → Bool
  pub parse_time : List ℕ → List ℕ → ℕ

-- COLUMN_CTDATE_FMT and COLUMN_CTDATETIME_FMT
abbrev pub date_fmt : List ℕ
date_fmt = b'%' ∷ b'Y' ∷ b'-' ∷ b'%' ∷ b'm' ∷ b'-' ∷ b'%' ∷ b'd' ∷ []

abbrev pub datetime_fmt : List ℕ
datetime_fmt =
    b'%' ∷ b'Y' ∷ b'-' ∷ b'%' ∷ b'm' ∷ b'-' ∷ b'%' ∷ b'd' ∷ b' ' ∷ b'%' ∷ b'H' ∷ b':' ∷ b'%' ∷ b'M'
    ∷ b':' ∷ b'%' ∷ b'S' ∷ []

unfoldable pub parse_date_type : Platform → List ℕ → ColumnType → ℕ
parse_date_type p str date = p.parse_time str date_fmt
parse_date_type p str _ = p.parse_time str datetime_fmt

unfoldable pub cmp_double_value_to_value : Platform → ComparisonType → ℕ → ℕ → Bool
cmp_double_value_to_value p diff_op val_1 val_2 = not (p.double_eq val_1 val_2)
cmp_double_value_to_value p equals_op val_1 val_2 = p.double_eq val_1 val_2
cmp_double_value_to_value p gte_op val_1 val_2 = p.double_le val_2 val_1
cmp_double_value_to_value p gt_op val_1 val_2 = p.double_lt val_2 val_1
cmp_double_value_to_value p lte_op val_1 val_2 = p.double_le val_1 val_2
cmp_double_value_to_value p lt_op val_1 val_2 = p.double_lt val_1 val_2

-- `a < b` for two's complement of `w` bits.
abbrev pub signed_lt : ℕ → ℕ → ℕ → Bool
signed_lt w a b = ltb ((a + 2 ^ (w - 1)) % 2 ^ w) ((b + 2 ^ (w - 1)) % 2 ^ w)

-- The comparison of two patterns of `w` bits.
abbrev pub cmp_signed : ℕ → ComparisonType → ℕ → ℕ → Bool
cmp_signed w diff_op val_1 val_2 = not (val_1 == val_2)
cmp_signed w equals_op val_1 val_2 = val_1 == val_2
cmp_signed w gte_op val_1 val_2 = not (signed_lt w val_1 val_2)
cmp_signed w gt_op val_1 val_2 = signed_lt w val_2 val_1
cmp_signed w lte_op val_1 val_2 = not (signed_lt w val_2 val_1)
cmp_signed w lt_op val_1 val_2 = signed_lt w val_1 val_2

-- The arguments are `int`s: those of 64 bits are cut to 32.
unfoldable pub cmp_int_value_to_value : ComparisonType → ℕ → ℕ → Bool
cmp_int_value_to_value cmp_type val_1 val_2 =
    cmp_signed 32 cmp_type (val_1 % 2 ^ 32) (val_2 % 2 ^ 32)

-- A `time_t` has 64 bits.
unfoldable pub cmp_time_value_to_value : ComparisonType → ℕ → ℕ → Bool
cmp_time_value_to_value cmp_type val_1 val_2 = cmp_signed 64 cmp_type val_1 val_2

abbrev pub bool_eq : Bool → Bool → Bool
bool_eq true b = b
bool_eq false b = not b

unfoldable pub cmp_bool_value_to_value : ComparisonType → Bool → Bool → Bool
cmp_bool_value_to_value diff_op val_1 val_2 = not (bool_eq val_1 val_2)
cmp_bool_value_to_value equals_op val_1 val_2 = bool_eq val_1 val_2
cmp_bool_value_to_value _ val_1 val_2 = false

unfoldable pub cmp_str_value_to_value : ComparisonType → List ℕ → List ℕ → Bool
unfolding str_eq
cmp_str_value_to_value diff_op val_1 val_2 = not (str_eq val_1 val_2)
cmp_str_value_to_value equals_op val_1 val_2 = str_eq val_1 val_2
cmp_str_value_to_value _ val_1 val_2 = false

-- `*(int64_t*)`, `*(bool*)` and the string at some bytes. Bytes that are missing are zero.
unfoldable pub int64_at : List ℕ → ℕ
unfolding of_bytes
int64_at bytes = of_bytes (take 8 bytes)

unfoldable pub bool_at : List ℕ → Bool
unfolding of_bytes
bool_at bytes = not (of_bytes (take 1 bytes) == 0)

unfoldable pub str_at : List ℕ → List ℕ
str_at [] = []
str_at (b ∷ bytes) = let rest = str_at bytes in if b == 0 then [] else b ∷ rest

-- The string in a text of the heap: without a NUL in it, the reader goes behind its end.
unfoldable pub str_in : List ℕ → Outcome (List ℕ)
str_in [] = fault segfault
str_in (b ∷ bytes) =
    let rest = str_in bytes in if b == 0 then ok [] else (rest >>= λ str. ok (b ∷ str))
