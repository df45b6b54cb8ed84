-- ===== src/Primitive/Name.antt =====
-- Names of tables and columns: `__valid_name` of src/primitive/table.c and column.c. A C string is
-- the list of its bytes before the NUL.
pub mod Laws
use midori_db.Prelude.{
  ℕ, zero, suc, ◌+◌, Bool, true, false, ◌&&◌, ◌||◌, not, List, [], ◌∷◌, length, take, ltb, leb,
  ◌==◌, if◌then◌else◌,
}

-- TABLE_MAX_NAME and TABLE_MAX_COLUMN_NAME
abbrev pub table_max_name : ℕ
table_max_name = 127

abbrev pub table_max_column_name : ℕ
table_max_column_name = 127

-- The test of the character at position `i`.
unfoldable pub valid_char : ℕ → ℕ → Bool
valid_char i c =
    (leb b'a' c && leb c b'z')
    || ((leb b'A' c && leb c b'Z')
        || ((leb b'0' c && (leb c b'9' && not (i == 0))) || (c == b'_' && not (i == 0))))

-- The loop from position `i` on.
unfoldable pub valid_chars : ℕ → List ℕ → Bool
unfolding valid_char
valid_chars i [] = true
valid_chars i (c ∷ cs) = let rest = valid_chars (i + 1) cs in if valid_char i c then rest else false

unfoldable pub valid_name : List ℕ → ℕ → Bool
unfolding valid_chars
valid_name name max_size =
    let arg_len = length name in
    if arg_len == 0 || ltb max_size arg_len then false else valid_chars 0 name

unfoldable pub table_validate_name : List ℕ → Bool
unfolding valid_name
table_validate_name name = valid_name name table_max_name

unfoldable pub table_validate_column_name : List ℕ → Bool
unfolding valid_name
table_validate_column_name name = valid_name name table_max_column_name

-- `strcmp(a, b) == 0`
unfoldable pub str_eq : List ℕ → List ℕ → Bool
str_eq [] [] = true
str_eq (a ∷ as') (b ∷ bs) = a == b && str_eq as' bs
str_eq _ _ = false

-- `strncmp(a, b, n) == 0`
unfoldable pub strn_eq : ℕ → List ℕ → List ℕ → Bool
unfolding str_eq
strn_eq n a b = str_eq (take n a) (take n b)
