-- ===== src/Parser/SemanticCreate/Accepts.antt =====
-- Which statements src/parser/semantic_create.c is to accept, and the keys of their names.
use midori_db.Prelude.{ℕ, ◌≡◌, refl, Bool, true, false, ◌&&◌, ◌||◌, not, List, [], ◌∷◌, ◌==◌, arith}
use midori_db.Primitive.Name.{str_eq, table_validate_name, table_validate_column_name}
use midori_db.Datastructure.Hashtable.Strings.{is_key}
use midori_db.Datastructure.Hashtable.StringSet.{member}
use midori_db.Parser.AstCreate.{CreateItem, columndef, indexdef, CreateNode}
use midori_db.Parser.SemanticCreate.{key_of}

-- A C string: no byte is 0.
abbrev pub is_string : List ℕ → Bool
is_string [] = true
is_string (c ∷ cs) = not (c == 0) && is_string cs

abbrev pub all_strings : List (List ℕ) → Bool
all_strings [] = true
all_strings (name ∷ names) = is_string name && all_strings names

abbrev pub item_strings : List CreateItem → Bool
item_strings [] = true
item_strings (columndef def ∷ items) = is_string def.name && item_strings items
item_strings (indexdef def ∷ items) = all_strings def.index_columns && item_strings items

-- A name is among some.
abbrev pub among : List (List ℕ) → List ℕ → Bool
among [] name = false
among (n ∷ names) name = str_eq n name || among names name

abbrev pub all_among : List (List ℕ) → List (List ℕ) → Bool
all_among names [] = true
all_among names (n ∷ ns) = among names n && all_among names ns

-- The columns have valid names, none of them among the names before it.
abbrev pub valid_columns : List (List ℕ) → List CreateItem → Bool
valid_columns seen [] = true
valid_columns seen (indexdef def ∷ items) = valid_columns seen items
valid_columns seen (columndef def ∷ items) =
    not (among seen def.name)
    && (table_validate_column_name def.name && valid_columns (def.name ∷ seen) items)

-- The names of the columns, the last first, in front of those of `seen`.
abbrev pub names_of : List (List ℕ) → List CreateItem → List (List ℕ)
names_of seen [] = seen
names_of seen (indexdef def ∷ items) = names_of seen items
names_of seen (columndef def ∷ items) = names_of (def.name ∷ seen) items

-- The columns of the indexes are among the columns.
abbrev pub valid_indexes : List (List ℕ) → List CreateItem → Bool
valid_indexes names [] = true
valid_indexes names (columndef def ∷ items) = valid_indexes names items
valid_indexes names (indexdef def ∷ items) =
    all_among names def.index_columns && valid_indexes names items

-- What is accepted, where `exists` says whether there is a table of the name.
abbrev pub accepts : Bool → CreateNode → Bool
accepts exists node =
    table_validate_name node.table_name
    && ((node.if_not_exists || not exists)
        && (valid_columns [] node.children
            && valid_indexes (names_of [] node.children) node.children))

abbrev pub keys_of : List (List ℕ) → List (List ℕ)
keys_of [] = []
keys_of (name ∷ names) = key_of name ∷ keys_of names

pub key_of-is_key : (name : List ℕ) → is_string name ≡ true → is_key (key_of name) ≡ true
unfolding is_key
key_of-is_key [] is = refl
key_of-is_key (c ∷ []) is = ground (arith, is)
key_of-is_key (c ∷ d ∷ name) is = ground (arith, is, key_of-is_key (d ∷ name))

pub key_eq :
    (a b : List ℕ)
    → is_string a ≡ true
    → is_string b ≡ true
    → str_eq (key_of a) (key_of b) ≡ str_eq a b
unfolding str_eq
key_eq [] [] is_a is_b = refl
key_eq [] (y ∷ b) is_a is_b = ground (arith, is_b)
key_eq (x ∷ a) [] is_a is_b = ground (arith, is_a)
key_eq (x ∷ a) (y ∷ b) is_a is_b = ground (arith, is_a, is_b, key_eq a b)

pub member-among :
    (names : List (List ℕ)) (name : List ℕ)
    → all_strings names ≡ true
    → is_string name ≡ true
    → member (keys_of names) (key_of name) ≡ among names name
member-among [] name strings is = refl
member-among (n ∷ names) name strings is =
    ground (arith, strings, is, key_eq n name, member-among names name)
