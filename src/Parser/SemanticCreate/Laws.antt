-- ===== src/Parser/SemanticCreate/Laws.antt =====
-- What src/parser/semantic_create.c accepts.
use midori_db.Prelude.{
  ℕ, ◌≡◌, refl, Bool, true, false, ◌&&◌, ◌||◌, not, List, [], ◌∷◌, replicate, Option, none, some,
  if◌then◌else◌, ok, ◌>>=◌, ◌>>◌, arith,
}
use mathlib.Core.Path.{subst}
use midori_db.Primitive.Name.{table_validate_name}
use midori_db.Datastructure.Hashtable.{Entry, Hashtable, hashtable_init, hashtable_free}
use midori_db.Datastructure.Hashtable.StringSet.{IsStringSet, is_some, init-IsStringSet}
use midori_db.Engine.Database.{database_table_exists}
use midori_db.Parser.AstCreate.{CreateItem, columndef, indexdef, CreateNode}
use midori_db.Parser.SemanticCreate.{
  Grants, check_index_columns, check_indexes, clean_up, check_children, check_create,
  semantic_analyse_create_stmt,
}
use midori_db.Parser.SemanticCreate.Accepts.{
  all_strings, item_strings, among, all_among, valid_columns, names_of, valid_indexes, accepts,
  keys_of,
}
use midori_db.Parser.SemanticCreate.Columns.{
  clean_up-IsStringSet, get_name, check_columns-Checked, Checked,
}

check_index_columns-among :
    (ht : Hashtable) (names : List (List ℕ)) (columns : List (List ℕ))
    → IsStringSet ht (keys_of names)
    → all_strings names ≡ true
    → all_strings columns ≡ true
    → check_index_columns ht columns ≡ ok (all_among names columns)
unfolding check_index_columns
check_index_columns-among ht names [] set_of strings is = refl
check_index_columns-among ht names (column ∷ columns) set_of strings is =
    let (found, run, eq) = get_name ht names column set_of strings (ground (arith, is)) in
    rw run (
      found_or (among names column) found eq
        (check_index_columns-among ht names columns set_of strings (ground (arith, is))))
  where
    found_or :
        (b : Bool) (found : Option Entry)
        → is_some found ≡ b
        → check_index_columns ht columns ≡ ok (all_among names columns)
        → (elim found [ none ↦ ok false | some _ ↦ check_index_columns ht columns ])
          ≡ ok (b && all_among names columns)
    found_or true none eq rest = absurd (cc eq)
    found_or false none eq rest = refl
    found_or true (some e) eq rest = rest
    found_or false (some e) eq rest = absurd (cc eq)

check_indexes-among :
    (items : List CreateItem) (ht : Hashtable) (names : List (List ℕ))
    → IsStringSet ht (keys_of names)
    → all_strings names ≡ true
    → item_strings items ≡ true
    → check_indexes ht items ≡ ok (valid_indexes names items)
unfolding check_indexes
check_indexes-among [] ht names set_of strings is = refl
check_indexes-among (columndef def ∷ items) ht names set_of strings is =
    check_indexes-among items ht names set_of strings (ground (arith, is))
check_indexes-among (indexdef def ∷ items) ht names set_of strings is =
    rw (check_index_columns-among ht names def.index_columns set_of strings (ground (arith, is))) (
      both (all_among names def.index_columns)
        (check_indexes-among items ht names set_of strings (ground (arith, is))))
  where
    both :
        (b : Bool)
        → check_indexes ht items ≡ ok (valid_indexes names items)
        → (elim b [ true ↦ check_indexes ht items | false ↦ ok false ])
          ≡ ok (b && valid_indexes names items)
    both true rest = rest
    both false rest = refl

names_of-strings :
    (items : List CreateItem) (seen : List (List ℕ))
    → all_strings seen ≡ true
    → item_strings items ≡ true
    → all_strings (names_of seen items) ≡ true
names_of-strings [] seen strings is = strings
names_of-strings (indexdef def ∷ items) seen strings is =
    names_of-strings items seen strings (ground (arith, is))
names_of-strings (columndef def ∷ items) seen strings is =
    names_of-strings items (def.name ∷ seen) (ground (arith, is, strings)) (ground (arith, is))

module _ (grants : Grants) (table_granted : grants.table ≡ true)
    (granted : (i : ℕ) → grants.entry i ≡ true) (node : CreateNode)
    (strings : item_strings node.children ≡ true) where
  check_children-accepts :
      (ht : Hashtable)
      → IsStringSet ht []
      → check_children grants ht node.children
        ≡ ok (
            valid_columns [] node.children
            && valid_indexes (names_of [] node.children) node.children)
  unfolding check_children
  check_children-accepts ht set_of =
      let (out, run, c) =
        check_columns-Checked grants granted node.children 0 ht [] set_of refl strings in
      rw run (after (valid_columns [] node.children) out c)
    where
      after :
          (accepted : Bool) (out : Bool × Hashtable)
          → Checked accepted (names_of [] node.children) out
          → (elim (out.0) [
            | false ↦ clean_up (out.1) false
            | true ↦ (check_indexes (out.1) node.children >>= λ result. clean_up (out.1) result)
          ])
            ≡ ok (accepted && valid_indexes (names_of [] node.children) node.children)
      after false out c = rw (c.result) (clean_up-IsStringSet (out.1) c.keys false c.is_set)
      after true out c =
          let names = subst (IsStringSet (out.1)) (c.has_names refl) c.is_set in
          rw
            (
              c.result,
              check_indexes-among node.children (out.1) (names_of [] node.children) names
                  (names_of-strings node.children [] refl strings) strings,
            )
            (clean_up-IsStringSet (out.1) c.keys _ c.is_set)

  -- The table that `hashtable_init` makes.
  abbrev fresh : Hashtable
  fresh = record { count = 0; capacity = 16; array = replicate 16 [] }

  fresh-IsStringSet : IsStringSet fresh []
  unfolding hashtable_init
  fresh-IsStringSet = init-IsStringSet fresh refl

  check_create-accepts :
      (exists : Bool) → check_create grants (ok exists) fresh node ≡ ok (accepts exists node)
  unfolding check_create
  check_create-accepts exists =
      branches (table_validate_name node.table_name) node.if_not_exists exists
    where
      branches :
          (valid if_not_exists exists : Bool)
          → (if valid
              then ((if if_not_exists then ok false else ok exists) >>= λ clash. elim clash [
                | true ↦ (hashtable_free fresh >> ok false)
                | false ↦ check_children grants fresh node.children
              ])
              else (hashtable_free fresh >> ok false))
            ≡ ok (
                valid
                && ((if_not_exists || not exists)
                    && (valid_columns [] node.children
                        && valid_indexes (names_of [] node.children) node.children)))
      branches false if_not_exists exists = refl
      branches true true exists = check_children-accepts fresh fresh-IsStringSet
      branches true false true = refl
      branches true false false = check_children-accepts fresh fresh-IsStringSet

  -- With the memory that it asks for, and names that are C strings, the check of a CREATE returns,
  -- and it accepts exactly the statements whose table has a valid name, and a new one unless IF NOT
  -- EXISTS is given, whose columns have valid names, none of them twice, and whose indexes name
  -- columns of the table.
  pub semantic_analyse_create_stmt-accepts :
      (db : Hashtable) (exists : Bool)
      → database_table_exists db node.table_name ≡ ok exists
      → semantic_analyse_create_stmt grants db node ≡ ok (accepts exists node)
  unfolding semantic_analyse_create_stmt hashtable_init
  semantic_analyse_create_stmt-accepts db exists known =
      rw (table_granted, known) (check_create-accepts exists)
