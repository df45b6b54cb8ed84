-- ===== src/Parser/SemanticCreate/Columns.antt =====
-- The first loop of src/parser/semantic_create.c, over the columns, and the clean-up.
use midori_db.Prelude.{
  ℕ, ◌+◌, ◌≡◌, refl, ◌∙◌, Bool, true, false, ◌&&◌, not, List, [], ◌∷◌, length, Option, none, some,
  ◌==◌, if◌then◌else◌, ok, Returns, bind-Returns, arith,
}
use mathlib.Core.Path.{subst}
use midori_db.Primitive.Name.{table_validate_column_name}
use midori_db.Datastructure.Hashtable.{
  Entry, Hashtable, hashtable_put, hashtable_get, hashtable_remove, hashtable_foreach, lookup,
  hashtable_str_compare, hashtable_str_hash,
}
use midori_db.Datastructure.Hashtable.StringSet.{
  IsStringSet, is_some, lookup-IsStringSet, hashtable_put-IsStringSet, key_pos,
}
use midori_db.Datastructure.Hashtable.Emptied.{
  IsTidy, IsStringSet-IsTidy, hashtable_remove-IsTidy, hashtable_free-IsTidy,
}
use midori_db.Parser.AstCreate.{CreateItem, columndef, indexdef}
use midori_db.Parser.SemanticCreate.{
  Grants, key_of, check_column, check_columns, free_str_entries, clean_up,
}
use midori_db.Parser.SemanticCreate.Accepts.{
  is_string, all_strings, item_strings, among, valid_columns, names_of, keys_of, key_of-is_key,
  member-among,
}

-- The clean-up frees the entries and returns what it was given.
pub free_str_entries-IsTidy :
    (entries : List Entry) (ht : Hashtable)
    → IsTidy ht entries
    → Returns (free_str_entries ht entries) (λ left. IsTidy left [])
unfolding free_str_entries
free_str_entries-IsTidy [] ht is = (ht, refl, is)
free_str_entries-IsTidy (e ∷ entries) ht is =
    bind-Returns (hashtable_remove hashtable_str_compare hashtable_str_hash ht e.key) _
      (hashtable_remove-IsTidy ht e entries is)
      (λ out r. rw (r.0) (free_str_entries-IsTidy entries (out.1) (r.1)))

pub clean_up-IsStringSet :
    (ht : Hashtable) (keys : List (List ℕ)) (result : Bool)
    → IsStringSet ht keys
    → clean_up ht result ≡ ok result
unfolding clean_up
clean_up-IsStringSet ht keys result is =
    let (left, run, tidy) =
      free_str_entries-IsTidy (hashtable_foreach ht.array) ht (IsStringSet-IsTidy ht keys is) in
    rw (run, hashtable_free-IsTidy left tidy) refl

-- A lookup of a name.
pub get_name :
    (ht : Hashtable) (seen : List (List ℕ)) (name : List ℕ)
    → IsStringSet ht (keys_of seen)
    → all_strings seen ≡ true
    → is_string name ≡ true
    → Returns
        (hashtable_get hashtable_str_compare hashtable_str_hash ht (key_of name))
        (λ found. is_some found ≡ among seen name)
unfolding hashtable_get
get_name ht seen name set_of strings is =
    let key = key_of-is_key name is in
    let filled : (length (key_of name) == 0) ≡ false = ground (arith, key_pos (key_of name) key) in
    (
      lookup hashtable_str_compare hashtable_str_hash ht (key_of name),
      rw filled refl,
      lookup-IsStringSet ht (keys_of seen) set_of (key_of name) key
          ∙ member-among seen name strings is,
    )

-- What a loop over the columns returns: the table is a set, of the names if they are accepted.
pub record Checked (accepted : Bool) (names : List (List ℕ)) (out : Bool × Hashtable) : Type 0 where
  pub result : out.0 ≡ accepted
  pub keys : List (List ℕ)
  pub is_set : IsStringSet (out.1) keys
  pub has_names : accepted ≡ true → keys ≡ keys_of names

module _ (grants : Grants) (granted : (i : ℕ) → grants.entry i ≡ true) where
  pub check_column-Checked :
      (i : ℕ) (ht : Hashtable) (seen : List (List ℕ)) (name : List ℕ)
      → IsStringSet ht (keys_of seen)
      → all_strings seen ≡ true
      → is_string name ≡ true
      → Returns
          (check_column grants i ht name)
          (Checked (not (among seen name) && table_validate_column_name name) (name ∷ seen))
  unfolding check_column
  check_column-Checked i ht seen name set_of strings is =
      let key = key_of-is_key name is in
      bind-Returns (hashtable_get hashtable_str_compare hashtable_str_hash ht (key_of name)) _
        (get_name ht seen name set_of strings is)
        (λ found eq.
          after (among seen name) (table_validate_column_name name) (grants.entry i) found refl refl
            (granted i) eq)
    where
      refused :
          (false ≡ true → keys_of seen ≡ keys_of (name ∷ seen))
          → Checked false (name ∷ seen) (false, ht)
      refused f = record { result = refl; keys = keys_of seen; is_set = set_of; has_names = f }

      after :
          (dup valid grant : Bool) (found : Option Entry)
          → among seen name ≡ dup
          → table_validate_column_name name ≡ valid
          → grant ≡ true
          → is_some found ≡ dup
          → Returns
              (elim found [
                | some _ ↦ ok (false, ht)
                | none ↦
                    if valid
                    then hashtable_put hashtable_str_compare hashtable_str_hash grant
                        (grants.resize i)
                        ht
                        (key_of name)
                        (key_of name)
                    else ok (false, ht)
              ])
              (Checked (not dup && valid) (name ∷ seen))
      after false valid grant (some e) e_dup e_valid e_grant eq = absurd (cc eq)
      after true valid grant none e_dup e_valid e_grant eq = absurd (cc eq)
      after true valid grant (some e) e_dup e_valid e_grant eq =
          ((false, ht), refl, refused (λ t. absurd (cc t)))
      after false false grant none e_dup e_valid e_grant eq =
          ((false, ht), refl, refused (λ t. absurd (cc t)))
      after false true false none e_dup e_valid e_grant eq = absurd (cc e_grant)
      after false true true none e_dup e_valid e_grant eq =
          let key = key_of-is_key name is in
          let (out, run, put) =
            hashtable_put-IsStringSet ht (keys_of seen) set_of (key_of name) (key_of name) key
              (grants.resize i) (member-among seen name strings is ∙ e_dup)
              (key_pos (key_of name) key) in
          (
            out,
            run,
            record {
              result = put.0;
              keys = key_of name ∷ keys_of seen;
              is_set = put.1;
              has_names = λ _. refl;
            },
          )

  -- The rounds after the one of a column, whose test has failed or not.
  pub after_column :
      (i : ℕ) (items : List CreateItem) (names : List (List ℕ)) (accepted dup valid : Bool)
      (out : Bool × Hashtable)
      → Checked (not dup && valid) names out
      → ((ht : Hashtable)
          → IsStringSet ht (keys_of names)
          → Returns
              (check_columns grants (i + 1) ht items)
              (Checked accepted (names_of names items)))
      → Returns
          (elim (out.0) [
            | true ↦ check_columns grants (i + 1) (out.1) items
            | false ↦ ok (false, out.1)
          ])
          (Checked (not dup && (valid && accepted)) (names_of names items))
  after_column i items names accepted false true out c rest =
      rw (c.result) (rest (out.1) (subst (IsStringSet (out.1)) (c.has_names refl) c.is_set))
  after_column i items names accepted false false out c rest = rw (c.result) (
    (false, out.1),
    refl,
    record { result = refl; keys = c.keys; is_set = c.is_set; has_names = λ t. absurd (cc t) },
  )
  after_column i items names accepted true valid out c rest = rw (c.result) (
    (false, out.1),
    refl,
    record { result = refl; keys = c.keys; is_set = c.is_set; has_names = λ t. absurd (cc t) },
  )

  pub check_columns-Checked :
      (items : List CreateItem) (i : ℕ) (ht : Hashtable) (seen : List (List ℕ))
      → IsStringSet ht (keys_of seen)
      → all_strings seen ≡ true
      → item_strings items ≡ true
      → Returns
          (check_columns grants i ht items)
          (Checked (valid_columns seen items) (names_of seen items))
  unfolding check_columns
  check_columns-Checked [] i ht seen set_of strings is = (
    (true, ht),
    refl,
    record { result = refl; keys = keys_of seen; is_set = set_of; has_names = λ _. refl },
  )
  check_columns-Checked (indexdef def ∷ items) i ht seen set_of strings is =
      check_columns-Checked items i ht seen set_of strings (ground (arith, is))
  check_columns-Checked (columndef def ∷ items) i ht seen set_of strings is =
      bind-Returns (check_column grants i ht def.name) _
        (check_column-Checked i ht seen def.name set_of strings (ground (arith, is)))
        (λ out c.
          after_column i items (def.name ∷ seen) (valid_columns (def.name ∷ seen) items)
            (among seen def.name) (table_validate_column_name def.name) out c
            (λ ht' set_of'.
              check_columns-Checked items (i + 1) ht' (def.name ∷ seen) set_of'
                (ground (arith, is, strings)) (ground (arith, is))))
