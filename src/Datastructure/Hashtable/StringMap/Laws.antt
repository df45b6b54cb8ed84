-- ===== src/Datastructure/Hashtable/StringMap/Laws.antt =====
-- `hashtable_init`, `hashtable_put`, `hashtable_get` and `hashtable_remove` of
-- src/datastructure/hashtable.c against a map from C strings.
use midori_db.Prelude.{
  ℕ, ◌+◌, ◌-◌, ◌%◌, ◌<◌, ◌≡◌, refl, sym, ap, ◌∙◌, Bool, true, false, ◌||◌, List, [], ◌++◌,
  Bool-cases, inl, inr, length, replicate, set, Option, none, some, ◌==◌, if◌then◌else◌, if_true,
  if_false, Outcome, ok, Returns, arith,
}
use mathlib.Core.Path.{subst}
use midori_db.Primitive.Name.{str_eq}
use midori_db.Primitive.Name.Laws.{str_eq_iff, str_eq_refl}
use midori_db.Datastructure.Hashtable.{
  Entry, Hashtable, bucket_at, remove_entry, add_entry, hashtable_resize, hashtable_put,
  hashtable_remove, hashtable_foreach, hashtable_init, lookup, hashtable_str_compare,
  hashtable_str_hash,
}
use midori_db.Datastructure.Hashtable.Entries.{split_at}
use midori_db.Datastructure.Hashtable.Laws.{Put, init-IsHashtable, hashtable_put-Put}
use midori_db.Datastructure.Hashtable.Remove.{Removed, hashtable_remove-Removed}
use midori_db.Datastructure.Hashtable.Strings.{
  is_key, total, total-append, total-add_entry, total-replicate,
}
use midori_db.Datastructure.Hashtable.StringSet.{bad, key_pos}
use midori_db.Datastructure.Hashtable.StringMap.{
  IsStringMap, value_of, at_string, same_hash, same_class, remove-agree, resize-agree,
  resize-strings, total-remove, at_lt, chain-strings, lookup-agree,
}

-- A table that hashtable_init makes, with the program's functions for strings, is one whose keys
-- are C strings, each of them once and in its chain, and no C string has an entry in it.
pub hashtable_init-IsStringMap :
    (hashtable : Hashtable)
    → hashtable_init true ≡ some hashtable
    → IsStringMap hashtable × ((key : List ℕ) → at_string hashtable key ≡ none)
unfolding hashtable_init
hashtable_init-IsStringMap hashtable made =
    let (valid, absent) =
      init-IsHashtable str_eq hashtable_str_hash same_hash same_class hashtable made in
    let same : record { count = 0; capacity = 16; array = replicate 16 [] } ≡ hashtable = cc made in
    let is : IsStringMap hashtable = record {
      valid = valid;
      strings =
          subst (λ (t : Hashtable). total bad (hashtable_foreach t.array) ≡ 0) same
            (total-replicate bad 16);
    } in
    (
      is,
      λ key. elim (Bool-cases (is_key key)) [
        | inl string ↦ if_true _ _ _ string ∙ lookup-agree hashtable is key string ∙ absent key
        | inr other ↦ if_false _ _ _ other
      ],
    )

same_value : {A : Type 0} {o : Outcome A} {a b : A} → o ≡ ok a → o ≡ ok b → a ≡ b
same_value {A} {o} {a} {b} e f = let both : ok a ≡ ok b = sym e ∙ f in cc both

module _ (hashtable : Hashtable) (is : IsStringMap hashtable) (key : List ℕ)
    (string : is_key key ≡ true) where
  -- A change at the key alone, of what C strings have.
  changed :
      (now : Hashtable) (new : Option Entry)
      → ((k : List ℕ)
          → is_key k ≡ true
          → value_of now k ≡ (if str_eq key k then new else value_of hashtable k))
      → (k : List ℕ) → at_string now k ≡ (if str_eq key k then new else at_string hashtable k)
  changed now new at k = elim (Bool-cases (is_key k)) [
    | inl k_string ↦
        if_true _ _ _ k_string
        ∙ at k k_string
        ∙ ap (λ o. if str_eq key k then new else o) (sym (if_true _ _ _ k_string))
    | inr other ↦
        let apart : str_eq key k ≡ false = elim (Bool-cases (str_eq key k)) [
          | inr no_match ↦ no_match
          | inl match ↦ absurd (cc (sym string ∙ ap is_key ((str_eq_iff key k).0 match) ∙ other))
        ] in
        if_false _ _ _ other ∙ sym (if_false _ _ _ apart ∙ if_false _ _ _ other)
  ]

  -- The table has `value` at the key, and at any other what it had.
  pub record IsPut (value : List ℕ) (out : Bool × Hashtable) : Type 0 where
    pub returns : out.0 ≡ true
    pub map : IsStringMap (out.1)
    pub found :
        (k : List ℕ)
        → at_string (out.1) k ≡ (
            if str_eq key k
            then some (record { key = key; value = value })
            else at_string hashtable k)

  module _ (value : List ℕ) (new : value_of hashtable key ≡ none) where
    abbrev grown : Hashtable
    grown = record hashtable {
      count = hashtable.count + 1;
      array =
          add_entry hashtable_str_compare hashtable_str_hash hashtable.capacity hashtable.array
            (record { key = key; value = value });
    }

    grown-strings : total bad (hashtable_foreach grown.array) ≡ 0
    grown-strings =
        let added =
          total-add_entry bad hashtable.capacity hashtable.array
            (record { key = key; value = value }) is.valid.pos is.valid.size in
        ground (arith, added, is.strings, string)

    puts :
        (resize_granted : Bool)
        → 0 < length value
        → hashtable_put hashtable_str_compare hashtable_str_hash true resize_granted hashtable key
            value
          ≡ ok
              (true, hashtable_resize hashtable_str_compare hashtable_str_hash resize_granted grown)
    unfolding hashtable_put lookup
    puts resize_granted some_value =
        let filled : (length key == 0 || length value == 0) ≡ false =
          ground (arith, key_pos key string) in
        rw (filled, new) refl

    puts_eq :
        (resize_granted : Bool)
        → 0 < length value
        → hashtable_put str_eq hashtable_str_hash true resize_granted hashtable key value
          ≡ ok (true, hashtable_resize str_eq hashtable_str_hash resize_granted grown)
    unfolding hashtable_put lookup add_entry
    puts_eq resize_granted some_value =
        let filled : (length key == 0 || length value == 0) ≡ false =
          ground (arith, key_pos key string) in
        rw (filled, sym (lookup-agree hashtable is key string) ∙ new) refl

    -- With the program's functions for strings: a put of a C string that the table does not
    -- have, with a value of at least a byte and the memory of the entry, into a table whose
    -- keys are C strings, each of them once and in its chain, returns true. The table stays
    -- one of this kind and has the value at the key, and at any other C string what it had,
    -- whether it is resized or not.
    pub hashtable_put-IsPut :
        (resize_granted : Bool)
        → 0 < length value
        → Returns
            (hashtable_put hashtable_str_compare hashtable_str_hash true resize_granted hashtable
              key value)
            (IsPut value)
    hashtable_put-IsPut resize_granted some_value =
        let (r, run, put) =
          hashtable_put-Put str_eq hashtable_str_hash same_hash same_class hashtable is.valid key
            value (sym (lookup-agree hashtable is key string) ∙ new) resize_granted
            (key_pos key string) some_value in
        let now = hashtable_resize hashtable_str_compare hashtable_str_hash resize_granted grown in
        let same : r ≡ (true, now) =
          same_value run (puts_eq resize_granted some_value)
          ∙ ap (λ t. (true, t)) (sym (resize-agree resize_granted grown)) in
        let put' =
          subst (Put str_eq hashtable_str_hash same_hash same_class hashtable key value) same put in
        let map : IsStringMap now = record {
          valid = put'.valid;
          strings = resize-strings resize_granted grown is.valid.pos grown-strings;
        } in
        (
          (true, now),
          puts resize_granted some_value,
          record {
            returns = refl;
            map = map;
            found = changed now (some (record { key = key; value = value })) (λ k k_string.
                lookup-agree now map k k_string
                ∙ put'.found k
                ∙ ap (λ o. if str_eq key k then some (record { key = key; value = value }) else o)
                    (sym (lookup-agree hashtable is k k_string)));
          },
        )

  -- The table has nothing at the key, and at any other what it had.
  pub record IsRemoved (entry : Entry) (out : Option Entry × Hashtable) : Type 0 where
    pub returns : out.0 ≡ some entry
    pub map : IsStringMap (out.1)
    pub found :
        (k : List ℕ) → at_string (out.1) k ≡ (if str_eq key k then none else at_string hashtable k)

  module _ (entry : Entry) (there : value_of hashtable key ≡ some entry) where
    abbrev place : ℕ
    place = hashtable_str_hash key % hashtable.capacity

    abbrev chain : List Entry
    chain = bucket_at hashtable.array place

    abbrev less : (List ℕ → List ℕ → Bool) → Hashtable
    less compare_fn = record hashtable {
      count = hashtable.count - 1;
      array = set hashtable.array place (remove_entry compare_fn hashtable_str_hash chain key);
    }

    less-strings : total bad (hashtable_foreach (less hashtable_str_compare).array) ≡ 0
    less-strings =
        let s = split_at hashtable.array place (at_lt hashtable is key) in
        let rest = remove_entry hashtable_str_compare hashtable_str_hash chain key in
        omega (
          arith,
          is.strings,
          ap (total bad) s.split,
          total-append bad s.before (chain ++ s.behind),
          total-append bad chain s.behind,
          ap (total bad) (s.put rest),
          total-append bad s.before (rest ++ s.behind),
          total-append bad rest s.behind,
          total-remove chain key,
        )

    removes :
        (compare_fn : List ℕ → List ℕ → Bool)
        → lookup compare_fn hashtable_str_hash hashtable key ≡ some entry
        → hashtable_remove compare_fn hashtable_str_hash hashtable key
          ≡ ok (some entry, less compare_fn)
    unfolding hashtable_remove lookup
    removes compare_fn found =
        let filled : (length key == 0) ≡ false = ground (arith, key_pos key string) in
        rw (filled, found) refl

    -- With the program's functions for strings: the removal of a C string that is a key of a
    -- table whose keys are C strings, each of them once and in its chain, returns its entry.
    -- The table stays one of this kind and has nothing at the key, and at any other C string
    -- what it had.
    pub hashtable_remove-IsRemoved :
        Returns
          (hashtable_remove hashtable_str_compare hashtable_str_hash hashtable key)
          (IsRemoved entry)
    hashtable_remove-IsRemoved =
        let there_eq : lookup str_eq hashtable_str_hash hashtable key ≡ some entry =
          sym (lookup-agree hashtable is key string) ∙ there in
        let (r, run, removed) =
          hashtable_remove-Removed str_eq hashtable_str_hash same_hash same_class hashtable is.valid
            key entry there_eq (key_pos key string) (str_eq_refl key) in
        let now = less hashtable_str_compare in
        let same : r ≡ (some entry, now) =
          same_value run (removes str_eq there_eq)
          ∙ ap
              (λ c. (
                some entry,
                record hashtable {
                  count = hashtable.count - 1;
                  array = set hashtable.array place c;
                },
              ))
              (sym (remove-agree chain key (chain-strings hashtable is key) string)) in
        let removed' =
          subst (Removed str_eq hashtable_str_hash same_hash same_class hashtable key entry) same
            removed in
        let map : IsStringMap now = record { valid = removed'.valid; strings = less-strings } in
        (
          (some entry, now),
          removes hashtable_str_compare there,
          record {
            returns = refl;
            map = map;
            found = changed now none (λ k k_string.
                lookup-agree now map k k_string
                ∙ removed'.found k
                ∙ ap (λ o. if str_eq key k then none else o)
                    (sym (lookup-agree hashtable is k k_string)));
          },
        )
