-- ===== src/Datastructure/Hashtable/Laws.antt =====
-- `hashtable_put` and `hashtable_get` of src/datastructure/hashtable.c against a map.
use midori_db.Prelude.{
  ℕ, ◌+◌, ◌*◌, ◌%◌, ◌<◌, ◌≡◌, refl, sym, ap, ◌∙◌, Bool, true, false, ◌||◌, List, [], ◌∷◌,
  Bool-cases, inl, inr, length, replicate, none, some, ltb, ◌==◌, if◌then◌else◌, ok, Returns, arith,
}
use mathlib.Core.Path.{subst}
use midori_db.Datastructure.Hashtable.{
  Entry, Hashtable, bucket_at, find_entry, add_entry, hashtable_resize, hashtable_put,
  hashtable_foreach, hashtable_init, lookup,
}
use midori_db.Datastructure.Hashtable.Entries.{matches, find, none-find}
use midori_db.Datastructure.Hashtable.Resize.{
  IsArray, count_of, chain_of, count_all, count_chain, find_chain, size_added, resized-IsArray,
  resized-find, foreach-empty, bucket-empty,
}

module _ (compare_fn : List ℕ → List ℕ → Bool) (hash_fn : List ℕ → ℕ)
    (same_hash : (a b : List ℕ) → compare_fn a b ≡ true → hash_fn a ≡ hash_fn b)
    (same_class : (a b c : List ℕ) → compare_fn a b ≡ true → compare_fn c a ≡ compare_fn c b) where
  -- Every entry stands in the chain of its key, and no key has two.
  abbrev pub IsHashtable : Hashtable → Type 0
  IsHashtable hashtable = IsArray compare_fn hash_fn same_hash hashtable.capacity hashtable.array

  -- A table that `hashtable_init` makes is valid, and no key is found in it.
  pub init-IsHashtable :
      (hashtable : Hashtable)
      → hashtable_init true ≡ some hashtable
      → IsHashtable hashtable × ((k : List ℕ) → lookup compare_fn hash_fn hashtable k ≡ none)
  unfolding hashtable_init lookup find_entry matches
  init-IsHashtable hashtable made =
      let same : hashtable ≡ record { count = 0; capacity = 16; array = replicate 16 [] } =
        cc made in
      subst (λ t. IsHashtable t × ((k : List ℕ) → lookup compare_fn hash_fn t k ≡ none)) (sym same)
        (
          record {
            pos = omega arith;
            size = refl;
            once = λ k. omega (
              arith,
              ap (λ l. count_of compare_fn hash_fn same_hash l k)
                  (foreach-empty compare_fn hash_fn same_hash 16),
            );
            home = λ k.
                ap (λ c. count_of compare_fn hash_fn same_hash c k)
                  (bucket-empty compare_fn hash_fn same_hash 16 (hash_fn k % 16))
                ∙ sym (
                    ap (λ l. count_of compare_fn hash_fn same_hash l k)
                      (foreach-empty compare_fn hash_fn same_hash 16));
          },
          λ k.
              ap (λ c. find compare_fn hash_fn c k)
                (bucket-empty compare_fn hash_fn same_hash 16 (hash_fn k % 16)),
        )

  -- A table in which `key` now has a value, and every other key what it had.
  pub record Put (hashtable : Hashtable) (key value : List ℕ) (r : Bool × Hashtable) : Type 0 where
    pub returns : r.0 ≡ true
    pub valid : IsHashtable r.1
    pub found :
        (k : List ℕ)
        → lookup compare_fn hash_fn r.1 k ≡ (
            if compare_fn key k
            then some (record { key = key; value = value })
            else lookup compare_fn hash_fn hashtable k)

  same_count :
      (a b : List ℕ) (es : List Entry)
      → compare_fn a b ≡ true
      → matches compare_fn hash_fn es a ≡ matches compare_fn hash_fn es b
  unfolding matches
  same_count a b [] same = refl
  same_count a b (e ∷ es) same = rw (same_class a b e.key same, same_count a b es same)

  resize-IsHashtable :
      (granted : Bool) (hashtable : Hashtable)
      → IsHashtable hashtable
      → IsHashtable (hashtable_resize compare_fn hash_fn granted hashtable)
  unfolding hashtable_resize
  resize-IsHashtable granted hashtable is =
      elim (Bool-cases (ltb (2 * hashtable.count) hashtable.capacity)) [
        | inl e ↦ rw e is
        | inr e ↦ elim (Bool-cases granted) [
          | inl g ↦
              rw (e, g)
                (resized-IsArray compare_fn hash_fn same_hash hashtable.capacity hashtable.array is)
          | inr g ↦ rw (e, g) is
        ]
      ]

  lookup-resize :
      (granted : Bool) (hashtable : Hashtable) (k : List ℕ)
      → IsHashtable hashtable
      → lookup compare_fn hash_fn (hashtable_resize compare_fn hash_fn granted hashtable) k
        ≡ lookup compare_fn hash_fn hashtable k
  unfolding hashtable_resize lookup
  lookup-resize granted hashtable k is =
      elim (Bool-cases (ltb (2 * hashtable.count) hashtable.capacity)) [
        | inl e ↦ rw e
        | inr e ↦ elim (Bool-cases granted) [
          | inl g ↦
              rw (e, g)
                (resized-find compare_fn hash_fn same_hash hashtable.capacity hashtable.array is k)
          | inr g ↦ rw (e, g)
        ]
      ]

  module _ (hashtable : Hashtable) (is : IsHashtable hashtable) (key value : List ℕ)
      (new : lookup compare_fn hash_fn hashtable key ≡ none) where
    entry : Entry
    entry = record { key = key; value = value }

    grown : Hashtable
    grown = record hashtable {
      count = hashtable.count + 1;
      array = add_entry compare_fn hash_fn hashtable.capacity hashtable.array entry;
    }

    absent : count_of compare_fn hash_fn same_hash (hashtable_foreach hashtable.array) key ≡ 0
    unfolding lookup
    absent =
        sym (is.home key)
        ∙ none-find compare_fn hash_fn
            (chain_of compare_fn hash_fn same_hash hashtable.capacity hashtable.array key) key new

    grown-IsHashtable : IsHashtable grown
    unfolding grown entry
    grown-IsHashtable = record {
      pos = is.pos;
      size =
          size_added compare_fn hash_fn same_hash hashtable.capacity hashtable.array is.pos is.size
            entry;
      once = λ k. elim (Bool-cases (compare_fn key k)) [
        | inl e ↦
            let none_of = same_count key k (hashtable_foreach hashtable.array) e in
            ground (
              arith,
              count_all compare_fn hash_fn same_hash hashtable.capacity hashtable.array is.pos
                  is.size entry k,
              e,
              none_of,
              absent,
            )
        | inr e ↦ ground (
          arith,
          count_all compare_fn hash_fn same_hash hashtable.capacity hashtable.array is.pos is.size
              entry k,
          e,
          is.once k,
        )
      ];
      home = λ k. omega (
        arith,
        count_all compare_fn hash_fn same_hash hashtable.capacity hashtable.array is.pos is.size
            entry k,
        count_chain compare_fn hash_fn same_hash hashtable.capacity hashtable.array is.pos is.size
            entry k,
        is.home k,
      );
    }

    put-grown :
        (resize_granted : Bool)
        → 0 < length key
        → 0 < length value
        → hashtable_put compare_fn hash_fn true resize_granted hashtable key value
          ≡ ok (true, hashtable_resize compare_fn hash_fn resize_granted grown)
    unfolding hashtable_put grown entry lookup
    put-grown resize_granted some_key some_value =
        let not_zero : (length key == 0 || length value == 0) ≡ false = ground arith in
        rw (not_zero, new)

    -- A put of a key that the table does not have, where the memory of the entry is granted, returns
    -- true: the table is valid, a lookup of a key that compares equal to it finds the entry, and any
    -- other lookup finds what it found, whether the table is resized or not.
    pub hashtable_put-Put :
        (resize_granted : Bool)
        → 0 < length key
        → 0 < length value
        → Returns
            (hashtable_put compare_fn hash_fn true resize_granted hashtable key value)
            (Put hashtable key value)
    unfolding lookup grown bucket_at entry
    hashtable_put-Put resize_granted some_key some_value = (
      (true, hashtable_resize compare_fn hash_fn resize_granted grown),
      put-grown resize_granted some_key some_value,
      record {
        returns = refl;
        valid = resize-IsHashtable resize_granted grown grown-IsHashtable;
        found = λ k.
            lookup-resize resize_granted grown k grown-IsHashtable
            ∙ find_chain compare_fn hash_fn same_hash hashtable.capacity hashtable.array is.pos
                is.size entry k;
      },
    )
