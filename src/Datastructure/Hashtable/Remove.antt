-- ===== src/Datastructure/Hashtable/Remove.antt =====
-- `hashtable_remove` of src/datastructure/hashtable.c against a map.
use native.Mathlib.Nat.{mod-lt}
use midori_db.Prelude.{
  ℕ, ◌+◌, ◌-◌, ◌%◌, ◌<◌, ◌≡◌, refl, sym, ap, ◌∙◌, Bool, true, false, List, [], ◌∷◌, ◌++◌,
  Bool-cases, inl, inr, length, length-set, set, Option, none, some, ◌==◌, if◌then◌else◌, ok,
  Returns, arith,
}
use mathlib.Core.Path.{subst}
use midori_db.Datastructure.Hashtable.{
  Entry, Hashtable, bucket_at, find_entry, remove_entry, hashtable_remove, hashtable_foreach,
  lookup,
}
use midori_db.Datastructure.Hashtable.Entries.{
  bucket_at-set_self, bucket_at-set_ne, split_at, matches, matches-append, find, find-none,
}
use midori_db.Datastructure.Hashtable.Resize.{IsArray, one, count_of, chain_of}
use midori_db.Datastructure.Hashtable.Laws.{IsHashtable}

module _ (compare_fn : List ℕ → List ℕ → Bool) (hash_fn : List ℕ → ℕ)
    (same_hash : (a b : List ℕ) → compare_fn a b ≡ true → hash_fn a ≡ hash_fn b)
    (same_class : (a b c : List ℕ) → compare_fn a b ≡ true → compare_fn c a ≡ compare_fn c b) where
  abbrev one_of : Entry → List ℕ → ℕ
  one_of = one compare_fn hash_fn same_hash

  abbrev count : List Entry → List ℕ → ℕ
  count = count_of compare_fn hash_fn same_hash

  abbrev chain_at : Hashtable → List ℕ → List Entry
  chain_at hashtable key =
      chain_of compare_fn hash_fn same_hash hashtable.capacity hashtable.array key

  -- The entry that was found, and a table that has it no longer.
  pub record Removed (hashtable : Hashtable) (key : List ℕ) (entry : Entry)
      (r : Option Entry × Hashtable) : Type 0 where
    pub returns : r.0 ≡ some entry
    pub valid : IsHashtable compare_fn hash_fn same_hash same_class r.1
    pub found :
        (k : List ℕ)
        → lookup compare_fn hash_fn r.1 k
          ≡ (if compare_fn key k then none else lookup compare_fn hash_fn hashtable k)

  first_is :
      (x e : Entry) (c : List Entry) (key : List ℕ)
      → compare_fn x.key key ≡ true
      → find compare_fn hash_fn (x ∷ c) key ≡ some e
      → x ≡ e
  unfolding find_entry
  first_is x e c key m f = let it : some x ≡ some e = rw m at f in cc it

  later_is :
      (x e : Entry) (c : List Entry) (key : List ℕ)
      → compare_fn x.key key ≡ false
      → find compare_fn hash_fn (x ∷ c) key ≡ some e
      → find compare_fn hash_fn c key ≡ some e
  unfolding find_entry
  later_is x e c key m f = rw m at f

  found-matches :
      (c : List Entry) (key : List ℕ) (e : Entry)
      → find compare_fn hash_fn c key ≡ some e
      → compare_fn e.key key ≡ true
  unfolding find_entry
  found-matches [] key e f = absurd (cc f)
  found-matches (x ∷ c) key e f = elim (Bool-cases (compare_fn x.key key)) [
    | inl m ↦
        let same : x ≡ e = first_is x e c key m f in subst (λ y. compare_fn y.key key ≡ true) same m
    | inr m ↦ found-matches c key e (later_is x e c key m f)
  ]

  remove-count :
      (c : List Entry) (key k : List ℕ) (e : Entry)
      → find compare_fn hash_fn c key ≡ some e
      → count (remove_entry compare_fn hash_fn c key) k + one_of e k ≡ count c k
  unfolding find_entry remove_entry matches
  remove-count [] key k e f = absurd (cc f)
  remove-count (x ∷ c) key k e f = elim (Bool-cases (compare_fn x.key key)) [
    | inl m ↦
        let same : x ≡ e = first_is x e c key m f in rw m (omega (arith, ap (λ y. one_of y k) same))
    | inr m ↦ rw m (omega (arith, remove-count c key k e (later_is x e c key m f)))
  ]

  remove-find :
      (c : List Entry) (key k : List ℕ) (e : Entry)
      → find compare_fn hash_fn c key ≡ some e
      → compare_fn e.key k ≡ false
      → find compare_fn hash_fn (remove_entry compare_fn hash_fn c key) k
        ≡ find compare_fn hash_fn c k
  unfolding find_entry remove_entry
  remove-find [] key k e f other = absurd (cc f)
  remove-find (x ∷ c) key k e f other = elim (Bool-cases (compare_fn x.key key)) [
    | inl m ↦
        let same : x ≡ e = first_is x e c key m f in
        let not_x : compare_fn x.key k ≡ false = ap (λ y. compare_fn y.key k) same ∙ other in
        rw (m, not_x)
    | inr m ↦ rw m (
        ap (λ o. if compare_fn x.key k then some x else o)
          (remove-find c key k e (later_is x e c key m f) other))
  ]

  module _ (hashtable : Hashtable)
      (is : IsHashtable compare_fn hash_fn same_hash same_class hashtable) (key : List ℕ)
      (e : Entry) (there : lookup compare_fn hash_fn hashtable key ≡ some e) where
    abbrev i : ℕ
    i = hash_fn key % hashtable.capacity

    abbrev old : List Entry
    old = bucket_at hashtable.array i

    abbrev rest : List Entry
    rest = remove_entry compare_fn hash_fn old key

    abbrev array' : List (List Entry)
    array' = set hashtable.array i rest

    in_chain : find compare_fn hash_fn old key ≡ some e
    unfolding lookup
    in_chain = there

    e_matches : compare_fn e.key key ≡ true
    e_matches = found-matches old key e in_chain

    i_lt : i < length hashtable.array
    i_lt = omega (arith, is.size, mod-lt (hash_fn key) {m = hashtable.capacity} is.pos)

    count_all :
        (k : List ℕ)
        → count (hashtable_foreach array') k + one_of e k
          ≡ count (hashtable_foreach hashtable.array) k
    count_all k =
        let s = split_at hashtable.array i i_lt in
        omega (
          arith,
          ap (λ l. count l k) (s.put rest),
          matches-append compare_fn hash_fn s.before (rest ++ s.behind) k,
          matches-append compare_fn hash_fn rest s.behind k,
          ap (λ l. count l k) s.split,
          matches-append compare_fn hash_fn s.before (old ++ s.behind) k,
          matches-append compare_fn hash_fn old s.behind k,
          remove-count old key k e in_chain,
        )

    same_chain :
        (k : List ℕ)
        → i ≡ hash_fn k % hashtable.capacity
        → bucket_at array' (hash_fn k % hashtable.capacity) ≡ rest
    same_chain k same =
        ap (bucket_at array') (sym same) ∙ bucket_at-set_self hashtable.array i rest i_lt

    other_chain :
        (k : List ℕ)
        → (i == hash_fn k % hashtable.capacity) ≡ false
        → bucket_at array' (hash_fn k % hashtable.capacity)
          ≡ bucket_at hashtable.array (hash_fn k % hashtable.capacity)
    other_chain k ne = bucket_at-set_ne hashtable.array i (hash_fn k % hashtable.capacity) rest ne

    -- A key of another chain is not the entry's.
    e_apart :
        (k : List ℕ) → (i == hash_fn k % hashtable.capacity) ≡ false → compare_fn e.key k ≡ false
    e_apart k ne = elim (Bool-cases (compare_fn e.key k)) [
      | inl m ↦
          let same =
            ap (λ n. n % hashtable.capacity)
              (sym (same_hash e.key key e_matches) ∙ same_hash e.key k m) in
          absurd (ground (arith, same, ne))
      | inr m ↦ m
    ]

    count_chain :
        (k : List ℕ)
        → count (bucket_at array' (hash_fn k % hashtable.capacity)) k + one_of e k
          ≡ count (bucket_at hashtable.array (hash_fn k % hashtable.capacity)) k
    count_chain k = elim (Bool-cases (i == hash_fn k % hashtable.capacity)) [
      | inl s ↦
          let same : i ≡ hash_fn k % hashtable.capacity = ground (arith, s) in
          omega (
            arith,
            ap (λ c. count c k) (same_chain k same),
            remove-count old key k e in_chain,
            ap (λ j. count (bucket_at hashtable.array j) k) same,
          )
      | inr s ↦ ground (arith, ap (λ c. count c k) (other_chain k s), e_apart k s)
    ]

    valid' : IsArray compare_fn hash_fn same_hash hashtable.capacity array'
    valid' = record {
      pos = is.pos;
      size = length-set hashtable.array i rest ∙ is.size;
      once = λ k. omega (arith, count_all k, is.once k);
      home = λ k. omega (arith, count_all k, count_chain k, is.home k);
    }

    -- A key that compares equal to the entry's compares equal to `key`.
    e_class :
        compare_fn key key ≡ true
        → (k : List ℕ) → compare_fn key k ≡ false
        → compare_fn e.key k ≡ false
    e_class self k no_key = elim (Bool-cases (compare_fn e.key k)) [
      | inl m ↦
          absurd (
            cc (sym (same_class e.key k key m) ∙ same_class e.key key key e_matches ∙ self, no_key))
      | inr m ↦ m
    ]

    gone :
        (k : List ℕ)
        → compare_fn key k ≡ true
        → find compare_fn hash_fn (bucket_at array' (hash_fn k % hashtable.capacity)) k ≡ none
    gone k m =
        let e_k : compare_fn e.key k ≡ true = sym (same_class key k e.key m) ∙ e_matches in
        find-none compare_fn hash_fn (bucket_at array' (hash_fn k % hashtable.capacity)) k
          (ground (arith, count_chain k, is.home k, is.once k, e_k))

    stays :
        compare_fn key key ≡ true
        → (k : List ℕ) → compare_fn key k ≡ false
        → find compare_fn hash_fn (bucket_at array' (hash_fn k % hashtable.capacity)) k
          ≡ find compare_fn hash_fn (bucket_at hashtable.array (hash_fn k % hashtable.capacity)) k
    stays self k no_key = elim (Bool-cases (i == hash_fn k % hashtable.capacity)) [
      | inl s ↦
          let same : i ≡ hash_fn k % hashtable.capacity = ground (arith, s) in
          ap (λ c. find compare_fn hash_fn c k) (same_chain k same)
          ∙ remove-find old key k e in_chain (e_class self k no_key)
          ∙ ap (λ j. find compare_fn hash_fn (bucket_at hashtable.array j) k) same
      | inr s ↦ ap (λ c. find compare_fn hash_fn c k) (other_chain k s)
    ]

    runs :
        0 < length key
        → hashtable_remove compare_fn hash_fn hashtable key
          ≡ ok (some e, record hashtable { count = hashtable.count - 1; array = array' })
    unfolding hashtable_remove
    runs some_key =
        let not_zero : (length key == 0) ≡ false = ground arith in rw (not_zero, in_chain)

    -- The removal of a key that compares equal to itself and that the table has returns its entry: the
    -- table is valid, a lookup of a key that compares equal finds nothing, and any other lookup finds
    -- what it found.
    pub hashtable_remove-Removed :
        0 < length key
        → compare_fn key key ≡ true
        → Returns (hashtable_remove compare_fn hash_fn hashtable key) (Removed hashtable key e)
    unfolding lookup
    hashtable_remove-Removed some_key self = (
      (some e, record hashtable { count = hashtable.count - 1; array = array' }),
      runs some_key,
      record {
        returns = refl;
        valid = valid';
        found = λ k. elim (Bool-cases (compare_fn key k)) [
          | inl m ↦ rw m (gone k m)
          | inr m ↦ rw m (stays self k m)
        ];
      },
    )
