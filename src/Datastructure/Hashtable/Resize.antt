-- ===== src/Datastructure/Hashtable/Resize.antt =====
-- One entry that is added to the chains of an array, and the entries that a resize moves.
use native.Mathlib.Nat.{mod-lt}
use midori_db.Prelude.{
  ℕ, zero, suc, ◌+◌, ◌*◌, ◌%◌, ◌<◌, ◌≤◌, ◌≡◌, refl, sym, ap, ◌∙◌, Bool, true, false, List, [], ◌∷◌,
  ◌++◌, Bool-cases, inl, inr, length, length-replicate, replicate, set, none, some, ◌==◌,
  if◌then◌else◌, arith,
}
use midori_db.Datastructure.Hashtable.{
  Entry, bucket_at, find_entry, add_entry, move_entries, move_chains, hashtable_foreach,
}
use midori_db.Datastructure.Hashtable.Entries.{
  bucket_at-set_self, bucket_at-set_ne, length-add, split_at, find, matches, matches-append,
  last_of, last_of-append, last_of-none, last_of-find,
}

module _ (compare_fn : List ℕ → List ℕ → Bool) (hash_fn : List ℕ → ℕ)
    (same_hash : (a b : List ℕ) → compare_fn a b ≡ true → hash_fn a ≡ hash_fn b) where
  abbrev pub one : Entry → List ℕ → ℕ
  one entry key = if compare_fn entry.key key then 1 else 0

  abbrev pub count_of : List Entry → List ℕ → ℕ
  count_of = matches compare_fn hash_fn

  -- An array of chains: every entry stands in the chain of its key, which has it once.
  pub record IsArray (capacity : ℕ) (array : List (List Entry)) : Type 0 where
    pub pos : 0 < capacity
    pub size : length array ≡ capacity
    pub once : (key : List ℕ) → count_of (hashtable_foreach array) key ≤ 1
    pub home :
        (key : List ℕ)
        → count_of (bucket_at array (hash_fn key % capacity)) key
          ≡ count_of (hashtable_foreach array) key

  module _ (capacity : ℕ) (array : List (List Entry)) (pos : 0 < capacity)
      (size : length array ≡ capacity) (entry : Entry) where
    abbrev at : List ℕ → ℕ
    at key = hash_fn key % capacity

    pub in_range : (key : List ℕ) → at key < length array
    in_range key = omega (arith, size, mod-lt (hash_fn key) {m = capacity} pos)

    abbrev added : List (List Entry)
    added = add_entry compare_fn hash_fn capacity array entry

    pub count_all :
        (key : List ℕ)
        → count_of (hashtable_foreach added) key
          ≡ one entry key + count_of (hashtable_foreach array) key
    unfolding add_entry matches
    count_all key =
        let s = split_at array (at entry.key) (in_range entry.key) in
        let old = bucket_at array (at entry.key) in
        omega (
          arith,
          ap (λ l. count_of l key) (s.put (entry ∷ old)),
          matches-append compare_fn hash_fn s.before ((entry ∷ old) ++ s.behind) key,
          matches-append compare_fn hash_fn (entry ∷ old) s.behind key,
          ap (λ l. count_of l key) s.split,
          matches-append compare_fn hash_fn s.before (old ++ s.behind) key,
          matches-append compare_fn hash_fn old s.behind key,
        )

    -- A key of another chain is not the entry's.
    apart : (key : List ℕ) → (at entry.key == at key) ≡ false → compare_fn entry.key key ≡ false
    apart key ne = elim (Bool-cases (compare_fn entry.key key)) [
      | inl e ↦
          let same = ap (λ n. n % capacity) (same_hash entry.key key e) in
          absurd (ground (arith, same, ne))
      | inr e ↦ e
    ]

    chain_added :
        (key : List ℕ)
        → (at entry.key ≡ at key)
        → bucket_at added (at key) ≡ entry ∷ bucket_at array (at key)
    unfolding add_entry
    chain_added key same =
        ap (λ i. bucket_at (set array i (entry ∷ bucket_at array i)) (at key)) same
        ∙ bucket_at-set_self array (at key) (entry ∷ bucket_at array (at key)) (in_range key)

    chain_kept :
        (key : List ℕ)
        → (at entry.key == at key) ≡ false
        → bucket_at added (at key) ≡ bucket_at array (at key)
    unfolding add_entry
    chain_kept key ne =
        bucket_at-set_ne array (at entry.key) (at key) (entry ∷ bucket_at array (at entry.key)) ne

    pub count_chain :
        (key : List ℕ)
        → count_of (bucket_at added (at key)) key
          ≡ one entry key + count_of (bucket_at array (at key)) key
    unfolding matches
    count_chain key = elim (Bool-cases (at entry.key == at key)) [
      | inl e ↦ ap (λ c. count_of c key) (chain_added key (ground (arith, e)))
      | inr e ↦ ap (λ c. count_of c key) (chain_kept key e) ∙ ground (arith, apart key e)
    ]

    pub find_chain :
        (key : List ℕ)
        → find compare_fn hash_fn (bucket_at added (at key)) key ≡ (
            if compare_fn entry.key key
            then some entry
            else find compare_fn hash_fn (bucket_at array (at key)) key)
    unfolding find_entry
    find_chain key = elim (Bool-cases (at entry.key == at key)) [
      | inl e ↦ ap (λ c. find compare_fn hash_fn c key) (chain_added key (ground (arith, e)))
      | inr e ↦ ap (λ c. find compare_fn hash_fn c key) (chain_kept key e) ∙ (rw (apart key e))
    ]

    pub size_added : length added ≡ capacity
    size_added = length-add compare_fn hash_fn capacity array entry ∙ size

  abbrev pub chain_of : ℕ → List (List Entry) → List ℕ → List Entry
  chain_of capacity array key = bucket_at array (hash_fn key % capacity)

  -- What an array holds after the entries `es` were moved to it.
  pub record Moved (capacity : ℕ) (array : List (List Entry)) (es : List Entry)
      (out : List (List Entry)) : Type 0 where
    pub size : length out ≡ capacity
    pub all :
        (key : List ℕ)
        → count_of (hashtable_foreach out) key
          ≡ count_of es key + count_of (hashtable_foreach array) key
    pub chain :
        (key : List ℕ)
        → count_of (chain_of capacity out key) key
          ≡ count_of es key + count_of (chain_of capacity array key) key
    pub last :
        (key : List ℕ)
        → find compare_fn hash_fn (chain_of capacity out key) key
          ≡ last_of compare_fn hash_fn
              (find compare_fn hash_fn (chain_of capacity array key) key)
              es
              key

  module _ (capacity : ℕ) (pos : 0 < capacity) where
    Moved-none :
        (array : List (List Entry)) → length array ≡ capacity → Moved capacity array [] array
    unfolding matches last_of
    Moved-none array size = record {
      size = size;
      all = λ key. omega arith;
      chain = λ key. omega arith;
      last = λ key. refl;
    }

    move_entries-Moved :
        (es : List Entry) (array : List (List Entry))
        → length array ≡ capacity
        → Moved capacity array es (move_entries compare_fn hash_fn capacity array es)
    unfolding move_entries matches last_of
    move_entries-Moved [] array size = Moved-none array size
    move_entries-Moved (e ∷ es) array size =
        let m =
          move_entries-Moved es (add_entry compare_fn hash_fn capacity array e)
            (size_added capacity array pos size e) in
        record {
          size = m.size;
          all = λ key. omega (arith, m.all key, count_all capacity array pos size e key);
          chain = λ key. omega (arith, m.chain key, count_chain capacity array pos size e key);
          last = λ key.
              m.last key
              ∙ ap (λ o. last_of compare_fn hash_fn o es key)
                  (find_chain capacity array pos size e key);
        }

    move_chains-Moved :
        (chains array : List (List Entry))
        → length array ≡ capacity
        → Moved capacity array
            (hashtable_foreach chains)
            (move_chains compare_fn hash_fn capacity array chains)
    unfolding move_chains hashtable_foreach
    move_chains-Moved [] array size = Moved-none array size
    move_chains-Moved (c ∷ chains) array size =
        let m = move_entries-Moved c array size in
        let n =
          move_chains-Moved chains (move_entries compare_fn hash_fn capacity array c) m.size in
        record {
          size = n.size;
          all = λ key. omega (
            arith,
            m.all key,
            n.all key,
            matches-append compare_fn hash_fn c (hashtable_foreach chains) key,
          );
          chain = λ key. omega (
            arith,
            m.chain key,
            n.chain key,
            matches-append compare_fn hash_fn c (hashtable_foreach chains) key,
          );
          last = λ key.
              n.last key
              ∙ ap (λ o. last_of compare_fn hash_fn o (hashtable_foreach chains) key) (m.last key)
              ∙ sym (
                  last_of-append compare_fn hash_fn
                    (find compare_fn hash_fn (chain_of capacity array key) key) c
                    (hashtable_foreach chains) key);
        }

  pub foreach-empty : (n : ℕ) → hashtable_foreach (replicate n []) ≡ []
  unfolding hashtable_foreach
  foreach-empty zero = refl
  foreach-empty (suc n) = foreach-empty n

  pub bucket-empty : (n i : ℕ) → bucket_at (replicate n []) i ≡ []
  unfolding bucket_at
  bucket-empty zero i = refl
  bucket-empty (suc n) zero = refl
  bucket-empty (suc n) (suc i) = bucket-empty n i

  module _ (capacity : ℕ) (array : List (List Entry)) (is : IsArray capacity array) where
    twice : 0 < capacity * 2
    twice = omega (arith, is.pos)

    abbrev pub resized : List (List Entry)
    resized = move_chains compare_fn hash_fn (capacity * 2) (replicate (capacity * 2) []) array

    moved : Moved (capacity * 2) (replicate (capacity * 2) []) (hashtable_foreach array) resized
    moved =
        move_chains-Moved (capacity * 2) twice array (replicate (capacity * 2) [])
          (length-replicate (capacity * 2) [])

    no_entry : (key : List ℕ) → count_of (hashtable_foreach (replicate (capacity * 2) [])) key ≡ 0
    unfolding matches
    no_entry key = ap (λ l. count_of l key) (foreach-empty (capacity * 2))

    no_chain : (key : List ℕ) → chain_of (capacity * 2) (replicate (capacity * 2) []) key ≡ []
    no_chain key = bucket-empty (capacity * 2) (hash_fn key % (capacity * 2))

    no_chain_entry :
        (key : List ℕ)
        → count_of (chain_of (capacity * 2) (replicate (capacity * 2) []) key) key ≡ 0
    unfolding matches
    no_chain_entry key = ap (λ c. count_of c key) (no_chain key)

    pub resized-IsArray : IsArray (capacity * 2) resized
    resized-IsArray = record {
      pos = twice;
      size = moved.size;
      once = λ key. omega (arith, moved.all key, no_entry key, is.once key);
      home = λ key. omega (arith, moved.all key, moved.chain key, no_entry key, no_chain_entry key);
    }

    pub resized-find :
        (key : List ℕ)
        → find compare_fn hash_fn (chain_of (capacity * 2) resized key) key
          ≡ find compare_fn hash_fn (chain_of capacity array key) key
    unfolding find_entry
    resized-find key =
        let s =
          split_at array (hash_fn key % capacity)
            (in_range capacity array is.pos is.size (record { key = key; value = [] }) key) in
        let chain = chain_of capacity array key in
        let parts = ap (λ l. count_of l key) s.split in
        let two = matches-append compare_fn hash_fn s.before (chain ++ s.behind) key in
        let three = matches-append compare_fn hash_fn chain s.behind key in
        let no_before : count_of s.before key ≡ 0 = omega (arith, parts, two, three, is.home key) in
        let no_behind : count_of s.behind key ≡ 0 = omega (arith, parts, two, three, is.home key) in
        let at_most : count_of chain key ≤ 1 = omega (arith, is.home key, is.once key) in
        moved.last key
        ∙ ap
            (λ c.
              last_of compare_fn hash_fn (find compare_fn hash_fn c key) (hashtable_foreach array)
                key)
            (no_chain key)
        ∙ ap (λ l. last_of compare_fn hash_fn none l key) s.split
        ∙ last_of-append compare_fn hash_fn none s.before (chain ++ s.behind) key
        ∙ ap (λ o. last_of compare_fn hash_fn o (chain ++ s.behind) key)
            (last_of-none compare_fn hash_fn none s.before key no_before)
        ∙ last_of-append compare_fn hash_fn none chain s.behind key
        ∙ last_of-none compare_fn hash_fn (last_of compare_fn hash_fn none chain key) s.behind key
            no_behind
        ∙ last_of-find compare_fn hash_fn chain key at_most
