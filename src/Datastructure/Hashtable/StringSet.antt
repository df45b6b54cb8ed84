-- ===== src/Datastructure/Hashtable/StringSet.antt =====
-- A table of src/datastructure/hashtable.c as a set of C strings: `hashtable_get` and
-- `hashtable_put` with hashtable_str_compare and hashtable_str_hash.
use midori_db.Prelude.{
  ℕ, suc, ◌+◌, ◌-◌, ◌*◌, ◌%◌, ◌<◌, ◌≤◌, ◌≡◌, ◌≢◌, refl, sym, ap, ◌∙◌, Bool, true, false, ◌||◌, List,
  [], ◌∷◌, length, length-replicate, All, replicate, Option, none, some, ltb, leb, ◌==◌, Bool-cases,
  inl, inr, if◌then◌else◌, Returns, arith,
}
use mathlib.Core.Path.{subst}
use midori_db.Primitive.Name.{str_eq}
use midori_db.Primitive.Name.Laws.{str_eq_iff}
use midori_db.Datastructure.Hashtable.{
  Entry, Hashtable, bucket_at, find_entry, add_entry, move_chains, hashtable_resize, hashtable_put,
  hashtable_init, hashtable_foreach, lookup, hashtable_str_compare, hashtable_str_hash,
}
use midori_db.Datastructure.Hashtable.Entries.{length-add}
use midori_db.Datastructure.Hashtable.Strings.{
  is_key, str_compare_lem, total, total-append, total-add_entry, total-move_chains,
  length-move_chains, IsAt, Homed, Homed-add_entry, Homed-move_chains, Homed-replicate,
  total-replicate,
}

-- The weights that count the entries, those of a key, and those whose key is no string.
abbrev pub one : Entry → ℕ
one entry = 1

abbrev pub same : List ℕ → Entry → ℕ
same key entry = if hashtable_str_compare entry.key key then 1 else 0

abbrev pub bad : Entry → ℕ
bad entry = if is_key entry.key then 0 else 1

-- A key is among some.
abbrev pub member : List (List ℕ) → List ℕ → Bool
member [] key = false
member (k ∷ keys) key = str_eq k key || member keys key

-- The table has the keys `keys`.
pub record IsStringSet (hashtable : Hashtable) (keys : List (List ℕ)) : Type 0 where
  pub pos : 0 < hashtable.capacity
  pub size : length hashtable.array ≡ hashtable.capacity
  pub homed : Homed hashtable.capacity 0 hashtable.array
  pub counted : total one (hashtable_foreach hashtable.array) ≡ hashtable.count
  pub strings : total bad (hashtable_foreach hashtable.array) ≡ 0
  pub found :
      (key : List ℕ)
      → is_key key ≡ true
      → leb 1 (total (same key) (hashtable_foreach hashtable.array)) ≡ member keys key

abbrev pub is_some : Option Entry → Bool
is_some none = false
is_some (some _) = true

find-total :
    (entries : List Entry) (key : List ℕ)
    → is_some (find_entry hashtable_str_compare hashtable_str_hash entries key)
      ≡ leb 1 (total (same key) entries)
unfolding find_entry total
find-total [] key = refl
find-total (e ∷ entries) key = elim (Bool-cases (hashtable_str_compare e.key key)) [
  | inl t ↦ rw t (ground arith)
  | inr f ↦ rw f (find-total entries key ∙ ap (λ n. leb 1 n) (omega arith))
]

pub none_of : (found : Option Entry) → is_some found ≡ false → found ≡ none
none_of none e = refl
none_of (some entry) e = absurd (cc e)

pub key_pos : (key : List ℕ) → is_key key ≡ true → 0 < length key
unfolding is_key
key_pos [] is = absurd (cc is)
key_pos (c ∷ key) is = omega arith

-- Where the entries of a key are not.
chain-none :
    (capacity i : ℕ) (chain : List Entry) (key : List ℕ)
    → All (IsAt capacity i) chain
    → hashtable_str_hash key % capacity ≢ i
    → total bad chain ≡ 0
    → is_key key ≡ true
    → total (same key) chain ≡ 0
unfolding total
chain-none capacity i [] key all off strings is = refl
chain-none capacity i (e ∷ chain) key all off strings is =
    let rest = chain-none capacity i chain key (all.1) off in
    elim (Bool-cases (hashtable_str_compare e.key key)) [
      | inl t ↦
          let e_key : is_key e.key ≡ true = ground (arith, strings) in
          let one_key : e.key ≡ key =
            (str_eq_iff e.key key).0 (sym (str_compare_lem e.key key e_key is) ∙ t) in
          absurd (off (ap (λ k. hashtable_str_hash k % capacity) (sym one_key) ∙ all.0))
      | inr f ↦ rw f (omega (arith, rest (omega (arith, strings)) is))
    ]

module _ (capacity : ℕ) (key : List ℕ) (is : is_key key ≡ true) where
  abbrev h : ℕ
  h = hashtable_str_hash key % capacity

  array-none :
      (i : ℕ) (array : List (List Entry))
      → Homed capacity i array
      → h < i
      → total bad (hashtable_foreach array) ≡ 0
      → total (same key) (hashtable_foreach array) ≡ 0
  unfolding total hashtable_foreach
  array-none i [] homed lt strings = refl
  array-none i (chain ∷ array) homed lt strings =
      let split = total-append bad chain (hashtable_foreach array) in
      omega (
        arith,
        total-append (same key) chain (hashtable_foreach array),
        chain-none capacity i chain key (homed.0) (λ e. absurd (omega (arith, e, lt)))
            (omega (arith, split, strings)) is,
        array-none (i + 1) array (homed.1) (omega (arith, lt)) (omega (arith, split, strings)),
      )

  array-bucket :
      (i : ℕ) (array : List (List Entry))
      → Homed capacity i array
      → i ≤ h
      → total bad (hashtable_foreach array) ≡ 0
      → total (same key) (hashtable_foreach array) ≡ total (same key) (bucket_at array (h - i))
  unfolding total hashtable_foreach bucket_at
  array-bucket i [] homed le strings = refl
  array-bucket i (chain ∷ array) homed le strings =
      let split = total-append bad chain (hashtable_foreach array) in
      let both = total-append (same key) chain (hashtable_foreach array) in
      elim (Bool-cases (h == i)) [
        | inl at ↦
            let here : h - i ≡ 0 = ground (arith, at) in
            omega (
              arith,
              both,
              array-none (i + 1) array (homed.1) (ground (arith, at))
                  (omega (arith, split, strings)),
              ap (λ j. total (same key) (bucket_at (chain ∷ array) j)) here,
            )
        | inr off ↦
            let past : h - i ≡ suc (h - (i + 1)) = ground (arith, off, le) in
            omega (
              arith,
              both,
              chain-none capacity i chain key (homed.0) (λ e. absurd (ground (arith, off, e)))
                  (omega (arith, split, strings)) is,
              array-bucket (i + 1) array (homed.1) (ground (arith, off, le))
                  (omega (arith, split, strings)),
              ap (λ j. total (same key) (bucket_at (chain ∷ array) j)) past,
            )
      ]

moved-IsStringSet :
    (hashtable : Hashtable) (keys : List (List ℕ))
    → IsStringSet hashtable keys
    → (granted : Bool)
    → IsStringSet (hashtable_resize hashtable_str_compare hashtable_str_hash granted hashtable) keys
unfolding hashtable_resize
moved-IsStringSet hashtable keys is granted =
    elim (Bool-cases (ltb (2 * hashtable.count) hashtable.capacity)) [
      | inl low ↦ rw low is
      | inr high ↦ elim (Bool-cases granted) [
        | inr no_memory ↦ rw (high, no_memory) is
        | inl memory ↦ rw (high, memory) moved
      ]
    ]
  where
    weighs :
        (weight : Entry → ℕ)
        → total weight (
            hashtable_foreach (
              move_chains hashtable_str_compare hashtable_str_hash
                (hashtable.capacity * 2)
                (replicate (hashtable.capacity * 2) [])
                hashtable.array))
          ≡ total weight (hashtable_foreach hashtable.array)
    weighs weight = omega (
      arith,
      total-move_chains weight hashtable.array (hashtable.capacity * 2)
          (replicate (hashtable.capacity * 2) []) (omega (arith, is.pos))
          (length-replicate (hashtable.capacity * 2) []),
      total-replicate weight (hashtable.capacity * 2),
    )

    moved :
        IsStringSet
          (record hashtable {
            capacity = hashtable.capacity * 2;
            array =
                move_chains hashtable_str_compare hashtable_str_hash
                  (hashtable.capacity * 2)
                  (replicate (hashtable.capacity * 2) [])
                  hashtable.array;
          })
          keys
    moved = record {
      pos = omega (arith, is.pos);
      size =
          length-move_chains hashtable.array (hashtable.capacity * 2)
            (replicate (hashtable.capacity * 2) [])
          ∙ length-replicate (hashtable.capacity * 2) [];
      homed =
          Homed-move_chains hashtable.array (hashtable.capacity * 2)
            (replicate (hashtable.capacity * 2) [])
            (Homed-replicate (hashtable.capacity * 2) (hashtable.capacity * 2) 0);
      counted = weighs one ∙ is.counted;
      strings = weighs bad ∙ is.strings;
      found = λ key key_is. ap (λ n. leb 1 n) (weighs (same key)) ∙ is.found key key_is;
    }

module _ (hashtable : Hashtable) (keys : List (List ℕ)) (set_of : IsStringSet hashtable keys) where
  pub lookup-IsStringSet :
      (key : List ℕ)
      → is_key key ≡ true
      → is_some (lookup hashtable_str_compare hashtable_str_hash hashtable key) ≡ member keys key
  unfolding lookup
  lookup-IsStringSet key is =
      let whole : hashtable_str_hash key % hashtable.capacity - 0
          ≡ hashtable_str_hash key % hashtable.capacity =
        omega arith in
      find-total (bucket_at hashtable.array (hashtable_str_hash key % hashtable.capacity)) key
      ∙ ap (λ i. leb 1 (total (same key) (bucket_at hashtable.array i))) (sym whole)
      ∙ ap (λ n. leb 1 n)
          (sym (
            array-bucket hashtable.capacity key is 0 hashtable.array set_of.homed (omega arith)
              set_of.strings))
      ∙ set_of.found key is

  module _ (key value : List ℕ) (is : is_key key ≡ true) where
    abbrev added : Entry
    added = record { key = key; value = value }

    abbrev with_entry : Hashtable
    with_entry = record hashtable {
      count = hashtable.count + 1;
      array =
          add_entry hashtable_str_compare hashtable_str_hash hashtable.capacity hashtable.array
            added;
    }

    weighs :
        (weight : Entry → ℕ)
        → total weight (hashtable_foreach with_entry.array)
          ≡ weight added + total weight (hashtable_foreach hashtable.array)
    weighs weight =
        total-add_entry weight hashtable.capacity hashtable.array added set_of.pos set_of.size

    with_entry-IsStringSet : IsStringSet with_entry (key ∷ keys)
    with_entry-IsStringSet = record {
      pos = set_of.pos;
      size =
          length-add hashtable_str_compare hashtable_str_hash hashtable.capacity hashtable.array
            added
          ∙ set_of.size;
      homed = Homed-add_entry hashtable.capacity hashtable.array added set_of.homed;
      counted = omega (arith, weighs one, set_of.counted);
      strings = ground (arith, weighs bad, set_of.strings, is);
      found = λ k k_is.
          ap (λ n. leb 1 n) (weighs (same k))
          ∙ more k (set_of.found k k_is) (str_compare_lem key k is k_is);
    }
      where
        more :
            (k : List ℕ)
            → leb 1 (total (same k) (hashtable_foreach hashtable.array)) ≡ member keys k
            → hashtable_str_compare key k ≡ str_eq key k
            → leb 1 (
                (if hashtable_str_compare key k then 1 else 0)
                + total (same k) (hashtable_foreach hashtable.array))
              ≡ (str_eq key k || member keys k)
        more k e c = rw (← e, c) (ground arith)

    pub hashtable_put-IsStringSet :
        (resize_granted : Bool)
        → member keys key ≡ false
        → 0 < length value
        → Returns
            (hashtable_put hashtable_str_compare hashtable_str_hash true resize_granted hashtable
              key value)
            (λ out. (out.0 ≡ true) × IsStringSet (out.1) (key ∷ keys))
    unfolding hashtable_put lookup
    hashtable_put-IsStringSet resize_granted new some_value =
        let absent : find_entry hashtable_str_compare hashtable_str_hash
              (bucket_at hashtable.array (hashtable_str_hash key % hashtable.capacity)) key
            ≡ none =
          none_of _ (lookup-IsStringSet key is ∙ new) in
        let filled : (length key == 0 || length value == 0) ≡ false =
          ground (arith, key_pos key is) in
        (
          (
            true,
            hashtable_resize hashtable_str_compare hashtable_str_hash resize_granted with_entry,
          ),
          rw (filled, absent) refl,
          (refl, moved-IsStringSet with_entry (key ∷ keys) with_entry-IsStringSet resize_granted),
        )

-- A table that `hashtable_init` makes.
pub init-IsStringSet :
    (hashtable : Hashtable) → hashtable_init true ≡ some hashtable → IsStringSet hashtable []
unfolding hashtable_init
init-IsStringSet hashtable made =
    let start : record { count = 0; capacity = 16; array = replicate 16 [] } ≡ hashtable =
      cc made in
    subst (λ t. IsStringSet t []) start
      (record {
        pos = omega arith;
        size = refl;
        homed = Homed-replicate 16 16 0;
        counted = total-replicate one 16;
        strings = total-replicate bad 16;
        found = λ key is. ap (λ n. leb 1 n) (total-replicate (same key) 16);
      })
