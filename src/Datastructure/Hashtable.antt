-- ===== src/Datastructure/Hashtable.antt =====
-- include/datastructure/hashtable.h and src/datastructure/hashtable.c: a hash table with chains.
pub mod Entries
pub mod Resize
pub mod Laws
pub mod Remove
pub mod Strings
pub mod StringMap
pub mod StringSet
pub mod Emptied
use midori_db.Prelude.{
  ℕ, zero, suc, ◌+◌, ◌-◌, ◌*◌, ◌%◌, ◌^◌, Bool, true, false, ◌||◌, List, [], ◌∷◌, ◌++◌, length,
  replicate, get_elem?, set, Option, none, some, ltb, ◌==◌, if◌then◌else◌, Outcome, ok, fault,
  segfault, bug_if, ◌>>=◌, ◌>>◌,
}
use midori_db.Primitive.Name.{str_eq}

-- `struct hashtable_entry`: the bytes of the copies of its key and of its value.
pub record Entry : Type 0 where
  pub key : List ℕ
  pub value : List ℕ

-- `struct hashtable` without its two functions. `array` has the list behind each head.
pub record Hashtable : Type 0 where
  pub count : ℕ
  pub capacity : ℕ
  pub array : List (List Entry)

abbrev pub hashtable_default_capacity : ℕ
hashtable_default_capacity = 16

-- The head at place `i` of the array.
unfoldable pub bucket_at : List (List Entry) → ℕ → List Entry
bucket_at [] i = []
bucket_at (b ∷ array) zero = b
bucket_at (b ∷ array) (suc i) = bucket_at array i

-- `granted` says whether all the requests of `array_init` and of the array are met.
unfoldable pub hashtable_init : Bool → Option Hashtable
hashtable_init granted =
    if granted
    then some (record {
      count = 0;
      capacity = hashtable_default_capacity;
      array = replicate hashtable_default_capacity [];
    })
    else none

unfoldable pub all_empty : List (List Entry) → Bool
all_empty [] = true
all_empty ([] ∷ array) = all_empty array
all_empty ((_ ∷ _) ∷ array) = false

-- `hashtable_free`: it ends the process if an entry is left.
unfoldable pub hashtable_free : Hashtable → Outcome (Unit {0})
unfolding all_empty
hashtable_free hashtable =
    bug_if
      (if hashtable.count == 0 then (if all_empty hashtable.array then false else true) else true)

-- The functions of a table, `compare_fn` and `hash_fn`.
module _ (compare_fn : List ℕ → List ℕ → Bool) (hash_fn : List ℕ → ℕ) where
  -- The loop over a chain of `hashtable_put` and `hashtable_get`.
  unfoldable pub find_entry : List Entry → List ℕ → Option Entry
  find_entry [] key = none
  find_entry (entry ∷ entries) key =
      let rest = find_entry entries key in if compare_fn entry.key key then some entry else rest

  -- `list_add` of an entry to its chain in an array of `capacity` chains.
  unfoldable pub add_entry : ℕ → List (List Entry) → Entry → List (List Entry)
  add_entry capacity array entry =
      let i = hash_fn entry.key % capacity in set array i (entry ∷ bucket_at array i)

  -- The loop over a chain of `hashtable_resize`, and the one over the chains.
  unfoldable pub move_entries : ℕ → List (List Entry) → List Entry → List (List Entry)
  move_entries capacity array [] = array
  move_entries capacity array (entry ∷ entries) =
      move_entries capacity (add_entry capacity array entry) entries

  unfoldable pub move_chains : ℕ → List (List Entry) → List (List Entry) → List (List Entry)
  move_chains capacity array [] = array
  move_chains capacity array (chain ∷ chains) =
      move_chains capacity (move_entries capacity array chain) chains

  -- The load factor is below 0.5 exactly if twice the count is below the capacity.
  unfoldable pub hashtable_resize : Bool → Hashtable → Hashtable
  unfolding move_chains
  hashtable_resize granted hashtable =
      if ltb (2 * hashtable.count) hashtable.capacity
      then hashtable
      else if granted
      then record hashtable {
        capacity = hashtable.capacity * 2;
        array =
            move_chains (hashtable.capacity * 2) (replicate (hashtable.capacity * 2) [])
              hashtable.array;
      }
      else hashtable

  -- `granted` is for the three requests of the entry, `resize_granted` for those of the resize. The
  -- size of the key and of the value is the length of the list.
  unfoldable pub hashtable_put :
      Bool → Bool → Hashtable → List ℕ → List ℕ → Outcome (Bool × Hashtable)
  unfolding find_entry add_entry hashtable_resize
  hashtable_put granted resize_granted hashtable key value =
      bug_if (length key == 0 || length value == 0)
      >> ok (
          if granted
          then elim (find_entry (bucket_at hashtable.array (hash_fn key % hashtable.capacity))
              key) [
                | some _ ↦ (false, hashtable)
                | none ↦ (
                  true,
                  hashtable_resize resize_granted (record hashtable {
                    count = hashtable.count + 1;
                    array =
                        add_entry hashtable.capacity hashtable.array
                          (record { key = key; value = value });
                  }),
                )
              ]
          else (false, hashtable))

  unfoldable pub lookup : Hashtable → List ℕ → Option Entry
  unfolding find_entry
  lookup hashtable key =
      find_entry (bucket_at hashtable.array (hash_fn key % hashtable.capacity)) key

  -- The entry whose `value` the source returns the address of.
  unfoldable pub hashtable_get : Hashtable → List ℕ → Outcome (Option Entry)
  unfolding lookup
  hashtable_get hashtable key = bug_if (length key == 0) >> ok (lookup hashtable key)

  -- A chain without the first entry of the key.
  unfoldable pub remove_entry : List Entry → List ℕ → List Entry
  remove_entry [] key = []
  remove_entry (entry ∷ entries) key =
      let rest = remove_entry entries key in
      if compare_fn entry.key key then entries else entry ∷ rest

  unfoldable pub hashtable_remove : Hashtable → List ℕ → Outcome (Option Entry × Hashtable)
  unfolding find_entry remove_entry
  hashtable_remove hashtable key =
      let i = hash_fn key % hashtable.capacity in
      let chain = bucket_at hashtable.array i in
      bug_if (length key == 0)
      >> ok (elim (find_entry chain key) [
        | none ↦ (none, hashtable)
        | some entry ↦ (
          some entry,
          record hashtable {
            count = hashtable.count - 1;
            array = set hashtable.array i (remove_entry chain key);
          },
        )
      ])

-- `hashtable_foreach`: the entries that it passes to its callback, in order. The callback may take
-- the entry that it is given out of the table, as the loop has read the next one before.
unfoldable pub hashtable_foreach : List (List Entry) → List Entry
hashtable_foreach [] = []
hashtable_foreach (chain ∷ array) = chain ++ hashtable_foreach array

-- A C string and its NUL: `strcmp` reads up to it.
unfoldable pub up_to_nul : List ℕ → List ℕ
up_to_nul [] = []
up_to_nul (c ∷ cs) = let rest = up_to_nul cs in if c == 0 then [] else c ∷ rest

unfoldable pub hashtable_str_compare : List ℕ → List ℕ → Bool
unfolding str_eq up_to_nul
hashtable_str_compare key1 key2 = str_eq (up_to_nul key1) (up_to_nul key2)

-- The hash is a `size_t`, of 64 bits. The characters are `char`, which is signed.
abbrev pub sign_extended : ℕ → ℕ
sign_extended c = if ltb c 128 then c else 2 ^ 64 - 256 + c

unfoldable pub str_hash_from : ℕ → List ℕ → ℕ
str_hash_from hash [] = hash
str_hash_from hash (c ∷ cs) = str_hash_from ((hash * 32 + hash + sign_extended c) % 2 ^ 64) cs

unfoldable pub hashtable_str_hash : List ℕ → ℕ
unfolding str_hash_from
hashtable_str_hash key = str_hash_from 5381 key
