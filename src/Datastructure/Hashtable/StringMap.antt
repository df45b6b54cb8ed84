-- ===== src/Datastructure/Hashtable/StringMap.antt =====
-- A table of src/datastructure/hashtable.c as a map from C strings: its operations with the two
-- functions that the program gives it, hashtable_str_compare and hashtable_str_hash.
--
-- hashtable_str_compare reads up to the NUL and hashtable_str_hash the whole key, so the laws of the
-- table need keys that are C strings: those whose first NUL is their last byte.
pub mod Laws
use native.Mathlib.Nat.{mod-lt}
use midori_db.Prelude.{
  ℕ, zero, suc, ◌+◌, ◌-◌, ◌*◌, ◌%◌, ◌<◌, ◌≤◌, ◌≡◌, refl, sym, ap, ◌∙◌, Bool, true, false, ◌||◌,
  List, [], ◌∷◌, ◌++◌, Bool-cases, inl, inr, length, length-replicate, replicate, set, Option, none,
  some, ltb, ◌==◌, if◌then◌else◌, ok, Returns, arith,
}
use mathlib.Core.Path.{subst}
use midori_db.Primitive.Name.{str_eq}
use midori_db.Primitive.Name.Laws.{str_eq_iff, str_eq_refl}
use midori_db.Datastructure.Hashtable.{
  Entry, Hashtable, bucket_at, find_entry, remove_entry, add_entry, move_entries, move_chains,
  hashtable_resize, hashtable_put, hashtable_get, hashtable_remove, hashtable_foreach,
  hashtable_init, lookup, hashtable_str_compare, hashtable_str_hash,
}
use midori_db.Datastructure.Hashtable.Entries.{split_at}
use midori_db.Datastructure.Hashtable.Laws.{IsHashtable, Put, init-IsHashtable, hashtable_put-Put}
use midori_db.Datastructure.Hashtable.Remove.{Removed, hashtable_remove-Removed}
use midori_db.Datastructure.Hashtable.Strings.{
  is_key, str_compare_lem, total, total-append, total-add_entry, total-move_chains, total-replicate,
}
use midori_db.Datastructure.Hashtable.StringSet.{bad, key_pos}

pub same_hash : (a b : List ℕ) → str_eq a b ≡ true → hashtable_str_hash a ≡ hashtable_str_hash b
same_hash a b e = ap hashtable_str_hash ((str_eq_iff a b).0 e)

pub same_class : (a b c : List ℕ) → str_eq a b ≡ true → str_eq c a ≡ str_eq c b
same_class a b c e = ap (str_eq c) ((str_eq_iff a b).0 e)

-- What a key has.
abbrev pub value_of : Hashtable → List ℕ → Option Entry
value_of = lookup hashtable_str_compare hashtable_str_hash

-- What a C string has: nothing stands at another key.
abbrev pub at_string : Hashtable → List ℕ → Option Entry
at_string hashtable key = if is_key key then value_of hashtable key else none

-- A table whose keys are C strings, each of them once and in its chain.
pub record IsStringMap (hashtable : Hashtable) : Type 0 where
  pub valid : IsHashtable str_eq hashtable_str_hash same_hash same_class hashtable
  pub strings : total bad (hashtable_foreach hashtable.array) ≡ 0

-- On C strings the two comparisons agree.
find-agree :
    (entries : List Entry) (key : List ℕ)
    → total bad entries ≡ 0
    → is_key key ≡ true
    → find_entry hashtable_str_compare hashtable_str_hash entries key
      ≡ find_entry str_eq hashtable_str_hash entries key
unfolding find_entry total
find-agree [] key strings is = refl
find-agree (e ∷ entries) key strings is =
    let e_key : is_key e.key ≡ true = ground (arith, strings) in
    rw (str_compare_lem e.key key e_key is, find-agree entries key (omega (arith, strings)) is) refl

pub remove-agree :
    (entries : List Entry) (key : List ℕ)
    → total bad entries ≡ 0
    → is_key key ≡ true
    → remove_entry hashtable_str_compare hashtable_str_hash entries key
      ≡ remove_entry str_eq hashtable_str_hash entries key
unfolding remove_entry total
remove-agree [] key strings is = refl
remove-agree (e ∷ entries) key strings is =
    let e_key : is_key e.key ≡ true = ground (arith, strings) in
    rw (str_compare_lem e.key key e_key is, remove-agree entries key (omega (arith, strings)) is)
      refl

entries-agree :
    (capacity : ℕ) (array : List (List Entry)) (entries : List Entry)
    → move_entries hashtable_str_compare hashtable_str_hash capacity array entries
      ≡ move_entries str_eq hashtable_str_hash capacity array entries
unfolding move_entries add_entry
entries-agree capacity array [] = refl
entries-agree capacity array (e ∷ entries) =
    entries-agree capacity (add_entry str_eq hashtable_str_hash capacity array e) entries

chains-agree :
    (capacity : ℕ) (array chains : List (List Entry))
    → move_chains hashtable_str_compare hashtable_str_hash capacity array chains
      ≡ move_chains str_eq hashtable_str_hash capacity array chains
unfolding move_chains
chains-agree capacity array [] = refl
chains-agree capacity array (chain ∷ chains) =
    ap (λ a. move_chains hashtable_str_compare hashtable_str_hash capacity a chains)
      (entries-agree capacity array chain)
    ∙ chains-agree capacity (move_entries str_eq hashtable_str_hash capacity array chain) chains

pub resize-agree :
    (granted : Bool) (hashtable : Hashtable)
    → hashtable_resize hashtable_str_compare hashtable_str_hash granted hashtable
      ≡ hashtable_resize str_eq hashtable_str_hash granted hashtable
unfolding hashtable_resize
resize-agree granted hashtable =
    ap
      (λ moved.
        if ltb (2 * hashtable.count) hashtable.capacity
        then hashtable
        else if granted
        then record hashtable { capacity = hashtable.capacity * 2; array = moved }
        else hashtable)
      (chains-agree (hashtable.capacity * 2) (replicate (hashtable.capacity * 2) [])
        hashtable.array)

pub resize-strings :
    (granted : Bool) (hashtable : Hashtable)
    → 0 < hashtable.capacity
    → total bad (hashtable_foreach hashtable.array) ≡ 0
    → total bad (
        hashtable_foreach
          (hashtable_resize hashtable_str_compare hashtable_str_hash granted hashtable).array)
      ≡ 0
unfolding hashtable_resize
resize-strings granted hashtable pos strings =
    elim (Bool-cases (ltb (2 * hashtable.count) hashtable.capacity)) [
      | inl low ↦ rw low strings
      | inr high ↦ elim (Bool-cases granted) [
        | inr no_memory ↦ rw (high, no_memory) strings
        | inl memory ↦
            rw (high, memory)
              (omega (
                arith,
                total-move_chains bad hashtable.array (hashtable.capacity * 2)
                    (replicate (hashtable.capacity * 2) []) (omega (arith, pos))
                    (length-replicate (hashtable.capacity * 2) []),
                total-replicate bad (hashtable.capacity * 2),
                strings,
              ))
      ]
    ]

pub total-remove :
    (entries : List Entry) (key : List ℕ)
    → total bad (remove_entry hashtable_str_compare hashtable_str_hash entries key)
      ≤ total bad entries
unfolding remove_entry total
total-remove [] key = omega arith
total-remove (e ∷ entries) key = elim (Bool-cases (hashtable_str_compare e.key key)) [
  | inl this ↦ rw this (omega arith)
  | inr other ↦ rw other (omega (arith, total-remove entries key))
]

module _ (hashtable : Hashtable) (is : IsStringMap hashtable) where
  abbrev at : List ℕ → ℕ
  at key = hashtable_str_hash key % hashtable.capacity

  pub at_lt : (key : List ℕ) → at key < length hashtable.array
  at_lt key =
      omega (
        arith,
        is.valid.size,
        mod-lt (hashtable_str_hash key) {m = hashtable.capacity} is.valid.pos,
      )

  pub chain-strings : (key : List ℕ) → total bad (bucket_at hashtable.array (at key)) ≡ 0
  chain-strings key =
      let s = split_at hashtable.array (at key) (at_lt key) in
      omega (
        arith,
        is.strings,
        ap (total bad) s.split,
        total-append bad s.before (bucket_at hashtable.array (at key) ++ s.behind),
        total-append bad (bucket_at hashtable.array (at key)) s.behind,
      )

  pub lookup-agree :
      (key : List ℕ)
      → is_key key ≡ true
      → value_of hashtable key ≡ lookup str_eq hashtable_str_hash hashtable key
  unfolding lookup
  lookup-agree key string =
      find-agree (bucket_at hashtable.array (at key)) key (chain-strings key) string
