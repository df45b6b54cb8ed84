-- ===== src/Datastructure/Hashtable/Emptied.antt =====
-- The end of a table of strings of src/datastructure/hashtable.c: its entries are removed one after
-- the other, in the order in which `hashtable_foreach` passes them.
use midori_db.Prelude.{
  ℕ, suc, ◌+◌, ◌-◌, ◌%◌, ◌<◌, ◌≡◌, refl, sym, ap, ◌∙◌, true, false, List, [], ◌∷◌, length, set,
  some, ◌==◌, ok, Returns, arith,
}
use midori_db.Primitive.Name.Laws.{str_eq_refl}
use midori_db.Datastructure.Hashtable.{
  Entry, Hashtable, bucket_at, find_entry, remove_entry, hashtable_remove, hashtable_free,
  all_empty, hashtable_foreach, up_to_nul, hashtable_str_compare, hashtable_str_hash,
}
use midori_db.Datastructure.Hashtable.Strings.{total, IsAt, Homed}
use midori_db.Datastructure.Hashtable.StringSet.{one, bad, IsStringSet, key_pos}

-- The first entry stands at the front of its chain.
record IsFront (capacity i : ℕ) (array : List (List Entry)) (e : Entry) (rest : List Entry)
    : Type 0 where
  place : ℕ
  chain : List Entry
  here : bucket_at array place ≡ e ∷ chain
  at : IsAt capacity (i + place) e
  without : hashtable_foreach (set array place chain) ≡ rest
  homed : Homed capacity i (set array place chain)

front :
    (capacity i : ℕ) (array : List (List Entry)) (e : Entry) (rest : List Entry)
    → hashtable_foreach array ≡ e ∷ rest
    → Homed capacity i array
    → IsFront capacity i array e rest
unfolding hashtable_foreach bucket_at
front capacity i [] e rest same homed = absurd (cc same)
front capacity i ([] ∷ array) e rest same homed =
    let f = front capacity (i + 1) array e rest same (homed.1) in
    record {
      place = suc f.place;
      chain = f.chain;
      here = f.here;
      at = f.at ∙ omega arith;
      without = f.without;
      homed = (tt, f.homed);
    }
front capacity i ((x ∷ chain) ∷ array) e rest same homed =
    let first : x ≡ e = cc same in
    record {
      place = 0;
      chain = chain;
      here = ap (λ y. y ∷ chain) first;
      at = ap (λ y. hashtable_str_hash y.key % capacity) (sym first) ∙ homed.0.0 ∙ omega arith;
      without = cc same;
      homed = (homed.0.1, homed.1);
    }

-- A table with the entries `entries` in the order of its chains.
pub record IsTidy (hashtable : Hashtable) (entries : List Entry) : Type 0 where
  pub homed : Homed hashtable.capacity 0 hashtable.array
  pub counted : hashtable.count ≡ length entries
  pub strings : total bad entries ≡ 0
  pub order : hashtable_foreach hashtable.array ≡ entries

total-one : (entries : List Entry) → total one entries ≡ length entries
unfolding total
total-one [] = refl
total-one (e ∷ entries) = omega (arith, total-one entries)

pub IsStringSet-IsTidy :
    (hashtable : Hashtable) (keys : List (List ℕ))
    → IsStringSet hashtable keys
    → IsTidy hashtable (hashtable_foreach hashtable.array)
IsStringSet-IsTidy hashtable keys is = record {
  homed = is.homed;
  counted = sym is.counted ∙ total-one (hashtable_foreach hashtable.array);
  strings = is.strings;
  order = refl;
}

compare_refl : (key : List ℕ) → hashtable_str_compare key key ≡ true
unfolding hashtable_str_compare
compare_refl key = str_eq_refl (up_to_nul key)

remove_front :
    (hashtable : Hashtable) (e : Entry) (place : ℕ) (chain : List Entry)
    → hashtable_str_hash e.key % hashtable.capacity ≡ place
    → bucket_at hashtable.array place ≡ e ∷ chain
    → 0 < length e.key
    → hashtable_remove hashtable_str_compare hashtable_str_hash hashtable e.key
      ≡ ok (
        some e,
        record hashtable { count = hashtable.count - 1; array = set hashtable.array place chain },
      )
unfolding hashtable_remove find_entry remove_entry
remove_front hashtable e place chain at here some_key =
    let filled : (length e.key == 0) ≡ false = ground arith in
    rw (filled, at, here, compare_refl e.key, at, here, compare_refl e.key) refl

pub hashtable_remove-IsTidy :
    (hashtable : Hashtable) (e : Entry) (rest : List Entry)
    → IsTidy hashtable (e ∷ rest)
    → Returns
        (hashtable_remove hashtable_str_compare hashtable_str_hash hashtable e.key)
        (λ out. (out.0 ≡ some e) × IsTidy (out.1) rest)
unfolding total
hashtable_remove-IsTidy hashtable e rest is =
    let f = front hashtable.capacity 0 hashtable.array e rest is.order is.homed in
    (
      (
        some e,
        record hashtable {
          count = hashtable.count - 1;
          array = set hashtable.array f.place f.chain;
        },
      ),
      remove_front hashtable e f.place f.chain (f.at ∙ omega arith) f.here
          (key_pos e.key (ground (arith, is.strings))),
      (
        refl,
        record {
          homed = f.homed;
          counted = omega (arith, is.counted);
          strings = omega (arith, is.strings);
          order = f.without;
        },
      ),
    )

pub hashtable_free-IsTidy :
    (hashtable : Hashtable) → IsTidy hashtable [] → hashtable_free hashtable ≡ ok tt
unfolding hashtable_free hashtable_foreach
hashtable_free-IsTidy hashtable is = rw (is.counted, all_empty_lem hashtable.array is.order) refl
  where
    all_empty_lem :
        (array : List (List Entry)) → hashtable_foreach array ≡ [] → all_empty array ≡ true
    all_empty_lem [] same = refl
    all_empty_lem ([] ∷ array) same = all_empty_lem array same
    all_empty_lem ((x ∷ chain) ∷ array) same = absurd (cc same)
