-- ===== src/Datastructure/Hashtable/Entries.antt =====
-- Chains of entries, the entries of a key in them, and the chains of an array in one row.
use midori_db.Prelude.{
  ℕ, zero, suc, ◌+◌, ◌%◌, ◌<◌, ◌≤◌, ◌≡◌, refl, sym, ap, append_assoc, ◌∙◌, Bool, false, List, [],
  ◌∷◌, ◌++◌, Bool-cases, inl, inr, length, length-set, set, Option, none, some, ◌==◌, if◌then◌else◌,
  arith,
}
use midori_db.Datastructure.Hashtable.{Entry, hashtable_foreach, bucket_at, find_entry, add_entry}

pub bucket_at-set_self :
    (array : List (List Entry)) (i : ℕ) (b : List Entry)
    → i < length array
    → bucket_at (set array i b) i ≡ b
unfolding bucket_at
bucket_at-set_self [] i b lt = absurd (omega arith)
bucket_at-set_self (c ∷ array) zero b lt = refl
bucket_at-set_self (c ∷ array) (suc i) b lt = bucket_at-set_self array i b (omega arith)

pub bucket_at-set_ne :
    (array : List (List Entry)) (i j : ℕ) (b : List Entry)
    → (i == j) ≡ false
    → bucket_at (set array i b) j ≡ bucket_at array j
unfolding bucket_at
bucket_at-set_ne [] i j b ne = refl
bucket_at-set_ne (c ∷ array) zero zero b ne = absurd (ground (arith, ne))
bucket_at-set_ne (c ∷ array) zero (suc j) b ne = refl
bucket_at-set_ne (c ∷ array) (suc i) zero b ne = refl
bucket_at-set_ne (c ∷ array) (suc i) (suc j) b ne =
    bucket_at-set_ne array i j b (ground (arith, ne))

pub length-add :
    (compare_fn : List ℕ → List ℕ → Bool) (hash_fn : List ℕ → ℕ) (capacity : ℕ)
    (array : List (List Entry)) (entry : Entry)
    → length (add_entry compare_fn hash_fn capacity array entry) ≡ length array
unfolding add_entry
length-add compare_fn hash_fn capacity array entry =
    length-set array (hash_fn entry.key % capacity)
      (entry ∷ bucket_at array (hash_fn entry.key % capacity))

-- The entries in front of a chain, the chain, and those behind it.
pub record SplitAt (array : List (List Entry)) (i : ℕ) : Type 0 where
  pub before : List Entry
  pub behind : List Entry
  pub split : hashtable_foreach array ≡ before ++ (bucket_at array i ++ behind)
  pub put : (b : List Entry) → hashtable_foreach (set array i b) ≡ before ++ (b ++ behind)

pub split_at : (array : List (List Entry)) (i : ℕ) → i < length array → SplitAt array i
unfolding hashtable_foreach bucket_at
split_at [] i lt = absurd (omega arith)
split_at (c ∷ array) zero lt = record {
  before = [];
  behind = hashtable_foreach array;
  split = refl;
  put = λ b. refl;
}
split_at (c ∷ array) (suc i) lt =
    let s = split_at array i (omega arith) in
    record {
      before = c ++ s.before;
      behind = s.behind;
      split =
          ap (λ r. c ++ r) s.split ∙ sym (append_assoc c s.before (bucket_at array i ++ s.behind));
      put = λ b. ap (λ r. c ++ r) (s.put b) ∙ sym (append_assoc c s.before (b ++ s.behind));
    }

module _ (compare_fn : List ℕ → List ℕ → Bool) (hash_fn : List ℕ → ℕ) where
  abbrev pub find : List Entry → List ℕ → Option Entry
  find = find_entry compare_fn hash_fn

  -- How many of some entries have a key.
  unfoldable pub matches : List Entry → List ℕ → ℕ
  matches [] key = 0
  matches (entry ∷ entries) key = (if compare_fn entry.key key then 1 else 0) + matches entries key

  pub matches-append :
      (a b : List Entry) (key : List ℕ) → matches (a ++ b) key ≡ matches a key + matches b key
  unfolding matches
  matches-append [] b key = omega arith
  matches-append (x ∷ a) b key = omega (arith, matches-append a b key)

  -- The last entry of a key, or `acc`.
  unfoldable pub last_of : Option Entry → List Entry → List ℕ → Option Entry
  last_of acc [] key = acc
  last_of acc (entry ∷ entries) key =
      last_of (if compare_fn entry.key key then some entry else acc) entries key

  pub last_of-append :
      (acc : Option Entry) (a b : List Entry) (key : List ℕ)
      → last_of acc (a ++ b) key ≡ last_of (last_of acc a key) b key
  unfolding last_of
  last_of-append acc [] b key = refl
  last_of-append acc (x ∷ a) b key =
      last_of-append (if compare_fn x.key key then some x else acc) a b key

  pub last_of-none :
      (acc : Option Entry) (a : List Entry) (key : List ℕ)
      → matches a key ≡ 0
      → last_of acc a key ≡ acc
  unfolding last_of matches
  last_of-none acc [] key z = refl
  last_of-none acc (x ∷ a) key z = elim (Bool-cases (compare_fn x.key key)) [
    | inl e ↦ absurd (ground (arith, z, e))
    | inr e ↦ rw e (last_of-none acc a key (ground (arith, z, e)))
  ]

  pub find-none : (a : List Entry) (key : List ℕ) → matches a key ≡ 0 → find a key ≡ none
  unfolding find_entry matches
  find-none [] key z = refl
  find-none (x ∷ a) key z = elim (Bool-cases (compare_fn x.key key)) [
    | inl e ↦ absurd (ground (arith, z, e))
    | inr e ↦ rw e (find-none a key (ground (arith, z, e)))
  ]

  pub none-find : (a : List Entry) (key : List ℕ) → find a key ≡ none → matches a key ≡ 0
  unfolding find_entry matches
  none-find [] key n = refl
  none-find (x ∷ a) key n = elim (Bool-cases (compare_fn x.key key)) [
    | inl e ↦ absurd (ground (arith, n, e))
    | inr e ↦ ground (arith, e, none-find a key (ground (arith, n, e)))
  ]

  pub last_of-find :
      (a : List Entry) (key : List ℕ) → matches a key ≤ 1 → last_of none a key ≡ find a key
  unfolding last_of find_entry matches
  last_of-find [] key le = refl
  last_of-find (x ∷ a) key le = elim (Bool-cases (compare_fn x.key key)) [
    | inl e ↦ rw e (last_of-none (some x) a key (ground (arith, le, e)))
    | inr e ↦ rw e (last_of-find a key (ground (arith, le, e)))
  ]
