-- ===== src/Datastructure/Hashtable/Strings.antt =====
-- A table of src/datastructure/hashtable.c whose keys are C strings with their NUL, compared and
-- hashed by hashtable_str_compare and hashtable_str_hash, as a set of keys.
use midori_db.Prelude.{
  ℕ, zero, suc, ◌+◌, ◌%◌, ◌<◌, ◌≡◌, refl, ap, ◌∙◌, Bool, true, false, ◌&&◌, not, List, [], ◌∷◌,
  ◌++◌, length, All, set, replicate, ◌==◌, arith,
}
use native.Mathlib.Nat.{mod-lt}
use midori_db.Primitive.Name.{str_eq}
use midori_db.Datastructure.Hashtable.{
  Entry, bucket_at, add_entry, move_entries, move_chains, hashtable_foreach, up_to_nul,
  hashtable_str_compare, hashtable_str_hash,
}
use mathlib.Core.Path.{subst}
use midori_db.Datastructure.Hashtable.Entries.{length-add, split_at}

-- A string and its NUL.
unfoldable pub is_key : List ℕ → Bool
is_key [] = false
is_key (c ∷ []) = c == 0
is_key (c ∷ d ∷ key) = not (c == 0) && is_key (d ∷ key)

-- On such keys the two comparisons agree.
pub str_compare_lem :
    (a b : List ℕ) → is_key a ≡ true → is_key b ≡ true → hashtable_str_compare a b ≡ str_eq a b
unfolding is_key hashtable_str_compare up_to_nul str_eq
str_compare_lem [] b key_a key_b = absurd (cc key_a)
str_compare_lem (x ∷ a) [] key_a key_b = absurd (cc key_b)
str_compare_lem (x ∷ []) (y ∷ []) key_a key_b = ground (arith, key_a, key_b)
str_compare_lem (x ∷ []) (y ∷ d ∷ b) key_a key_b = ground (arith, key_a, key_b)
str_compare_lem (x ∷ c ∷ a) (y ∷ []) key_a key_b = ground (arith, key_a, key_b)
str_compare_lem (x ∷ c ∷ a) (y ∷ d ∷ b) key_a key_b =
    let rest = str_compare_lem (c ∷ a) (d ∷ b) in ground (arith, key_a, key_b, rest)

-- What some entries weigh together.
unfoldable pub total : (Entry → ℕ) → List Entry → ℕ
total weight [] = 0
total weight (entry ∷ entries) = weight entry + total weight entries

module _ (weight : Entry → ℕ) where
  pub total-append : (a b : List Entry) → total weight (a ++ b) ≡ total weight a + total weight b
  unfolding total
  total-append [] b = omega arith
  total-append (e ∷ a) b = omega (arith, total-append a b)

  pub total-add_entry :
      (capacity : ℕ) (array : List (List Entry)) (entry : Entry)
      → 0 < capacity
      → length array ≡ capacity
      → total weight (
          hashtable_foreach
            (add_entry hashtable_str_compare hashtable_str_hash capacity array entry))
        ≡ weight entry + total weight (hashtable_foreach array)
  unfolding add_entry total
  total-add_entry capacity array entry pos size =
      let i = hashtable_str_hash entry.key % capacity in
      let s =
        split_at array i
          (omega (arith, size, mod-lt (hashtable_str_hash entry.key) {m = capacity} pos)) in
      let bucket = bucket_at array i in
      omega (
        arith,
        ap (total weight) s.split,
        ap (total weight) (s.put (entry ∷ bucket)),
        total-append s.before (bucket ++ s.behind),
        total-append bucket s.behind,
        total-append s.before (entry ∷ (bucket ++ s.behind)),
      )

  total-move_entries :
      (entries : List Entry) (capacity : ℕ) (array : List (List Entry))
      → 0 < capacity
      → length array ≡ capacity
      → total weight (
          hashtable_foreach
            (move_entries hashtable_str_compare hashtable_str_hash capacity array entries))
        ≡ total weight entries + total weight (hashtable_foreach array)
  unfolding move_entries total
  total-move_entries [] capacity array pos size = omega arith
  total-move_entries (e ∷ entries) capacity array pos size = omega (
    arith,
    total-move_entries entries capacity
        (add_entry hashtable_str_compare hashtable_str_hash capacity array e) pos
        (length-add hashtable_str_compare hashtable_str_hash capacity array e ∙ size),
    total-add_entry capacity array e pos size,
  )

length-move_entries :
    (entries : List Entry) (capacity : ℕ) (array : List (List Entry))
    → length (move_entries hashtable_str_compare hashtable_str_hash capacity array entries)
      ≡ length array
unfolding move_entries
length-move_entries [] capacity array = refl
length-move_entries (e ∷ entries) capacity array =
    length-move_entries entries capacity
      (add_entry hashtable_str_compare hashtable_str_hash capacity array e)
    ∙ length-add hashtable_str_compare hashtable_str_hash capacity array e

pub length-move_chains :
    (chains : List (List Entry)) (capacity : ℕ) (array : List (List Entry))
    → length (move_chains hashtable_str_compare hashtable_str_hash capacity array chains)
      ≡ length array
unfolding move_chains
length-move_chains [] capacity array = refl
length-move_chains (c ∷ chains) capacity array =
    length-move_chains chains capacity
      (move_entries hashtable_str_compare hashtable_str_hash capacity array c)
    ∙ length-move_entries c capacity array

pub total-move_chains :
    (weight : Entry → ℕ) (chains : List (List Entry)) (capacity : ℕ) (array : List (List Entry))
    → 0 < capacity
    → length array ≡ capacity
    → total weight (
        hashtable_foreach
          (move_chains hashtable_str_compare hashtable_str_hash capacity array chains))
      ≡ total weight (hashtable_foreach chains) + total weight (hashtable_foreach array)
unfolding move_chains total hashtable_foreach
total-move_chains weight [] capacity array pos size = omega arith
total-move_chains weight (c ∷ chains) capacity array pos size = omega (
  arith,
  total-move_chains weight chains capacity
      (move_entries hashtable_str_compare hashtable_str_hash capacity array c) pos
      (length-move_entries c capacity array ∙ size),
  total-move_entries weight c capacity array pos size,
  total-append weight c (hashtable_foreach chains),
)

-- The entries of each chain, from chain `i` on, have its number as their hash.
abbrev pub IsAt : ℕ → ℕ → Entry → Type 0
IsAt capacity i entry = hashtable_str_hash entry.key % capacity ≡ i

abbrev pub Homed : ℕ → ℕ → List (List Entry) → Type 0
Homed capacity i [] = Unit
Homed capacity i (chain ∷ array) = All (IsAt capacity i) chain × Homed capacity (i + 1) array

Homed-bucket :
    (capacity i j : ℕ) (array : List (List Entry))
    → Homed capacity i array
    → All (IsAt capacity (i + j)) (bucket_at array j)
unfolding bucket_at
Homed-bucket capacity i j [] homed = tt
Homed-bucket capacity i zero (chain ∷ array) homed =
    let here : i ≡ i + 0 = omega arith in subst (λ k. All (IsAt capacity k) chain) here (homed.0)
Homed-bucket capacity i (suc j) (chain ∷ array) homed =
    let here : i + 1 + j ≡ i + suc j = omega arith in
    subst (λ k. All (IsAt capacity k) (bucket_at array j)) here
      (Homed-bucket capacity (i + 1) j array (homed.1))

pub Homed-set :
    (capacity i j : ℕ) (array : List (List Entry)) (chain : List Entry)
    → Homed capacity i array
    → All (IsAt capacity (i + j)) chain
    → Homed capacity i (set array j chain)
Homed-set capacity i j [] chain homed all = tt
Homed-set capacity i zero (c ∷ array) chain homed all =
    let here : i + 0 ≡ i = omega arith in
    (subst (λ k. All (IsAt capacity k) chain) here all, homed.1)
Homed-set capacity i (suc j) (c ∷ array) chain homed all =
    let here : i + suc j ≡ i + 1 + j = omega arith in
    (
      homed.0,
      Homed-set capacity (i + 1) j array chain (homed.1)
          (subst (λ k. All (IsAt capacity k) chain) here all),
    )

pub Homed-add_entry :
    (capacity : ℕ) (array : List (List Entry)) (entry : Entry)
    → Homed capacity 0 array
    → Homed capacity 0 (add_entry hashtable_str_compare hashtable_str_hash capacity array entry)
unfolding add_entry
Homed-add_entry capacity array entry homed =
    let i = hashtable_str_hash entry.key % capacity in
    Homed-set capacity 0 i array (entry ∷ bucket_at array i) homed
      (omega arith, Homed-bucket capacity 0 i array homed)

Homed-move_entries :
    (entries : List Entry) (capacity : ℕ) (array : List (List Entry))
    → Homed capacity 0 array
    → Homed capacity 0
        (move_entries hashtable_str_compare hashtable_str_hash capacity array entries)
unfolding move_entries
Homed-move_entries [] capacity array homed = homed
Homed-move_entries (e ∷ entries) capacity array homed =
    Homed-move_entries entries capacity _ (Homed-add_entry capacity array e homed)

pub Homed-move_chains :
    (chains : List (List Entry)) (capacity : ℕ) (array : List (List Entry))
    → Homed capacity 0 array
    → Homed capacity 0 (move_chains hashtable_str_compare hashtable_str_hash capacity array chains)
unfolding move_chains
Homed-move_chains [] capacity array homed = homed
Homed-move_chains (c ∷ chains) capacity array homed =
    Homed-move_chains chains capacity _ (Homed-move_entries c capacity array homed)

pub Homed-replicate : (n capacity i : ℕ) → Homed capacity i (replicate n [])
Homed-replicate zero capacity i = tt
Homed-replicate (suc n) capacity i = (tt, Homed-replicate n capacity (i + 1))

pub total-replicate :
    (weight : Entry → ℕ) (n : ℕ) → total weight (hashtable_foreach (replicate n [])) ≡ 0
unfolding total hashtable_foreach
total-replicate weight zero = refl
total-replicate weight (suc n) = total-replicate weight n
