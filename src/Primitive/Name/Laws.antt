-- ===== src/Primitive/Name/Laws.antt =====
-- Which names are valid, and when two names are equal.
use midori_db.Prelude.{
  ℕ, All, Bool-cases, zero, suc, ◌≤◌, ◌≡◌, ◌↔◌, inl, inr, refl, ap, true, ◌&&◌, List, [], ◌∷◌,
  length, take, leb, ◌==◌, arith,
}
use native.Mathlib.Numerals.{add-one}
use midori_db.Primitive.Name.{valid_char, valid_chars, valid_name, str_eq, strn_eq}

-- A letter, as the C locale has them.
pub data IsLetter (c : ℕ) : Type 0 where
  small : b'a' ≤ c → c ≤ b'z' → IsLetter c
  capital : b'A' ≤ c → c ≤ b'Z' → IsLetter c

pub data IsWordChar (c : ℕ) : Type 0 where
  letter : IsLetter c → IsWordChar c
  digit : b'0' ≤ c → c ≤ b'9' → IsWordChar c
  underscore : c ≡ b'_' → IsWordChar c

-- What a name should be: a letter, then letters, digits and underscores, `max` bytes in all at most.
pub data IsName (max : ℕ) : List ℕ → Type 0 where
  name :
      (c : ℕ) (cs : List ℕ)
      → IsLetter c
      → All IsWordChar cs
      → suc (length cs) ≤ max
      → IsName max (c ∷ cs)

letter→valid : (c : ℕ) → IsLetter c → valid_char 0 c ≡ true
unfolding valid_char
letter→valid c (small a b) = ground arith
letter→valid c (capital a b) = ground arith

valid→letter : (c : ℕ) → valid_char 0 c ≡ true → IsLetter c
unfolding valid_char
valid→letter c h = elim (Bool-cases (leb b'a' c && leb c b'z')) [
  | inl t ↦ small (ground arith) (ground arith)
  | inr f ↦ capital (ground arith) (ground arith)
]

word→valid : (i c : ℕ) → IsWordChar c → valid_char (suc i) c ≡ true
unfolding valid_char
word→valid i c (letter (small a b)) = ground arith
word→valid i c (letter (capital a b)) = ground arith
word→valid i c (digit a b) = ground arith
word→valid i c (underscore e) = ground arith

valid→word : (i c : ℕ) → valid_char (suc i) c ≡ true → IsWordChar c
unfolding valid_char
valid→word i c h = elim (Bool-cases (leb b'a' c && leb c b'z')) [
  | inl t ↦ letter (small (ground arith) (ground arith))
  | inr f ↦ elim (Bool-cases (leb b'A' c && leb c b'Z')) [
    | inl t ↦ letter (capital (ground arith) (ground arith))
    | inr g ↦ elim (Bool-cases (c == b'_')) [
      | inl t ↦ underscore (ground arith)
      | inr k ↦ digit (ground arith) (ground arith)
    ]
  ]
]

words→valid : (i : ℕ) (cs : List ℕ) → All IsWordChar cs → valid_chars (suc i) cs ≡ true
unfolding valid_chars
words→valid i [] h = refl
words→valid i (c ∷ cs) h = rw (word→valid i c h.0) (rw add-one (words→valid (suc i) cs h.1))

valid→words : (i : ℕ) (cs : List ℕ) → valid_chars (suc i) cs ≡ true → All IsWordChar cs
unfolding valid_chars
valid→words i [] h = tt
valid→words i (c ∷ cs) h = elim (Bool-cases (valid_char (suc i) c)) [
  | inl t ↦ (valid→word i c t, valid→words (suc i) cs (rw add-one at (rw t at h)))
  | inr f ↦ absurd (cc (rw f at h))
]

valid→name : (max : ℕ) (s : List ℕ) → valid_name s max ≡ true → IsName max s
unfolding valid_name valid_chars
valid→name max [] h = absurd (cc h)
valid→name max (c ∷ cs) h =
    let parts : (valid_char 0 c ≡ true) × (valid_chars 1 cs ≡ true) × (suc (length cs) ≤ max) =
      ground arith in
    name c cs (valid→letter c parts.0) (valid→words 0 cs parts.1) parts.2

name→valid : (max : ℕ) {s : List ℕ} → IsName max s → valid_name s max ≡ true
unfolding valid_name valid_chars
name→valid max (name c cs l w short) =
    let first = letter→valid c l in let others = words→valid 0 cs w in ground (arith, first, others)

-- `__valid_name` accepts exactly the names that start with a letter, go on with letters, digits and
-- underscores, and have at most `max` bytes.
-- A name is valid exactly if it is a letter and then letters, digits and underscores, and not
-- longer than `max`.
pub valid_name_iff : (max : ℕ) (s : List ℕ) → (valid_name s max ≡ true) ↔ IsName max s
valid_name_iff max s = (valid→name max s, name→valid max)

-- `strcmp(a, b) == 0` exactly for equal strings.
pub str_eq_iff : (a b : List ℕ) → (str_eq a b ≡ true) ↔ (a ≡ b)
unfolding str_eq
str_eq_iff [] [] = ground arith
str_eq_iff [] (y ∷ b) = ground arith
str_eq_iff (x ∷ a) [] = ground arith
str_eq_iff (x ∷ a) (y ∷ b) = ground (arith, str_eq_iff a b)

pub str_eq_refl : (a : List ℕ) → str_eq a a ≡ true
str_eq_refl a = (str_eq_iff a a).1 refl

pub take_all : (n : ℕ) (a : List ℕ) → length a ≤ n → take n a ≡ a
take_all zero [] h = refl
take_all zero (x ∷ a) h = elim h [ ]
take_all (suc n) [] h = refl
take_all (suc n) (x ∷ a) h = ap (λ t. x ∷ t) (take_all n a (omega arith))

-- `strncmp` reads strings that fit its bound to their ends.
pub strn_eq_short :
    (n : ℕ) (a b : List ℕ) → length a ≤ n → length b ≤ n → strn_eq n a b ≡ str_eq a b
unfolding strn_eq
strn_eq_short n a b ha hb = rw (take_all n a ha, take_all n b hb)
