-- ===== src/Datastructure/Words.antt =====
-- Pointers in a buffer of bytes: 8 bytes each, least first.
use native.Mathlib.Nat.{pow-suc}
use midori_db.Prelude.{
  ℕ, zero, suc, ◌+◌, ◌*◌, ◌/◌, ◌%◌, ◌^◌, ◌<◌, ◌≡◌, refl, true, sym, ap, ◌∙◌, List, [], ◌∷◌, ◌++◌,
  append_assoc, append-nil, length, take, drop, length-append, take-append_length, get_elem?, some,
  ◌==◌, if◌then◌else◌, Outcome, ok, fault, segfault, arith,
}

-- sizeof(uintptr_t)
abbrev pub word_size : ℕ
word_size = 8

-- The `k` low bytes of a number.
unfoldable pub word_bytes : ℕ → ℕ → List ℕ
word_bytes zero p = []
word_bytes (suc k) p = p % 256 ∷ word_bytes k (p / 256)

unfoldable pub of_bytes : List ℕ → ℕ
of_bytes [] = 0
of_bytes (b ∷ bs) = b + 256 * of_bytes bs

-- `*((uintptr_t**)(data + i * sizeof(uintptr_t)))`
unfoldable pub read_word : List ℕ → ℕ → Outcome ℕ
unfolding of_bytes
read_word bytes i =
    let w = take word_size (drop (i * word_size) bytes) in
    if length w == word_size then ok (of_bytes w) else fault segfault

-- The bytes of some pointers.
unfoldable pub words : List ℕ → List ℕ
words [] = []
words (p ∷ ps) = word_bytes word_size p ++ words ps

pub of_bytes-word_bytes : (k p : ℕ) → p < 256 ^ k → of_bytes (word_bytes k p) ≡ p
unfolding of_bytes word_bytes
of_bytes-word_bytes zero p h = omega arith
of_bytes-word_bytes (suc k) p h =
    let rest = of_bytes-word_bytes k (p / 256) (omega (arith, pow-suc 256 k)) in omega (arith, rest)

pub length-word_bytes : (k p : ℕ) → length (word_bytes k p) ≡ k
unfolding word_bytes
length-word_bytes zero p = refl
length-word_bytes (suc k) p = ap suc (length-word_bytes k (p / 256))

pub length-words : (ps : List ℕ) → length (words ps) ≡ length ps * word_size
unfolding words
length-words [] = refl
length-words (p ∷ ps) = omega (
  arith,
  length-append (word_bytes word_size p) (words ps),
  length-word_bytes word_size p,
  length-words ps,
)

pub words-append : (ps qs : List ℕ) → words (ps ++ qs) ≡ words ps ++ words qs
unfolding words
words-append [] qs = refl
words-append (p ∷ ps) qs =
    ap (λ t. word_bytes word_size p ++ t) (words-append ps qs)
    ∙ sym (append_assoc (word_bytes word_size p) (words ps) (words qs))

read_first : (w rest : List ℕ) → length w ≡ word_size → read_word (w ++ rest) 0 ≡ ok (of_bytes w)
unfolding read_word
read_first w rest e =
    let first : take word_size (w ++ rest) ≡ w = take-append_length w rest word_size (sym e) in
    let whole : (length w == word_size) ≡ true = ground (arith, e) in rw (first, whole)

drop_past : (w rest : List ℕ) (k : ℕ) → drop (length w + k) (w ++ rest) ≡ drop k rest
drop_past [] rest k = let none_before : 0 + k ≡ k = omega arith in ap (λ j. drop j rest) none_before
drop_past (b ∷ w) rest k =
    let one_more : suc (length w) + k ≡ suc (length w + k) = omega arith in
    ap (λ j. drop j (b ∷ (w ++ rest))) one_more ∙ drop_past w rest k

read_later :
    (w rest : List ℕ) (i : ℕ)
    → length w ≡ word_size
    → read_word (w ++ rest) (suc i) ≡ read_word rest i
unfolding read_word
read_later w rest i e =
    let past : drop (suc i * word_size) (w ++ rest) ≡ drop (i * word_size) rest =
      ap (λ j. drop j (w ++ rest)) (omega (arith, e)) ∙ drop_past w rest (i * word_size) in
    rw past

-- The pointer at place `i` of some.
pub read_word-words :
    (ps : List ℕ) (i p : ℕ) (rest : List ℕ)
    → get_elem? ps i ≡ some p
    → p < 2 ^ 64
    → read_word (words ps ++ rest) i ≡ ok p
unfolding words
read_word-words [] i p rest e lt = absurd (cc e)
read_word-words (q ∷ ps) zero p rest e lt =
    let same : q ≡ p = cc e in
    ap (λ b. read_word b 0) (append_assoc (word_bytes word_size q) (words ps) rest)
    ∙ read_first (word_bytes word_size q) (words ps ++ rest) (length-word_bytes word_size q)
    ∙ ap ok (ap (λ r. of_bytes (word_bytes word_size r)) same ∙ of_bytes-word_bytes word_size p lt)
read_word-words (q ∷ ps) (suc i) p rest e lt =
    ap (λ b. read_word b (suc i)) (append_assoc (word_bytes word_size q) (words ps) rest)
    ∙ read_later (word_bytes word_size q) (words ps ++ rest) i (length-word_bytes word_size q)
    ∙ read_word-words ps i p rest e lt

-- The pointer in its own bytes.
pub read_word-one : (p : ℕ) → p < 2 ^ 64 → read_word (word_bytes word_size p) 0 ≡ ok p
unfolding words
read_word-one p lt =
    ap (λ b. read_word b 0)
      (sym (append-nil (word_bytes word_size p)) ∙ sym (append-nil (word_bytes word_size p ++ [])))
    ∙ read_word-words (p ∷ []) 0 p [] refl lt
