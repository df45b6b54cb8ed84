-- ===== src/Datastructure/Pointers.antt =====
-- A vector of pointers: what the stack and the queue keep in their vectors.
use midori_db.Prelude.{
  ℕ, zero, suc, ◌-◌, ◌*◌, ◌^◌, ◌<◌, ◌≤◌, ◌≡◌, refl, sym, ap, ◌∙◌, Bool, true, List, [], ◌∷◌, ◌++◌,
  append-nil, length, length-append, take, drop, take-append_length, drop-append_length,
  take-append-drop, length-take_le, get_elem?, some, All, All-append, All-left, ok, Returns, arith,
}
use midori_db.Datastructure.Vector.{Vector, must_grow, vector_push}
use midori_db.Datastructure.Vector.Laws.{IsVector, contents, vector_push-Pushed}
use midori_db.Datastructure.Words.{
  word_size, word_bytes, read_word, words, length-words, words-append, length-word_bytes,
  read_word-words,
}

-- The vector `arr` holds the pointers `xs`, first one first.
pub record Holds (arr : Vector) (xs : List ℕ) : Type 0 where
  pub valid : IsVector arr
  pub pointers : contents arr ≡ words xs
  pub small : All (λ p. p < 2 ^ 64) xs

-- A pointer, as `vector_push` copies it.
abbrev pub pointer_bytes : ℕ → List ℕ
pointer_bytes p = word_bytes word_size p

-- The vector without its last pointer, and without its first one, which is written over by `memmove`.
abbrev pub without_last : Vector → Vector
without_last arr = record arr { len = arr.len - word_size }

abbrev pub without_first : Vector → Vector
without_first arr = record arr {
  bytes = drop word_size (take arr.len arr.bytes) ++ drop (arr.len - word_size) arr.bytes;
  len = arr.len - word_size;
}

take_shorter : (n m : ℕ) (xs : List ℕ) → n ≤ m → take n (take m xs) ≡ take n xs
take_shorter zero m xs le = refl
take_shorter (suc n) zero xs le = absurd (omega arith)
take_shorter (suc n) (suc m) [] le = refl
take_shorter (suc n) (suc m) (x ∷ xs) le = ap (λ t. x ∷ t) (take_shorter n m xs (omega arith))

words_one : (p : ℕ) → words (p ∷ []) ≡ pointer_bytes p
unfolding words
words_one p = append-nil (pointer_bytes p)

words_cons : (p : ℕ) (xs : List ℕ) → words (p ∷ xs) ≡ pointer_bytes p ++ words xs
unfolding words
words_cons p xs = refl

module _ (arr : Vector) (xs : List ℕ) (holds : Holds arr xs) where
  pub len-Holds : arr.len ≡ length xs * word_size
  len-Holds = omega (
    arith,
    length-take_le arr.len arr.bytes (omega (arith, holds.valid.size, holds.valid.inside)),
    ap length holds.pointers,
    length-words xs,
  )

  pub read-Holds : (i p : ℕ) → get_elem? xs i ≡ some p → p < 2 ^ 64 → read_word arr.bytes i ≡ ok p
  read-Holds i p e lt =
      ap (λ b. read_word b i)
        (sym (take-append-drop arr.len arr.bytes)
          ∙ ap (λ c. c ++ drop arr.len arr.bytes) holds.pointers)
      ∙ read_word-words xs i p (drop arr.len arr.bytes) e lt

  pub push-Holds :
      (granted : Bool) (p : ℕ)
      → p < 2 ^ 64
      → (must_grow arr word_size ≡ true → granted ≡ true)
      → Returns
          (vector_push granted arr (pointer_bytes p) word_size)
          (λ r. (r.0 ≡ true) × Holds r.1 (xs ++ p ∷ []))
  unfolding word_bytes
  push-Holds granted p lt grants =
      let (r, run, pushed) =
        vector_push-Pushed granted arr holds.valid (pointer_bytes p) (omega arith) grants in
      (
        r,
        run,
        (
          pushed.returns,
          record {
            valid = pushed.valid;
            pointers =
                pushed.bytes_behind
                ∙ ap (λ c. c ++ pointer_bytes p) holds.pointers
                ∙ ap (λ c. words xs ++ c) (sym (words_one p))
                ∙ sym (words-append xs (p ∷ []));
            small = All-append (λ p. p < 2 ^ 64) xs (p ∷ []) holds.small (lt, tt);
          },
        ),
      )

pub pop-Holds :
    (arr : Vector) (xs : List ℕ) (p : ℕ) → Holds arr (xs ++ p ∷ []) → Holds (without_last arr) xs
pop-Holds arr xs p holds =
    let len = len-Holds arr (xs ++ p ∷ []) holds in
    record {
      valid = record { size = holds.valid.size; inside = omega (arith, holds.valid.inside) };
      pointers =
          sym (take_shorter (arr.len - word_size) arr.len arr.bytes (omega arith))
          ∙ ap (take (arr.len - word_size)) (holds.pointers ∙ words-append xs (p ∷ []))
          ∙ take-append_length (words xs) (words (p ∷ [])) (arr.len - word_size)
              (omega (arith, len, length-append xs (p ∷ []), length-words xs));
      small = All-left (λ p. p < 2 ^ 64) xs (p ∷ []) holds.small;
    }

pub poll-Holds :
    (arr : Vector) (xs : List ℕ) (p : ℕ) → Holds arr (p ∷ xs) → Holds (without_first arr) xs
poll-Holds arr xs p holds =
    let len = len-Holds arr (p ∷ xs) holds in
    let moved : drop word_size (take arr.len arr.bytes) ≡ words xs =
      ap (drop word_size) (holds.pointers ∙ words_cons p xs)
      ∙ drop-append_length (pointer_bytes p) (words xs) word_size
          (sym (length-word_bytes word_size p)) in
    let moved_len = ap length moved in
    record {
      valid = record {
        size = omega (
          arith,
          len,
          moved_len,
          length-words xs,
          holds.valid.size,
          length-append (drop word_size (take arr.len arr.bytes))
              (drop (arr.len - word_size) arr.bytes),
          length-append (take (arr.len - word_size) arr.bytes)
              (drop (arr.len - word_size) arr.bytes),
          ap length (take-append-drop (arr.len - word_size) arr.bytes),
          length-take_le (arr.len - word_size) arr.bytes
              (omega (arith, holds.valid.size, holds.valid.inside)),
        );
        inside = omega (arith, holds.valid.inside);
      };
      pointers =
          take-append_length (drop word_size (take arr.len arr.bytes))
            (drop (arr.len - word_size) arr.bytes) (arr.len - word_size)
            (omega (arith, len, moved_len, length-words xs))
          ∙ moved;
      small = holds.small.1;
    }
