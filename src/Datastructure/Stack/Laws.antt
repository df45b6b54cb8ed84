-- ===== src/Datastructure/Stack/Laws.antt =====
-- The stack against the list of its pointers, last one on top.
use midori_db.Prelude.{
  ℕ, zero, suc, ◌+◌, ◌-◌, ◌^◌, ◌<◌, ◌≤◌, ◌≡◌, refl, sym, ap, ◌∙◌, Bool, true, false, ◌||◌, List, [],
  ◌∷◌, ◌++◌, length, length-append, length-replicate, replicate, drop, get_elem?,
  get_elem?-append_length, append-nil, Option, some, All-get, All-right, inl, inr, ok, fault,
  bug_on, none, Bool-cases, get_elem?-none, get_elem?-some, ◌>>=◌, Returns, ◌==◌, leb, arith,
}
use mathlib.Core.Path.{subst}
use mathlib.Core.List.{reverse, reverse-cons, reverse-reverse}
use midori_db.Heap.{Heap, store, zalloc, memcpy}
use midori_db.Datastructure.Vector.{must_grow, vector_free}
use midori_db.Datastructure.Vector.Laws.{memcpy_lem}
use midori_db.Datastructure.Pointers.{Holds, without_last, push-Holds, pop-Holds, read-Holds}
use midori_db.Datastructure.Words.{word_size}
use midori_db.Datastructure.Stack.{
  Stack, ℤ, pos, negsuc, stack_empty, copy_content, push_content, stack_push, stack_pop, stack_peek,
  stack_peek_pos, pop_all, stack_free,
}

pub record IsStack (stack : Stack) (xs : List ℕ) : Type 0 where
  pub holds : Holds stack.arr xs
  pub next : stack.next ≡ length xs

-- The copy of `src` that a push to the stack or the queue makes.
pub record Copied (h : Heap) (src : List ℕ) (h' : Heap) : Type 0 where
  pub next : h'.next ≡ suc h.next
  pub copy : h'.texts (suc h.next) ≡ some src
  pub kept : (p : ℕ) → p ≤ h.next → h'.texts p ≡ h.texts p

abbrev copy_of : Heap → List ℕ → Heap
copy_of h src =
    store (store (record h { next = suc h.next }) (suc h.next) (replicate (length src) 0))
      (suc h.next) src

nothing_behind : (n : ℕ) → drop n (replicate {A = ℕ} n 0) ≡ []
nothing_behind zero = refl
nothing_behind (suc n) = nothing_behind n

pub copy_content-Copied :
    (h : Heap) (src : List ℕ)
    → Returns (copy_content h src (length src)) (λ r. (r.0 ≡ suc h.next) × Copied h src r.1)
unfolding copy_content zalloc
copy_content-Copied h src =
    let whole : memcpy (replicate (length src) 0) src (length src) ≡ ok src =
      memcpy_lem (replicate (length src) 0) src
        (omega (arith, length-replicate {A = ℕ} (length src) 0))
      ∙ ap ok (ap (λ d. src ++ d) (nothing_behind (length src)) ∙ append-nil src) in
    (
      (suc h.next, copy_of h src),
      rw whole,
      (refl, record { next = refl; copy = ground arith; kept = λ p le. ground arith }),
    )

module _ (stack : Stack) (xs : List ℕ) (is : IsStack stack xs) where
  -- A push of some bytes, where the memory is granted and addresses have 64 bits, returns true: the
  -- address of a copy of the bytes is on top of the stack, and the texts before are kept.
  pub stack_push-IsStack :
      (arr_granted : Bool) (h : Heap) (src : List ℕ)
      → 0 < length src
      → suc h.next < 2 ^ 64
      → (must_grow stack.arr word_size ≡ true → arr_granted ≡ true)
      → Returns
          (stack_push true arr_granted h stack src (length src))
          (λ r. (r.0 ≡ true) × Copied h src r.1 × IsStack r.2 (xs ++ suc h.next ∷ []))
  unfolding stack_push push_content
  stack_push-IsStack arr_granted h src some_byte lt grants =
      let ((content, h'), run, made) = copy_content-Copied h src in
      let ((pushed, arr), runs, done) =
        push-Holds stack.arr xs is.holds arr_granted (suc h.next) lt grants in
      let not_zero : (length src == 0) ≡ false = ground arith in
      (
        (true, h', record { arr = arr; next = stack.next + 1 }),
        rw (not_zero, run, made.0, runs, done.0),
        (
          refl,
          made.1,
          record {
            holds = done.1;
            next = omega (arith, is.next, length-append xs (suc h.next ∷ []));
          },
        ),
      )

module _ (stack : Stack) (xs : List ℕ) (p : ℕ) (is : IsStack stack (xs ++ p ∷ [])) where
  lt : p < 2 ^ 64
  lt = (All-right (λ p. p < 2 ^ 64) xs (p ∷ []) is.holds.small).0

  top : stack.next ≡ suc (length xs)
  top = omega (arith, is.next, length-append xs (p ∷ []))

  not_empty : stack_empty stack ≡ false
  unfolding stack_empty
  not_empty = ground (arith, top)

  at_top : get_elem? (xs ++ p ∷ []) (stack.next - 1) ≡ some p
  at_top = get_elem?-append_length xs p [] (stack.next - 1) (omega (arith, top))

  -- A pop returns the pointer on top and leaves a stack of those below it.
  pub stack_pop-IsStack : Returns (stack_pop stack) (λ r. (r.0 ≡ p) × IsStack r.1 xs)
  unfolding stack_pop
  stack_pop-IsStack = (
    (p, record { arr = without_last stack.arr; next = stack.next - 1 }),
    rw (not_empty, read-Holds stack.arr (xs ++ p ∷ []) is.holds (stack.next - 1) p at_top lt),
    (refl, record { holds = pop-Holds stack.arr xs p is.holds; next = omega (arith, top) }),
  )

  -- A peek returns the pointer that a pop returns.
  pub stack_peek-stack_pop : stack_pop stack >>= (λ r. ok r.0) ≡ stack_peek stack
  unfolding stack_pop stack_peek
  stack_peek-stack_pop =
      rw (not_empty, read-Holds stack.arr (xs ++ p ∷ []) is.holds (stack.next - 1) p at_top lt)

-- What a list has at a place: nothing at a negative one.
abbrev pub at_place : List ℕ → ℤ → Option ℕ
at_place xs (pos n) = get_elem? xs n
at_place xs (negsuc n) = none

-- A peek at a place of the stack, from the bottom on, returns the pointer there, and a place outside,
-- negative or past the top, ends the process.
pub stack_peek_pos-IsStack :
    (stack : Stack) (xs : List ℕ) (place : ℤ)
    → IsStack stack xs
    → stack_peek_pos stack place ≡ elim (at_place xs place) [ some p ↦ ok p | none ↦ fault bug_on ]
unfolding stack_peek_pos stack_empty
stack_peek_pos-IsStack stack xs (negsuc n) is = refl
stack_peek_pos-IsStack stack xs (pos n) is = elim (Bool-cases (leb (length xs) n)) [
  | inl e ↦
      let outside : (stack.next == 0 || leb stack.next n) ≡ true = ground (arith, is.next, e) in
      rw (outside, get_elem?-none xs n (ground (arith, e)))
  | inr e ↦
      let inside : (stack.next == 0 || leb stack.next n) ≡ false = ground (arith, is.next, e) in
      let (p, at) = get_elem?-some xs n (ground (arith, e)) in
      rw (
        inside,
        at,
        read-Holds stack.arr xs is.holds n p at (All-get (λ p. p < 2 ^ 64) xs n is.holds.small at),
      )
]

length-reverse_lem : (xs : List ℕ) → length (reverse xs) ≡ length xs
length-reverse_lem [] = refl
length-reverse_lem (x ∷ xs) =
    ap length (reverse-cons x xs)
    ∙ omega (arith, length-append (reverse xs) (x ∷ []), length-reverse_lem xs)

round_lem :
    (rounds p : ℕ) (freed : List ℕ) (stack below last : Stack)
    → stack_empty stack ≡ false
    → stack_pop stack ≡ ok (p, below)
    → pop_all rounds below ≡ ok (freed, last)
    → pop_all (suc rounds) stack ≡ ok (p ∷ freed, last)
unfolding pop_all
round_lem rounds p freed stack below last full popped rest = rw (pop_all, full, popped, rest)

pop_all_lem :
    (ys : List ℕ) (stack : Stack)
    → IsStack stack (reverse ys)
    → Returns (pop_all (length ys) stack) (λ r. r.0 ≡ ys)
unfolding pop_all
pop_all_lem [] stack is = (([], stack), refl, refl)
pop_all_lem (y ∷ ys) stack is =
    let is' = subst (IsStack stack) (reverse-cons y ys) is in
    let ((p, below), run, popped) = stack_pop-IsStack stack (reverse ys) y is' in
    let ((freed, last), runs, all) = pop_all_lem ys below popped.1 in
    (
      (p ∷ freed, last),
      round_lem (length ys) p freed stack below last (not_empty stack (reverse ys) y is') run runs,
      ap (λ q. q ∷ freed) popped.0 ∙ ap (λ r. y ∷ r) all,
    )

free_lem :
    (freed : List ℕ) (stack last : Stack)
    → pop_all stack.next stack ≡ ok (freed, last)
    → stack_free stack ≡ ok (freed, vector_free last.arr)
unfolding stack_free
free_lem freed stack last run = rw run

-- The end of a stack frees its pointers, from the top down, each once.
pub stack_free-reverse :
    (stack : Stack) (xs : List ℕ)
    → IsStack stack xs
    → Returns (stack_free stack) (λ r. r.0 ≡ reverse xs)
stack_free-reverse stack xs is =
    let is' = subst (IsStack stack) (sym (reverse-reverse xs)) is in
    let ((freed, last), run, all) = pop_all_lem (reverse xs) stack is' in
    let rounds : stack.next ≡ length (reverse xs) = omega (arith, is.next, length-reverse_lem xs) in
    let whole = subst (λ n. pop_all n stack ≡ ok (freed, last)) (sym rounds) run in
    ((freed, vector_free last.arr), free_lem freed stack last whole, all)
