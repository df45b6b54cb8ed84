-- ===== src/Datastructure/Queue/Laws.antt =====
-- The queue against the list of its pointers, the next one first.
use native.Mathlib.Nat.{mul-div_cancel}
use midori_db.Prelude.{
  ℕ, suc, ◌-◌, ◌/◌, ◌^◌, ◌<◌, ◌≡◌, refl, sym, ap, ◌∙◌, Bool, true, false, ◌||◌, List, [], ◌∷◌, ◌++◌,
  Bool-cases, inl, inr, length, get_elem?, get_elem?-some, get_elem?-none, some, none, Option,
  All-get, Outcome, ok, fault, bug_on, ◌>>=◌, Returns, ◌==◌, leb, ltb, if◌then◌else◌, arith,
}
use mathlib.Core.Path.{subst}
use midori_db.Heap.{Heap}
use midori_db.Datastructure.Vector.{must_grow, vector_free}
use midori_db.Datastructure.Pointers.{
  Holds, without_first, push-Holds, poll-Holds, read-Holds, len-Holds,
}
use midori_db.Datastructure.Stack.Laws.{Copied, copy_content-Copied}
use midori_db.Datastructure.Words.{word_size, read_word}
use midori_db.Datastructure.Queue.{
  Queue, queue_empty, queue_length, offer_content, queue_offer, queue_poll, queue_peek,
  queue_peek_pos, poll_all, queue_free,
}

abbrev pub IsQueue : Queue → List ℕ → Type 0
IsQueue queue xs = Holds queue.arr xs

-- An offer of some bytes, where the memory is granted and addresses have 64 bits, returns true: the
-- address of a copy of the bytes is the last of the queue, and the texts before are kept.
pub queue_offer-IsQueue :
    (queue : Queue) (xs : List ℕ) (arr_granted : Bool) (h : Heap) (src : List ℕ)
    → IsQueue queue xs
    → 0 < length src
    → suc h.next < 2 ^ 64
    → (must_grow queue.arr word_size ≡ true → arr_granted ≡ true)
    → Returns
        (queue_offer true arr_granted h queue src (length src))
        (λ r. (r.0 ≡ true) × Copied h src r.1 × IsQueue r.2 (xs ++ suc h.next ∷ []))
unfolding queue_offer offer_content
queue_offer-IsQueue queue xs arr_granted h src is some_byte lt grants =
    let ((content, h'), run, made) = copy_content-Copied h src in
    let ((pushed, arr), runs, done) =
      push-Holds queue.arr xs is arr_granted (suc h.next) lt grants in
    let not_zero : (length src == 0) ≡ false = ground arith in
    (
      (true, h', record { arr = arr }),
      rw (not_zero, run, made.0, runs, done.0),
      (refl, made.1, done.1),
    )

module _ (queue : Queue) (p : ℕ) (xs : List ℕ) (is : IsQueue queue (p ∷ xs)) where
  not_empty : queue_empty queue ≡ false
  unfolding queue_empty
  not_empty = ground (arith, len-Holds queue.arr (p ∷ xs) is)

  -- A poll returns the first pointer and leaves a queue of the others.
  pub queue_poll-IsQueue : Returns (queue_poll queue) (λ r. (r.0 ≡ some p) × IsQueue r.1 xs)
  unfolding queue_poll
  queue_poll-IsQueue = (
    (some p, record { arr = without_first queue.arr }),
    rw (not_empty, read-Holds queue.arr (p ∷ xs) is 0 p refl is.small.0),
    (refl, poll-Holds queue.arr xs p is),
  )

peek_of :
    (empty : Bool) (first : Outcome ℕ) (queue others : Queue)
    → ◌>>=◌ {A = Option ℕ × Queue}
        (if empty then ok (none, queue) else (first >>= λ p. ok (some p, others)))
        (λ r. ok r.0)
      ≡ (if empty then ok none else (first >>= λ p. ok (some p)))
peek_of true first queue others = refl
peek_of false (ok p) queue others = refl
peek_of false (fault f) queue others = refl

-- A peek returns what a poll returns, on an empty queue too.
pub queue_peek-queue_poll : (queue : Queue) → queue_poll queue >>= (λ r. ok r.0) ≡ queue_peek queue
unfolding queue_poll queue_peek
queue_peek-queue_poll queue =
    peek_of (queue_empty queue) (read_word queue.arr.bytes 0) queue
      (record { arr = without_first queue.arr })

length-IsQueue : (queue : Queue) (xs : List ℕ) → IsQueue queue xs → queue_length queue ≡ length xs
unfolding queue_length
length-IsQueue queue xs is =
    ap (λ l. l / word_size) (len-Holds queue.arr xs is) ∙ mul-div_cancel (length xs) (omega arith)

-- A peek at a place of the queue returns the pointer there, and a place outside ends the process,
-- where the comment on the function says that it returns NULL.
pub queue_peek_pos-IsQueue :
    (queue : Queue) (xs : List ℕ) (pos : ℕ)
    → IsQueue queue xs
    → queue_peek_pos queue pos ≡ elim (get_elem? xs pos) [ some p ↦ ok p | none ↦ fault bug_on ]
unfolding queue_peek_pos queue_empty
queue_peek_pos-IsQueue queue xs pos is = elim (Bool-cases (leb (length xs) pos)) [
  | inl e ↦
      let outside : (queue.arr.len == 0 || ltb (length xs - 1) pos) ≡ true =
        ground (arith, len-Holds queue.arr xs is, e) in
      rw (length-IsQueue queue xs is, outside, get_elem?-none xs pos (ground (arith, e)))
  | inr e ↦
      let inside : (queue.arr.len == 0 || ltb (length xs - 1) pos) ≡ false =
        ground (arith, len-Holds queue.arr xs is, e) in
      let (p, at) = get_elem?-some xs pos (ground (arith, e)) in
      rw (
        length-IsQueue queue xs is,
        inside,
        at,
        read-Holds queue.arr xs is pos p at (All-get (λ p. p < 2 ^ 64) xs pos is.small at),
      )
]

round_of :
    (rounds p : ℕ) (freed : List ℕ) (queue others last : Queue)
    → queue_poll queue ≡ ok (some p, others)
    → poll_all rounds others ≡ ok (freed, last)
    → poll_all (suc rounds) queue ≡ ok (p ∷ freed, last)
unfolding poll_all
round_of rounds p freed queue others last polled rest = rw (poll_all, polled, rest)

poll_all_lem :
    (xs : List ℕ) (queue : Queue)
    → IsQueue queue xs
    → Returns (poll_all (length xs) queue) (λ r. r.0 ≡ xs)
unfolding poll_all
poll_all_lem [] queue is = (([], queue), refl, refl)
poll_all_lem (x ∷ xs) queue is =
    let ((o, others), run, polled) = queue_poll-IsQueue queue x xs is in
    let ((freed, last), runs, all) = poll_all_lem xs others polled.1 in
    (
      (x ∷ freed, last),
      round_of (length xs) x freed queue others last (run ∙ ap (λ o. ok (o, others)) polled.0) runs,
      ap (λ r. x ∷ r) all,
    )

free_of :
    (freed : List ℕ) (queue last : Queue)
    → poll_all (queue_length queue) queue ≡ ok (freed, last)
    → queue_free queue ≡ ok (freed, vector_free last.arr)
unfolding queue_free
free_of freed queue last run = rw run

-- The end of a queue frees its pointers, in order, each once.
pub queue_free-all :
    (queue : Queue) (xs : List ℕ) → IsQueue queue xs → Returns (queue_free queue) (λ r. r.0 ≡ xs)
queue_free-all queue xs is =
    let ((freed, last), run, all) = poll_all_lem xs queue is in
    let whole =
      subst (λ n. poll_all n queue ≡ ok (freed, last)) (sym (length-IsQueue queue xs is)) run in
    ((freed, vector_free last.arr), free_of freed queue last whole, all)
