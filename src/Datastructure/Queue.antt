-- ===== src/Datastructure/Queue.antt =====
-- include/datastructure/queue.h and src/datastructure/queue.c: a queue of pointers to copies.
pub mod Laws
use midori_db.Prelude.{
  ℕ, zero, suc, ◌+◌, ◌-◌, ◌*◌, ◌/◌, Bool, true, false, ◌||◌, List, [], ◌∷◌, ◌++◌, take, drop,
  length, replicate, Option, none, some, leb, ltb, ◌==◌, if◌then◌else◌, Outcome, ok, bug_if, ◌>>=◌,
  ◌>>◌,
}
use midori_db.Heap.{Heap}
use midori_db.Datastructure.Vector.{Vector, vector_init, vector_push, vector_free}
use midori_db.Datastructure.Pointers.{pointer_bytes, without_first}
use midori_db.Datastructure.Stack.{copy_content}
use midori_db.Datastructure.Words.{word_size, read_word}

pub record Queue : Type 0 where
  pub arr : Vector

unfoldable pub queue_init : Bool → Bool → Option Queue
unfolding vector_init
queue_init arr_granted data_granted =
    if arr_granted
    then elim (vector_init data_granted) [ none ↦ none | some arr ↦ some (record { arr = arr }) ]
    else none

unfoldable pub queue_empty : Queue → Bool
queue_empty queue = queue.arr.len == 0

unfoldable pub queue_length : Queue → ℕ
queue_length queue = queue.arr.len / word_size

-- The push of the copy. A copy that is not pushed is freed.
unfoldable pub offer_content : Bool → Heap → Queue → List ℕ → ℕ → Outcome (Bool × Heap × Queue)
offer_content arr_granted h queue src len = do
  (content, h') ← copy_content h src len
  (pushed, arr) ← vector_push arr_granted queue.arr (pointer_bytes content) word_size
  ok (if pushed then (true, h', record { arr = arr }) else (false, h, queue))

-- Whether `zalloc` is granted, and `realloc`, if the vector grows.
unfoldable pub queue_offer : Bool → Bool → Heap → Queue → List ℕ → ℕ → Outcome (Bool × Heap × Queue)
queue_offer granted arr_granted h queue src len =
    bug_if (len == 0)
    >> (if granted then offer_content arr_granted h queue src len else ok (false, h, queue))

unfoldable pub queue_poll : Queue → Outcome (Option ℕ × Queue)
queue_poll queue =
    if queue_empty queue
    then ok (none, queue)
    else (read_word queue.arr.bytes 0 >>= λ ptr.
        ok (some ptr, record { arr = without_first queue.arr }))

unfoldable pub queue_peek : Queue → Outcome (Option ℕ)
queue_peek queue =
    if queue_empty queue then ok none else (read_word queue.arr.bytes 0 >>= λ ptr. ok (some ptr))

unfoldable pub queue_peek_pos : Queue → ℕ → Outcome ℕ
unfolding queue_length
queue_peek_pos queue pos =
    bug_if (queue_empty queue || ltb (queue_length queue - 1) pos) >> read_word queue.arr.bytes pos

-- The loop of `queue_free`: the pointers that it passes to `free`, in order. Each round takes one of
-- the pointers, so that `queue_length` rounds are enough.
unfoldable pub poll_all : ℕ → Queue → Outcome (List ℕ × Queue)
poll_all zero queue = ok ([], queue)
poll_all (suc rounds) queue = queue_poll queue >>= λ polled. elim polled.0 [
  | none ↦ ok ([], queue)
  | some ptr ↦ poll_all rounds polled.1 >>= λ freed. ok (ptr ∷ freed.0, freed.1)
]

unfoldable pub queue_free : Queue → Outcome (List ℕ × Vector)
queue_free queue =
    poll_all (queue_length queue) queue >>= λ freed. ok (freed.0, vector_free freed.1.arr)
