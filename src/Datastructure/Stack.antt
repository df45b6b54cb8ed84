-- ===== src/Datastructure/Stack.antt =====
-- include/datastructure/stack.h and src/datastructure/stack.c: a stack of pointers to copies.
pub mod Laws
use midori_db.Prelude.{
  ℕ, zero, suc, ◌+◌, ◌-◌, Bool, true, false, ◌||◌, List, [], ◌∷◌, length, replicate, Option, none,
  some, leb, ltb, ◌==◌, if◌then◌else◌, Outcome, ok, fault, bug_on, bug_if, ◌>>=◌, ◌>>◌,
}
use midori_db.Heap.{Heap, store, zalloc, memcpy}
use midori_db.Datastructure.Vector.{Vector, vector_init, vector_push, vector_free}
use midori_db.Datastructure.Pointers.{pointer_bytes, without_last}
use midori_db.Datastructure.Words.{word_size, read_word}

-- `struct stack`. `next` is `idx + 1`: the `idx` of an empty stack is -1.
pub record Stack : Type 0 where
  pub arr : Vector
  pub next : ℕ

-- Whether the two requests, for the vector and for its bytes, are granted.
unfoldable pub stack_init : Bool → Bool → Option Stack
unfolding vector_init
stack_init arr_granted data_granted =
    if arr_granted
    then elim (vector_init data_granted) [
      | none ↦ none
      | some arr ↦ some (record { arr = arr; next = 0 })
    ]
    else none

unfoldable pub stack_empty : Stack → Bool
stack_empty stack = stack.next == 0

-- The copy `content` of the caller's bytes.
unfoldable pub copy_content : Heap → List ℕ → ℕ → Outcome (ℕ × Heap)
unfolding zalloc memcpy
copy_content h src len = do
  let (content, h') = zalloc len h
  copied ← memcpy (replicate len 0) src len
  ok (content, store h' content copied)

-- The push of the copy. A copy that is not pushed is freed.
unfoldable pub push_content : Bool → Heap → Stack → List ℕ → ℕ → Outcome (Bool × Heap × Stack)
push_content arr_granted h stack src len = do
  (content, h') ← copy_content h src len
  (pushed, arr) ← vector_push arr_granted stack.arr (pointer_bytes content) word_size
  ok (if pushed then (true, h', record { arr = arr; next = stack.next + 1 }) else (false, h, stack))

-- Whether `zalloc` is granted, and `realloc`, if the vector grows.
unfoldable pub stack_push : Bool → Bool → Heap → Stack → List ℕ → ℕ → Outcome (Bool × Heap × Stack)
stack_push granted arr_granted h stack src len =
    bug_if (len == 0)
    >> (if granted then push_content arr_granted h stack src len else ok (false, h, stack))

-- The pointer `p` of the caller is pushed itself.
unfoldable pub stack_unsafe_push : Bool → Stack → ℕ → Outcome (Bool × Stack)
stack_unsafe_push arr_granted stack p = do
  bug_if (p == 0)
  (pushed, arr) ← vector_push arr_granted stack.arr (pointer_bytes p) word_size
  ok (if pushed then (true, record { arr = arr; next = stack.next + 1 }) else (false, stack))

unfoldable pub stack_pop : Stack → Outcome (ℕ × Stack)
stack_pop stack = do
  bug_if (stack_empty stack)
  ptr ← read_word stack.arr.bytes (stack.next - 1)
  ok (ptr, record { arr = without_last stack.arr; next = stack.next - 1 })

unfoldable pub stack_peek : Stack → Outcome ℕ
stack_peek stack = do bug_if (stack_empty stack); read_word stack.arr.bytes (stack.next - 1)

-- An `int`: a place, or a negative number.
pub data ℤ : Type 0 where
  pos negsuc : ℕ → ℤ

unfoldable pub stack_peek_pos : Stack → ℤ → Outcome ℕ
stack_peek_pos stack (negsuc n) = fault bug_on
stack_peek_pos stack (pos n) = do
  bug_if (stack_empty stack || leb stack.next n)
  read_word stack.arr.bytes n

-- The loop of `stack_free`: the pointers that it passes to `free`, in order. Each round takes one of
-- the `next` pointers, so that many rounds are enough.
unfoldable pub pop_all : ℕ → Stack → Outcome (List ℕ × Stack)
pop_all zero stack = ok ([], stack)
pop_all (suc rounds) stack = elim (stack_empty stack) [
  | true ↦ ok ([], stack)
  | false ↦ stack_pop stack >>= λ popped.
      pop_all rounds popped.1 >>= λ freed. ok (popped.0 ∷ freed.0, freed.1)
]

unfoldable pub stack_free : Stack → Outcome (List ℕ × Vector)
stack_free stack = pop_all stack.next stack >>= λ freed. ok (freed.0, vector_free freed.1.arr)
