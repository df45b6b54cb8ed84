-- ===== src/Datastructure/Tests.antt =====
-- A vector with the pointers 5 and 6 in it, as a stack and as a queue, and a hash table.
use midori_db.Prelude.{
  ℕ, ◌≡◌, refl, sym, ◌==◌, if◌then◌else◌, ◌∙◌, Bool, true, List, [], ◌∷◌, ◌++◌, replicate, some,
  none, ok, fault, bug_on, Returns, ◌>>=◌, arith,
}
use midori_db.Datastructure.Linkedlist.{Links, list_del, list_add, list_length}
use midori_db.Datastructure.Linkedlist.Delete.{list_del-IsRing}
use midori_db.Datastructure.Linkedlist.Laws.{IsRing, end, link, list_add-IsRing, list_length-IsRing}
use mathlib.Core.Path.{subst}
use midori_db.Datastructure.Hashtable.Strings.{is_key}
use midori_db.Datastructure.Hashtable.StringMap.{IsStringMap, value_of, at_string}
use midori_db.Datastructure.Hashtable.{
  Entry, bucket_at, hashtable_remove, Hashtable, hashtable_init, hashtable_put,
  hashtable_str_compare, hashtable_str_hash, lookup,
}
use midori_db.Datastructure.Hashtable.StringMap.Laws.{
  IsPut, IsRemoved, hashtable_init-IsStringMap, hashtable_put-IsPut, hashtable_remove-IsRemoved,
}
use midori_db.Heap.{Heap}
use midori_db.Datastructure.Vector.{Vector, vector_push}
use midori_db.Datastructure.Vector.Laws.{IsVector, Pushed, vector_push-Pushed}
use midori_db.Datastructure.Words.{words, word_bytes}
use midori_db.Datastructure.Pointers.{Holds}
use midori_db.Datastructure.Stack.{Stack, pos, stack_push, stack_pop, stack_peek_pos, stack_free}
use midori_db.Datastructure.Stack.Laws.{
  IsStack, Copied, stack_push-IsStack, stack_pop-IsStack, stack_peek_pos-IsStack,
  stack_free-reverse,
}
use midori_db.Datastructure.Queue.{
  Queue, queue_offer, queue_poll, queue_peek, queue_peek_pos, queue_free,
}
use midori_db.Datastructure.Queue.Laws.{
  IsQueue, queue_offer-IsQueue, queue_poll-IsQueue, queue_peek-queue_poll, queue_peek_pos-IsQueue,
  queue_free-all,
}

abbrev five_six : Vector
five_six = record {
  bytes = (5 ∷ replicate 7 0) ++ (6 ∷ replicate 7 0) ++ replicate 24 0;
  len = 16;
  capacity = 40;
}

abbrev heap : Heap
heap = record { texts = λ p. none; next = 6 }

five_six-IsVector : IsVector five_six
five_six-IsVector = record { size = refl; inside = omega arith }

five_six-Holds : Holds five_six (5 ∷ 6 ∷ [])
unfolding words word_bytes
five_six-Holds = record {
  valid = five_six-IsVector;
  pointers = refl;
  small = (omega arith, (omega arith, tt));
}

abbrev stack : Stack
stack = record { arr = five_six; next = 2 }

stack-IsStack : IsStack stack (5 ∷ 6 ∷ [])
stack-IsStack = record { holds = five_six-Holds; next = refl }

abbrev queue : Queue
queue = record { arr = five_six }

vector_push-Pushed_example :
    Returns (vector_push true five_six (1 ∷ 2 ∷ 3 ∷ []) 3) (Pushed five_six (1 ∷ 2 ∷ 3 ∷ []))
vector_push-Pushed_example =
    vector_push-Pushed true five_six five_six-IsVector (1 ∷ 2 ∷ 3 ∷ []) (omega arith) (λ _. refl)

stack_push-IsStack_example :
    Returns
      (stack_push true true heap stack (9 ∷ []) 1)
      (λ r. (r.0 ≡ true) × Copied heap (9 ∷ []) r.1 × IsStack r.2 (5 ∷ 6 ∷ 7 ∷ []))
stack_push-IsStack_example =
    stack_push-IsStack stack (5 ∷ 6 ∷ []) stack-IsStack true heap (9 ∷ []) (omega arith)
      (omega arith) (λ _. refl)

stack_pop-IsStack_example : Returns (stack_pop stack) (λ r. (r.0 ≡ 6) × IsStack r.1 (5 ∷ []))
stack_pop-IsStack_example = stack_pop-IsStack stack (5 ∷ []) 6 stack-IsStack

stack_peek_pos-IsStack_example : stack_peek_pos stack (pos 2) ≡ fault bug_on
stack_peek_pos-IsStack_example = stack_peek_pos-IsStack stack (5 ∷ 6 ∷ []) (pos 2) stack-IsStack

stack_free-reverse_example : Returns (stack_free stack) (λ r. r.0 ≡ 6 ∷ 5 ∷ [])
stack_free-reverse_example = stack_free-reverse stack (5 ∷ 6 ∷ []) stack-IsStack

queue_offer-IsQueue_example :
    Returns
      (queue_offer true true heap queue (9 ∷ []) 1)
      (λ r. (r.0 ≡ true) × Copied heap (9 ∷ []) r.1 × IsQueue r.2 (5 ∷ 6 ∷ 7 ∷ []))
queue_offer-IsQueue_example =
    queue_offer-IsQueue queue (5 ∷ 6 ∷ []) true heap (9 ∷ []) five_six-Holds (omega arith)
      (omega arith) (λ _. refl)

queue_poll-IsQueue_example : Returns (queue_poll queue) (λ r. (r.0 ≡ some 5) × IsQueue r.1 (6 ∷ []))
queue_poll-IsQueue_example = queue_poll-IsQueue queue 5 (6 ∷ []) five_six-Holds

queue_peek-queue_poll_example : queue_poll queue >>= (λ r. ok r.0) ≡ queue_peek queue
queue_peek-queue_poll_example = queue_peek-queue_poll queue

queue_peek_pos-IsQueue_example : queue_peek_pos queue 1 ≡ ok 6
queue_peek_pos-IsQueue_example = queue_peek_pos-IsQueue queue (5 ∷ 6 ∷ []) 1 five_six-Holds

queue_free-all_example : Returns (queue_free queue) (λ r. r.0 ≡ 5 ∷ 6 ∷ [])
queue_free-all_example = queue_free-all queue (5 ∷ 6 ∷ []) five_six-Holds

abbrev empty_table : Hashtable
empty_table = record { count = 0; capacity = 16; array = replicate 16 [] }

hashtable_init-IsStringMap_example :
    IsStringMap empty_table × ((key : List ℕ) → at_string empty_table key ≡ none)
unfolding hashtable_init
hashtable_init-IsStringMap_example = hashtable_init-IsStringMap empty_table refl

empty-IsStringMap : IsStringMap empty_table
empty-IsStringMap = hashtable_init-IsStringMap_example.0

abbrev k_key : List ℕ
k_key = b'k' ∷ 0 ∷ []

k_key-is_key : is_key k_key ≡ true
unfolding is_key
k_key-is_key = refl

empty-none : value_of empty_table k_key ≡ none
unfolding lookup bucket_at hashtable_str_hash
empty-none = refl

hashtable_put-IsPut_example :
    Returns
      (hashtable_put hashtable_str_compare hashtable_str_hash true true empty_table k_key (1 ∷ []))
      (IsPut empty_table empty-IsStringMap k_key k_key-is_key (1 ∷ []))
unfolding is_key
hashtable_put-IsPut_example =
    hashtable_put-IsPut empty_table empty-IsStringMap k_key k_key-is_key (1 ∷ []) empty-none true
      (omega arith)

abbrev k_entry : Entry
k_entry = record { key = k_key; value = 1 ∷ [] }

-- The table after the put.
abbrev k_table : Hashtable
k_table = record { count = 1; capacity = 16; array = (k_entry ∷ []) ∷ replicate 15 [] }

put_run :
    hashtable_put hashtable_str_compare hashtable_str_hash true true empty_table k_key (1 ∷ [])
    ≡ ok (true, k_table)
unfolding hashtable_put hashtable_str_hash bucket_at
put_run = refl

k_table-IsStringMap : IsStringMap k_table
k_table-IsStringMap =
    let (r, run, put) = hashtable_put-IsPut_example in
    let same : r ≡ (true, k_table) = cc (sym run ∙ put_run) in
    subst (λ (q : Bool × Hashtable). IsStringMap (q.1)) same put.map

k_found : value_of k_table k_key ≡ some k_entry
unfolding lookup hashtable_str_hash hashtable_str_compare bucket_at
k_found = refl

hashtable_remove-IsRemoved_example :
    Returns
      (hashtable_remove hashtable_str_compare hashtable_str_hash k_table k_key)
      (IsRemoved k_table k_table-IsStringMap k_key k_key-is_key k_entry)
unfolding is_key
hashtable_remove-IsRemoved_example =
    hashtable_remove-IsRemoved k_table k_table-IsStringMap k_key k_key-is_key k_entry k_found

-- A list of the heads 2 and 3 behind the head 1.
abbrev two_links : Links
two_links = record {
  next = λ q. if q == 1 then 2 else if q == 2 then 3 else 1;
  prev = λ q. if q == 1 then 3 else if q == 2 then 1 else 2;
}

two_links-IsRing : IsRing two_links 1 (2 ∷ 3 ∷ [])
two_links-IsRing = record {
  linked = link {p = 1} refl refl (link {p = 2} refl refl (end {p = 3} refl refl));
  distinct = ((refl, (refl, tt)), ((refl, tt), (tt, tt)));
}

list_add-IsRing_example : IsRing (list_add two_links 4 1) 1 (4 ∷ 2 ∷ 3 ∷ [])
list_add-IsRing_example =
    list_add-IsRing two_links 4 1 (2 ∷ 3 ∷ []) two_links-IsRing (refl, (refl, (refl, tt)))

list_length-IsRing_example : list_length 3 two_links 1 ≡ some 2
list_length-IsRing_example = list_length-IsRing two_links 1 (2 ∷ 3 ∷ []) two_links-IsRing

list_del-IsRing_example : IsRing (list_del two_links 2) 1 (3 ∷ [])
list_del-IsRing_example = list_del-IsRing two_links 1 2 [] (3 ∷ []) two_links-IsRing
