-- ===== src/Datastructure/Linkedlist.antt =====
-- include/datastructure/linkedlist.h and src/datastructure/linkedlist.c: circular lists, linked both
-- ways, through heads at addresses.
pub mod Laws
pub mod Delete
use midori_db.Prelude.{ℕ, zero, suc, ◌+◌, Bool, ◌==◌, if◌then◌else◌, Option, none, some}

-- The fields of every `struct list_head`, by its address. NULL is 0.
pub record Links : Type 0 where
  pub next : ℕ → ℕ
  pub prev : ℕ → ℕ

abbrev pub set_next : Links → ℕ → ℕ → Links
set_next s p v = record s { next = λ q. if q == p then v else s.next q }

abbrev pub set_prev : Links → ℕ → ℕ → Links
set_prev s p v = record s { prev = λ q. if q == p then v else s.prev q }

unfoldable pub list_head_init : Links → ℕ → Links
list_head_init s head = set_prev (set_next s head head) head head

unfoldable pub list_add : Links → ℕ → ℕ → Links
list_add s new head =
    let s_1 = set_prev s (s.next head) new in
    let s_2 = set_next s_1 new (s_1.next head) in
    let s_3 = set_prev s_2 new head in set_next s_3 head new

unfoldable pub list_del : Links → ℕ → Links
list_del s entry =
    let s_1 = set_next s (s.prev entry) (s.next entry) in
    let s_2 = set_prev s_1 (s_1.next entry) (s_1.prev entry) in
    let s_3 = set_prev s_2 entry 0 in set_next s_3 entry 0

-- The loop of `list_length`, from the place `pos` on. Nothing is returned when the rounds end before
-- the list does.
unfoldable pub count_from : ℕ → Links → ℕ → ℕ → ℕ → Option ℕ
count_from zero s head pos count = none
count_from (suc rounds) s head pos count =
    let rest = count_from rounds s head (s.next pos) (count + 1) in
    if pos == head then some count else rest

unfoldable pub list_length : ℕ → Links → ℕ → Option ℕ
unfolding count_from
list_length rounds s head = count_from rounds s head (s.next head) 0
