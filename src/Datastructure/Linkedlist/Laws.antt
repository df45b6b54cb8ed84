-- ===== src/Datastructure/Linkedlist/Laws.antt =====
-- A circular list against the list of the addresses behind its head.
use midori_db.Prelude.{
  ℕ, suc, ◌+◌, ◌≡◌, sym, ap, ◌∙◌, true, false, List, [], ◌∷◌, ◌++◌, length, All, some, ◌==◌, arith,
}
use mathlib.Core.Path.{subst}
use midori_db.Datastructure.Linkedlist.{Links, list_head_init, list_add, count_from, list_length}

-- From `p` on the heads `xs` follow, and then `last`, linked both ways.
pub data Linked (s : Links) : ℕ → List ℕ → ℕ → Type 0 where
  end : {p last : ℕ} → s.next p ≡ last → s.prev last ≡ p → Linked s p [] last
  link :
      {p x last : ℕ} {xs : List ℕ}
      → s.next p ≡ x
      → s.prev x ≡ p
      → Linked s x xs last
      → Linked s p (x ∷ xs) last

-- The addresses of `xs` are not `a`.
abbrev pub Without : ℕ → List ℕ → Type 0
Without a = All (λ x. (x == a) ≡ false)

abbrev pub AreDistinct : List ℕ → Type 0
AreDistinct [] = Unit
AreDistinct (x ∷ xs) = Without x xs × AreDistinct xs

-- The list behind `head` is `xs`.
pub record IsRing (s : Links) (head : ℕ) (xs : List ℕ) : Type 0 where
  pub linked : Linked s head xs head
  pub distinct : AreDistinct (head ∷ xs)

-- Links that are the same where a list reads them link it as well.
pub frame :
    (s s' : Links) (p : ℕ) (xs : List ℕ) (last : ℕ)
    → All (λ q. s'.next q ≡ s.next q) (p ∷ xs)
    → All (λ q. s'.prev q ≡ s.prev q) (xs ++ last ∷ [])
    → Linked s p xs last
    → Linked s' p xs last
frame s s' p [] last n v (end a b) = end (n.0 ∙ a) (v.0 ∙ b)
frame s s' p (x ∷ xs) last n v (link a b l) =
    link (n.0 ∙ a) (v.0 ∙ b) (frame s s' x xs last n.1 v.1 l)

-- An initialised head is an empty list.
pub list_head_init-IsRing : (s : Links) (head : ℕ) → IsRing (list_head_init s head) head []
unfolding list_head_init
list_head_init-IsRing s head = record {
  linked = end (ground arith) (ground arith);
  distinct = (tt, tt);
}

counted :
    (s : Links) (head p : ℕ) (xs : List ℕ) (count : ℕ)
    → Linked s p xs head
    → Without head xs
    → count_from (suc (length xs)) s head (s.next p) count ≡ some (count + length xs)
unfolding count_from
counted s head p [] count (end a b) w =
    let at_head : (s.next p == head) ≡ true = ground (arith, a) in
    rw at_head (ap some (omega arith))
counted s head p (x ∷ xs) count (link a b l) w =
    let not_head : (s.next p == head) ≡ false = ground (arith, a, w.0) in
    let more : count + 1 + length xs ≡ count + suc (length xs) = omega arith in
    rw not_head (
      ap (λ q. count_from (suc (length xs)) s head (s.next q) (count + 1)) a
      ∙ counted s head x xs (count + 1) l w.1
      ∙ ap some more)

-- What `list_add` leaves alone.
module _ (s : Links) (new head : ℕ) where
  next_kept :
      (xs : List ℕ)
      → Without head xs
      → Without new xs
      → All (λ q. (list_add s new head).next q ≡ s.next q) xs
  unfolding list_add
  next_kept [] h n = tt
  next_kept (x ∷ xs) h n = (ground (arith, h.0, n.0), next_kept xs h.1 n.1)

  prev_kept :
      (xs : List ℕ)
      → Without (s.next head) xs
      → Without new xs
      → All (λ q. (list_add s new head).prev q ≡ s.prev q) xs
  unfolding list_add
  prev_kept [] h n = tt
  prev_kept (x ∷ xs) h n = (ground (arith, h.0, n.0), prev_kept xs h.1 n.1)

pub not_last :
    (a last : ℕ) (xs : List ℕ) → Without a xs → (last == a) ≡ false → Without a (xs ++ last ∷ [])
not_last a last [] w e = (e, tt)
not_last a last (x ∷ xs) w e = (w.0, not_last a last xs w.1 e)

add-Linked :
    (s : Links) (new head : ℕ) (xs : List ℕ)
    → Linked s head xs head
    → AreDistinct (head ∷ xs)
    → Without new (head ∷ xs)
    → Linked (list_add s new head) head (new ∷ xs) head
unfolding list_add
add-Linked s new head [] (end a b) d w =
    link (ground arith) (ground arith) (end (ground (arith, a, w.0)) (ground (arith, a, w.0)))
add-Linked s new head (x ∷ xs) (link a b l) d w =
    let x_not_head : (head == x) ≡ false = ground (arith, d.0.0) in
    let away_x : Without x (xs ++ head ∷ []) = not_last x head xs d.1.0 x_not_head in
    let away_next : Without (s.next head) (xs ++ head ∷ []) =
      subst (λ q. Without q (xs ++ head ∷ [])) (sym a) away_x in
    link (ground arith) (ground arith) (
      link (ground (arith, a, w.0)) (ground (arith, a, w.1.0)) (
        frame s (list_add s new head) x xs head (next_kept s new head (x ∷ xs) d.0 w.1)
          (prev_kept s new head (xs ++ head ∷ []) away_next (not_last new head xs w.1.1 w.0)) l))

-- A head that is not in a list is added in front of its others.
pub list_add-IsRing :
    (s : Links) (new head : ℕ) (xs : List ℕ)
    → IsRing s head xs
    → Without new (head ∷ xs)
    → IsRing (list_add s new head) head (new ∷ xs)
list_add-IsRing s new head xs ring w = record {
  linked = add-Linked s new head xs ring.linked ring.distinct w;
  distinct = ((ground (arith, w.0), ring.distinct.0), (w.1, ring.distinct.1));
}

-- The rounds of a list's length and one more are enough to count it.
pub list_length-IsRing :
    (s : Links) (head : ℕ) (xs : List ℕ)
    → IsRing s head xs
    → list_length (suc (length xs)) s head ≡ some (length xs)
unfolding list_length
list_length-IsRing s head xs ring =
    let whole : 0 + length xs ≡ length xs = omega arith in
    counted s head head xs 0 ring.linked ring.distinct.0 ∙ ap some whole
