-- ===== src/Datastructure/Linkedlist/Delete.antt =====
-- `list_del` takes a head out of the list that it is in.
use midori_db.Prelude.{
  ℕ, ◌≡◌, refl, ap, ◌∙◌, false, List, [], ◌∷◌, ◌++◌, All, All-left, All-right, ◌==◌, arith,
}
use midori_db.Datastructure.Linkedlist.{Links, list_del}
use midori_db.Datastructure.Linkedlist.Laws.{
  Linked, end, link, Without, AreDistinct, IsRing, frame, not_last,
}

-- What `list_del` leaves alone.
module _ (s : Links) (e before behind : ℕ) (at_prev : s.prev e ≡ before)
    (at_next : s.next e ≡ behind) (not_self : (e == before) ≡ false) where
  next_of : (q : ℕ) → (q == before) ≡ false → (q == e) ≡ false → (list_del s e).next q ≡ s.next q
  unfolding list_del
  next_of q b h = ground (arith, at_prev, b, h)

  prev_of : (q : ℕ) → (q == behind) ≡ false → (q == e) ≡ false → (list_del s e).prev q ≡ s.prev q
  unfolding list_del
  prev_of q b h = ground (arith, at_prev, at_next, not_self, b, h)

  next_before : (before == e) ≡ false → (list_del s e).next before ≡ behind
  unfolding list_del
  next_before h = ground (arith, at_prev, at_next, h)

  prev_behind : (behind == e) ≡ false → (list_del s e).prev behind ≡ before
  unfolding list_del
  prev_behind h = ground (arith, at_prev, at_next, not_self, h)

  nexts_of :
      (xs : List ℕ)
      → Without before xs
      → Without e xs
      → All (λ q. (list_del s e).next q ≡ s.next q) xs
  nexts_of [] b h = tt
  nexts_of (x ∷ xs) b h = (next_of x b.0 h.0, nexts_of xs b.1 h.1)

  prevs_of :
      (xs : List ℕ)
      → Without behind xs
      → Without e xs
      → All (λ q. (list_del s e).prev q ≡ s.prev q) xs
  prevs_of [] b h = tt
  prevs_of (x ∷ xs) b h = (prev_of x b.0 h.0, prevs_of xs b.1 h.1)

turn : (a b : ℕ) → (a == b) ≡ false → (b == a) ≡ false
turn a b h = ground (arith, h)

prev_not :
    (s : Links) (q e x last : ℕ) (as' bs : List ℕ)
    → Linked s q (as' ++ e ∷ bs) last
    → Without x (q ∷ as')
    → (s.prev e == x) ≡ false
prev_not s q e x last [] bs (link a b l) w = ap (λ n. n == x) b ∙ w.0
prev_not s q e x last (c ∷ as') bs (link a b l) w = prev_not s c e x last as' bs l w.1

next_not :
    (s : Links) (q e x last : ℕ) (as' bs : List ℕ)
    → Linked s q (as' ++ e ∷ bs) last
    → Without x (bs ++ last ∷ [])
    → (s.next e == x) ≡ false
next_not s q e x last [] [] (link a b (end c d)) w = ap (λ n. n == x) c ∙ w.0
next_not s q e x last [] (y ∷ bs) (link a b (link c d l)) w = ap (λ n. n == x) c ∙ w.0
next_not s q e x last (c ∷ as') bs (link a b l) w = next_not s c e x last as' bs l w

Without-left : (as' bs : List ℕ) (e : ℕ) → AreDistinct (as' ++ e ∷ bs) → Without e as'
Without-left [] bs e d = tt
Without-left (x ∷ as') bs e d =
    (turn e x (All-right (λ y. (y == x) ≡ false) as' (e ∷ bs) d.0).0, Without-left as' bs e d.1)

Without-rest : (a : ℕ) (as' bs : List ℕ) (e : ℕ) → Without a (as' ++ e ∷ bs) → Without a (as' ++ bs)
Without-rest a [] bs e w = w.1
Without-rest a (x ∷ as') bs e w = (w.0, Without-rest a as' bs e w.1)

AreDistinct-rest : (as' bs : List ℕ) (e : ℕ) → AreDistinct (as' ++ e ∷ bs) → AreDistinct (as' ++ bs)
AreDistinct-rest [] bs e d = d.1
AreDistinct-rest (x ∷ as') bs e d = (Without-rest x as' bs e d.0, AreDistinct-rest as' bs e d.1)

unlink :
    (s : Links) (p e last : ℕ) (as' bs : List ℕ)
    → Linked s p (as' ++ e ∷ bs) last
    → AreDistinct (p ∷ (as' ++ e ∷ bs))
    → Without last (as' ++ e ∷ bs)
    → Linked (list_del s e) p (as' ++ bs) last
unlink s p e last [] [] (link a b (end c d)) dist w =
    let p_e = turn e p dist.0.0 in
    end (next_before s e p last b c dist.0.0 p_e)
      (prev_behind s e p last b c dist.0.0 (turn e last w.0))
unlink s p e last [] (x ∷ bs) (link a b (link c d l)) dist w =
    let p_e = turn e p dist.0.0 in
    let last_x = turn x last w.1.0 in
    let away_e = not_last e last bs dist.1.0.1 (turn e last w.0) in
    link (next_before s e p x b c dist.0.0 p_e) (prev_behind s e p x b c dist.0.0 dist.1.0.0) (
      frame s (list_del s e) x bs last (nexts_of s e p x b c dist.0.0 (x ∷ bs) dist.0.1 dist.1.0)
        (prevs_of s e p x b c dist.0.0 (bs ++ last ∷ []) (not_last x last bs dist.1.1.0 last_x)
          away_e)
        l)
unlink s p e last (c ∷ as') bs (link a b l) dist w =
    let rest_p = dist.0 in
    let e_p = (All-right (λ x. (x == p) ≡ false) as' (e ∷ bs) rest_p.1).0 in
    let e_c = (All-right (λ x. (x == c) ≡ false) as' (e ∷ bs) dist.1.0).0 in
    let bs_c = (All-right (λ x. (x == c) ≡ false) as' (e ∷ bs) dist.1.0).1 in
    let as_p : Without p (c ∷ as') =
      (rest_p.0, All-left (λ x. (x == p) ≡ false) as' (e ∷ bs) rest_p.1) in
    let not_p = prev_not s c e p last as' bs l as_p in
    let not_c = next_not s c e c last as' bs l (not_last c last bs bs_c (turn c last w.0)) in
    let as_e : Without e (c ∷ as') = (turn e c e_c, Without-left as' bs e dist.1.1) in
    let not_e = prev_not s c e e last as' bs l as_e in
    link
      (next_of s e (s.prev e) (s.next e) refl refl (turn (s.prev e) e not_e) p
          (turn (s.prev e) p not_p) (turn e p e_p)
        ∙ a)
      (prev_of s e (s.prev e) (s.next e) refl refl (turn (s.prev e) e not_e) c
          (turn (s.next e) c not_c) (turn e c e_c)
        ∙ b)
      (unlink s c e last as' bs l dist.1 w.1)

-- A head that is removed from a list leaves the list of the others, in order.
pub list_del-IsRing :
    (s : Links) (head e : ℕ) (as' bs : List ℕ)
    → IsRing s head (as' ++ e ∷ bs)
    → IsRing (list_del s e) head (as' ++ bs)
list_del-IsRing s head e as' bs ring = record {
  linked = unlink s head e head as' bs ring.linked ring.distinct ring.distinct.0;
  distinct =
      (Without-rest head as' bs e ring.distinct.0, AreDistinct-rest as' bs e ring.distinct.1);
}
