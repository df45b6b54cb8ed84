-- ===== src/Primitive/Vacuum/Gap.antt =====
-- The slots of a table while it is vacuumed: those that are done, a gap of slots that hold no row,
-- and those that are still to be read.
use midori_db.Prelude.{
  ℕ, suc, ◌+◌, ◌<◌, ◌≡◌, refl, sym, ap, ◌∙◌, true, false, List, [], ◌∷◌, ◌++◌, append_assoc, length,
  get_elem?, set, count, count-nil, count-append, length-append, All, All-append,
  get_elem?-append_length, set-append_length, get_elem?-append_right, some, arith,
}
use mathlib.Core.Path.{subst}
use midori_db.Primitive.Column.{Column}
use midori_db.Primitive.Row.{Row, empty_row, table_free_row_content}
use midori_db.Primitive.Table.Slots.{is_live, live, live-append}
use midori_db.Primitive.Vacuum.{free_rows}

abbrev pub IsDead : Row → Type 0
IsDead r = is_live r ≡ false

abbrev pub IsClean : Row → Type 0
IsClean r = r.deleted ≡ false

-- Slots up to `q` are done and hold no deleted row, those from `q` to `p` hold no row.
pub record Gap (rows : List Row) (q p : ℕ) : Type 0 where
  pub done : List Row
  pub gap : List Row
  pub rest : List Row
  pub split : rows ≡ done ++ (gap ++ rest)
  pub at_q : length done ≡ q
  pub at_p : length done + length gap ≡ p
  pub clean : All IsClean done
  pub dead : All IsDead gap

next_of :
    {rows : List Row} {q p : ℕ} (g : Gap rows q p) (r : Row)
    → get_elem? rows p ≡ some r
    → (rest : List Row) × (g.rest ≡ r ∷ rest)
next_of {rows} {q} {p} g r e = go g.rest (sym at_rest ∙ e)
  where
    at_rest : get_elem? rows p ≡ get_elem? g.rest 0
    at_rest =
        ap (λ t. get_elem? t p) (g.split ∙ sym (append_assoc g.done g.gap g.rest))
        ∙ get_elem?-append_right (g.done ++ g.gap) g.rest 0 p
            (omega (arith, length-append g.done g.gap, g.at_p))

    go : (rest : List Row) → get_elem? rest 0 ≡ some r → (t : List Row) × (rest ≡ r ∷ t)
    go [] h = absurd (cc h)
    go (x ∷ t) h = (t, ap (λ y. y ∷ t) (cc h))

pub Gap-skip :
    {rows : List Row} {q p : ℕ} (r : Row)
    → Gap rows q p
    → get_elem? rows p ≡ some r
    → IsDead r
    → Gap rows q (suc p)
Gap-skip r g e d =
    let (rest, er) = next_of g r e in
    record {
      done = g.done;
      gap = g.gap ++ r ∷ [];
      rest = rest;
      split =
          g.split
          ∙ ap (λ t. g.done ++ (g.gap ++ t)) er
          ∙ ap (λ t. g.done ++ t) (sym (append_assoc g.gap (r ∷ []) rest));
      at_q = g.at_q;
      at_p = omega (arith, length-append g.gap (r ∷ []), g.at_p);
      clean = g.clean;
      dead = All-append IsDead g.gap (r ∷ []) g.dead (d, tt);
    }

-- The first slot of a gap that is not empty.
first_of_Gap :
    {rows : List Row} {q p : ℕ} (g : Gap rows q p) (x : Row)
    → q < p
    → get_elem? rows q ≡ some x
    → (gap : List Row) × (g.gap ≡ x ∷ gap)
first_of_Gap {rows} {q} {p} g x lt e = go g.gap refl
  where
    go : (gap : List Row) → g.gap ≡ gap → (t : List Row) × (gap ≡ x ∷ t)
    go [] h = absurd (omega (arith, ap length h, g.at_q, g.at_p))
    go (y ∷ t) h = (t, ap (λ z. z ∷ t) (cc (sym at ∙ e)))
      where
        at : get_elem? rows q ≡ some y
        at =
            ap (λ s. get_elem? s q) (g.split ∙ ap (λ s. g.done ++ (s ++ g.rest)) h)
            ∙ get_elem?-append_length g.done y (t ++ g.rest) q (sym g.at_q)

-- The first slot of the gap is given up.
pub Gap-jump :
    {rows : List Row} {q p : ℕ} (x : Row)
    → Gap rows q p
    → q < p
    → get_elem? rows q ≡ some x
    → IsClean x
    → Gap rows (suc q) p
Gap-jump x g lt e c =
    let (gap, eg) = first_of_Gap g x lt e in
    record {
      done = g.done ++ x ∷ [];
      gap = gap;
      rest = g.rest;
      split =
          g.split
          ∙ ap (λ t. g.done ++ (t ++ g.rest)) eg
          ∙ sym (append_assoc g.done (x ∷ []) (gap ++ g.rest));
      at_q = omega (arith, length-append g.done (x ∷ []), g.at_q);
      at_p = omega (arith, length-append g.done (x ∷ []), g.at_p, ap length eg);
      clean = All-append IsClean g.done (x ∷ []) g.clean (c, tt);
      dead = (subst (All IsDead) eg g.dead).1;
    }

no_gap : (gap : List Row) → length gap ≡ 0 → gap ≡ []
no_gap [] h = refl
no_gap (x ∷ gap) h = absurd (omega arith)

-- A row that is in place stays there.
pub Gap-keep :
    {rows : List Row} {q p : ℕ} (r : Row)
    → Gap rows q p
    → q ≡ p
    → get_elem? rows p ≡ some r
    → IsClean r
    → Gap rows (suc q) (suc p)
Gap-keep r g same e c =
    let (rest, er) = next_of g r e in
    let none_left = no_gap g.gap (omega (arith, g.at_q, g.at_p)) in
    record {
      done = g.done ++ r ∷ [];
      gap = [];
      rest = rest;
      split =
          g.split
          ∙ ap (λ t. g.done ++ (t ++ g.rest)) none_left
          ∙ ap (λ t. g.done ++ t) er
          ∙ sym (append_assoc g.done (r ∷ []) rest);
      at_q = omega (arith, length-append g.done (r ∷ []), g.at_q);
      at_p = omega (arith, length-append g.done (r ∷ []), g.at_q);
      clean = All-append IsClean g.done (r ∷ []) g.clean (c, tt);
      dead = tt;
    }

module _ (columns : List Column) where
  pub free_rows-append :
      (a b : List Row) → free_rows columns (a ++ b) ≡ free_rows columns a ++ free_rows columns b
  unfolding free_rows
  free_rows-append [] b = refl
  free_rows-append (r ∷ a) b =
      ap (λ t. table_free_row_content columns r ++ t) (free_rows-append a b)
      ∙ sym (
          append_assoc (table_free_row_content columns r) (free_rows columns a)
            (free_rows columns b))

  abbrev pub held : ℕ → List Row → ℕ
  held a rows = count a (free_rows columns rows)

  abbrev pub held_row : ℕ → Row → ℕ
  held_row a r = count a (table_free_row_content columns r)

  pub held-append : (a : ℕ) (x y : List Row) → held a (x ++ y) ≡ held a x + held a y
  held-append a x y =
      ap (count a) (free_rows-append x y)
      ∙ count-append a (free_rows columns x) (free_rows columns y)

  pub held-cons : (a : ℕ) (r : Row) (y : List Row) → held a (r ∷ y) ≡ held_row a r + held a y
  unfolding free_rows
  held-cons a r y = count-append a (table_free_row_content columns r) (free_rows columns y)

  pub held-empty_row : (a : ℕ) → held_row a empty_row ≡ 0
  unfolding table_free_row_content
  held-empty_row a = count-nil a

  -- A row moved from `p` to the first slot of the gap.
  pub record Moved (rows rows' : List Row) (q p : ℕ) (x : Row) : Type 0 where
    pub gap : Gap rows' (suc q) (suc p)
    pub same_rows : live rows' ≡ live rows
    pub lost : (a : ℕ) → held a rows ≡ held_row a x + held a rows'

  pub live_of_gap : (rows : List Row) → All IsDead rows → live rows ≡ []
  unfolding live
  live_of_gap [] h = refl
  live_of_gap (r ∷ rows) h = ground (arith, h.0, live_of_gap rows h.1)

  live_cons_dead : (r : Row) (rows : List Row) → IsDead r → live (r ∷ rows) ≡ live rows
  unfolding live
  live_cons_dead r rows h = ground (arith, h)

  live_cons_live : (r : Row) (rows : List Row) → is_live r ≡ true → live (r ∷ rows) ≡ r ∷ live rows
  unfolding live
  live_cons_live r rows h = ground (arith, h)

  module _ (d g t : List Row) (x r : Row) where
    before : List Row
    before = d ++ (x ∷ (g ++ r ∷ t))

    after : List Row
    after = d ++ (r ∷ (g ++ empty_row ∷ t))

    set_move :
        (q p : ℕ)
        → length d ≡ q
        → p ≡ length d + suc (length g)
        → set (set before q r) p empty_row ≡ after
    unfolding before after
    set_move q p hq hp =
        rw (set-append_length d x r (g ++ r ∷ t) q (sym hq), ← append_assoc d (r ∷ g) (r ∷ t))
          (set-append_length (d ++ r ∷ g) r empty_row t p (omega (arith, length-append d (r ∷ g)))
            ∙ append_assoc d (r ∷ g) (empty_row ∷ t))

    live_move : IsDead x → All IsDead g → is_live r ≡ true → live after ≡ live before
    unfolding before after
    live_move hx hg hr =
        rw (live-append d (x ∷ (g ++ r ∷ t)), live-append d (r ∷ (g ++ empty_row ∷ t)))
          (rw (live_cons_dead x (g ++ r ∷ t) hx, live_cons_live r (g ++ empty_row ∷ t) hr)
            (rw (live-append g (r ∷ t), live-append g (empty_row ∷ t), live_of_gap g hg)
              (rw (live_cons_live r t hr, live_cons_dead empty_row t refl))))

    held_move : (a : ℕ) → held a before ≡ held_row a x + held a after
    unfolding before after
    held_move a = omega (
      arith,
      held-append a d (x ∷ (g ++ r ∷ t)),
      held-append a d (r ∷ (g ++ empty_row ∷ t)),
      held-cons a x (g ++ r ∷ t),
      held-cons a r (g ++ empty_row ∷ t),
      held-append a g (r ∷ t),
      held-append a g (empty_row ∷ t),
      held-cons a r t,
      held-cons a empty_row t,
      held-empty_row a,
    )

  pub Gap-move :
      {rows : List Row} {q p : ℕ} (r x : Row)
      → Gap rows q p
      → q < p
      → get_elem? rows p ≡ some r
      → get_elem? rows q ≡ some x
      → is_live r ≡ true
      → IsClean r
      → Moved rows (set (set rows q r) p empty_row) q p x
  unfolding before after
  Gap-move {rows} {q} {p} r x g lt er ex hr cr =
      let (rest, erest) = next_of g r er in
      let (gap, egap) = first_of_Gap g x lt ex in
      let dead = subst (All IsDead) egap g.dead in
      let split : rows ≡ before g.done gap rest x r =
        g.split
        ∙ ap (λ t. g.done ++ (t ++ g.rest)) egap
        ∙ ap (λ t. g.done ++ (x ∷ (gap ++ t))) erest in
      let len : length g.gap ≡ suc (length gap) = ap length egap in
      let now : set (set rows q r) p empty_row ≡ after g.done gap rest x r =
        ap (λ t. set (set t q r) p empty_row) split
        ∙ set_move g.done gap rest x r q p g.at_q (omega (arith, g.at_p)) in
      record {
        gap = record {
          done = g.done ++ r ∷ [];
          gap = gap ++ empty_row ∷ [];
          rest = rest;
          split =
              now
              ∙ ap (λ t. g.done ++ (r ∷ t)) (sym (append_assoc gap (empty_row ∷ []) rest))
              ∙ sym (append_assoc g.done (r ∷ []) ((gap ++ empty_row ∷ []) ++ rest));
          at_q = omega (arith, length-append g.done (r ∷ []), g.at_q);
          at_p = omega (
            arith,
            length-append g.done (r ∷ []),
            length-append gap (empty_row ∷ []),
            g.at_p,
            len,
          );
          clean = All-append IsClean g.done (r ∷ []) g.clean (cr, tt);
          dead = All-append IsDead gap (empty_row ∷ []) dead.1 (refl, tt);
        };
        same_rows =
            ap live now ∙ live_move g.done gap rest x r dead.0 dead.1 hr ∙ sym (ap live split);
        lost = λ a.
            ap (held a) split
            ∙ held_move g.done gap rest x r a
            ∙ ap (λ t. held_row a x + held a t) (sym now);
      }
