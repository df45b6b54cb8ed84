-- ===== src/Primitive/Vacuum/Ending.antt =====
-- The end of `table_vacuum`: the last block is cut behind its last row, and later blocks are freed.
use midori_db.Prelude.{
  ℕ, zero, suc, ◌+◌, ◌-◌, ◌*◌, ◌<◌, ◌≤◌, ◌≡◌, refl, sym, ap, ◌∙◌, List, [], ◌∷◌, ◌++◌, append_assoc,
  append-nil, length, take, drop, replicate, get_elem?, set, some, All, All-replicate, All-set,
  All-get, length-append, length-replicate, length-take_le, take-append-drop, take-append_length,
  drop-append_length, count, count-nil, count-append, arith,
}
use mathlib.Core.Path.{subst}
use midori_db.Primitive.Column.{Column}
use midori_db.Primitive.Row.{Row, empty_row}
use midori_db.Primitive.Table.{Block}
use midori_db.Primitive.Table.Slots.{
  all_rows, all_rows-append, live-free, Width, live, live-append, length-all_rows,
}
use midori_db.Primitive.Table.Valid.{IsFree, Spare}
use midori_db.Primitive.Vacuum.Gap.{held, held-append, held-cons, held-empty_row, free_rows-append}
use midori_db.Primitive.Vacuum.{free_rows, free_blocks}

-- The blocks up to place `dst`, with a new block there.
kept_lem :
    (bs : List Block) (dst : ℕ) (b : Block)
    → dst < length bs
    → take (suc dst) (set bs dst b) ≡ take dst bs ++ b ∷ []
kept_lem [] dst b h = absurd (omega arith)
kept_lem (c ∷ bs) zero b h = refl
kept_lem (c ∷ bs) (suc dst) b h = ap (λ t. c ∷ t) (kept_lem bs dst b (omega arith))

all_rows-split :
    (bs : List Block) (dst : ℕ) (b : Block)
    → get_elem? bs dst ≡ some b
    → all_rows bs ≡ all_rows (take dst bs) ++ (b ++ all_rows (drop (suc dst) bs))
all_rows-split [] dst b e = absurd (cc e)
all_rows-split (c ∷ bs) zero b e = let same : c ≡ b = cc e in rw same
all_rows-split (c ∷ bs) (suc dst) b e =
    ap (λ t. c ++ t) (all_rows-split bs dst b e)
    ∙ sym (append_assoc c (all_rows (take dst bs)) (b ++ all_rows (drop (suc dst) bs)))

Width-take : (n : ℕ) (bs : List Block) (dst : ℕ) → Width n bs → Width n (take dst bs)
Width-take n bs zero w = tt
Width-take n [] (suc dst) w = tt
Width-take n (b ∷ bs) (suc dst) w = (w.0, Width-take n bs dst w.1)

Spare-take : (m : ℕ) (bs : List Block) (dst : ℕ) → Spare m bs → Spare m (take dst bs)
Spare-take m bs zero w = tt
Spare-take m [] (suc dst) w = tt
Spare-take m (b ∷ bs) (suc dst) w = (w.0, Spare-take m bs dst w.1)

pub free_blocks-all_rows :
    (columns : List Column) (bs : List Block)
    → free_blocks columns bs ≡ free_rows columns (all_rows bs)
unfolding free_blocks
free_blocks-all_rows columns [] = refl
free_blocks-all_rows columns (b ∷ bs) =
    ap (λ t. free_rows columns b ++ t) (free_blocks-all_rows columns bs)
    ∙ sym (free_rows-append columns b (all_rows bs))

held-free : (columns : List Column) (a k : ℕ) → held columns a (replicate k empty_row) ≡ 0
unfolding free_rows
held-free columns a zero = count-nil a
held-free columns a (suc k) = omega (
  arith,
  held-cons columns a empty_row (replicate k empty_row),
  held-empty_row columns a,
  held-free columns a k,
)

-- A list that is empty from `j` on is free from `m` on, if `j` is at most `m`.
drop-IsFree :
    (m : ℕ) (xs : List Row) (k : ℕ)
    → length xs ≤ m
    → All IsFree (drop m (xs ++ replicate k empty_row))
drop-IsFree zero [] k h = All-replicate IsFree k empty_row (refl, refl)
drop-IsFree zero (x ∷ xs) k h = absurd (omega arith)
drop-IsFree (suc m) [] zero h = tt
drop-IsFree (suc m) [] (suc k) h = drop-IsFree m [] k (omega arith)
drop-IsFree (suc m) (x ∷ xs) k h = drop-IsFree m xs k (omega arith)

module _ (bs : List Block) (n : ℕ) (width : Width n bs) (dst j : ℕ) (last : Block)
    (at_dst : get_elem? bs dst ≡ some last) (dst_lt : dst < length bs) (j_le : j ≤ n)
    (kept gap : List Row) (split : all_rows bs ≡ kept ++ gap)
    (at_q : length kept ≡ dst * n + j) where
  abbrev pub cut : Block
  cut = take j last ++ replicate (n - j) empty_row

  last_width : length last ≡ n
  last_width = All-get (λ b. length b ≡ n) bs dst width at_dst

  front : List Row
  front = all_rows (take dst bs) ++ take j last

  back : List Row
  back = drop j last ++ all_rows (drop (suc dst) bs)

  parts : all_rows bs ≡ front ++ back
  unfolding front back
  parts =
      all_rows-split bs dst last at_dst
      ∙ ap (λ t. all_rows (take dst bs) ++ (t ++ all_rows (drop (suc dst) bs)))
          (sym (take-append-drop j last))
      ∙ ap (λ t. all_rows (take dst bs) ++ t)
          (append_assoc (take j last) (drop j last) (all_rows (drop (suc dst) bs)))
      ∙ sym (append_assoc (all_rows (take dst bs)) (take j last) back)

  length-front : length front ≡ length kept
  unfolding front
  length-front = omega (
    arith,
    length-append (all_rows (take dst bs)) (take j last),
    length-all_rows n (take dst bs) (Width-take n bs dst width),
    ap (λ t. t * n) (length-take_le dst bs (omega arith)),
    length-take_le j last (omega (arith, last_width)),
    at_q,
  )

  front-eq : front ≡ kept
  front-eq =
      sym (take-append_length front back (length kept) (sym length-front))
      ∙ ap (take (length kept)) (sym parts ∙ split)
      ∙ take-append_length kept gap (length kept) refl

  back-eq : back ≡ gap
  back-eq =
      sym (drop-append_length front back (length kept) (sym length-front))
      ∙ ap (drop (length kept)) (sym parts ∙ split)
      ∙ drop-append_length kept gap (length kept) refl

  abbrev pub new_blocks : List Block
  new_blocks = take (suc dst) (set bs dst cut)

  pub all_rows-new : all_rows new_blocks ≡ kept ++ replicate (n - j) empty_row
  unfolding front
  all_rows-new =
      ap all_rows (kept_lem bs dst cut dst_lt)
      ∙ all_rows-append (take dst bs) (cut ∷ [])
      ∙ ap (λ t. all_rows (take dst bs) ++ t) (append-nil cut)
      ∙ sym (append_assoc (all_rows (take dst bs)) (take j last) (replicate (n - j) empty_row))
      ∙ ap (λ t. t ++ replicate (n - j) empty_row) front-eq

  pub length-new : length new_blocks ≡ suc dst
  length-new =
      ap length (kept_lem bs dst cut dst_lt)
      ∙ omega (arith, length-append (take dst bs) (cut ∷ []), length-take_le dst bs (omega arith))

  cut_width : length cut ≡ n
  cut_width = omega (
    arith,
    length-append (take j last) (replicate (n - j) empty_row),
    length-take_le j last (omega (arith, last_width)),
    length-replicate (n - j) empty_row,
  )

  pub Width-new : Width n new_blocks
  Width-new =
      Width-take n (set bs dst cut) (suc dst)
        (All-set (λ b. length b ≡ n) bs dst cut width cut_width)

  pub Spare-new : (m : ℕ) → j ≤ m → Spare m bs → Spare m new_blocks
  Spare-new m le spare = Spare-take m (set bs dst cut) (suc dst) (
      All-set (λ b. All IsFree (drop m b)) bs dst cut spare
        (drop-IsFree m (take j last) (n - j)
          (omega (arith, length-take_le j last (omega (arith, last_width))))))

  pub live-new : live (all_rows new_blocks) ≡ live kept
  live-new =
      ap live all_rows-new
      ∙ live-append kept (replicate (n - j) empty_row)
      ∙ ap (λ t. live kept ++ t) (live-free (n - j))
      ∙ append-nil (live kept)

  pub IsFree-new : All IsFree (drop (dst * n + j) (all_rows new_blocks))
  IsFree-new =
      subst (λ t. All IsFree (drop (dst * n + j) t)) (sym all_rows-new)
        (subst (All IsFree)
          (sym (drop-append_length kept (replicate (n - j) empty_row) (dst * n + j) (sym at_q)))
          (All-replicate IsFree (n - j) empty_row (refl, refl)))

  -- The rows that are freed at the end are those of the gap.
  pub held-new :
      (columns : List Column) (a : ℕ)
      → count a (free_rows columns (drop j last) ++ free_blocks columns (drop (suc dst) bs))
          + held columns a (all_rows new_blocks)
        ≡ held columns a (all_rows bs)
  unfolding back
  held-new columns a = omega (
    arith,
    count-append a (free_rows columns (drop j last)) (free_blocks columns (drop (suc dst) bs)),
    ap (count a) (free_blocks-all_rows columns (drop (suc dst) bs)),
    held-append columns a (drop j last) (all_rows (drop (suc dst) bs)),
    ap (held columns a) back-eq,
    ap (held columns a) all_rows-new,
    held-append columns a kept (replicate (n - j) empty_row),
    held-free columns a (n - j),
    ap (held columns a) split,
    held-append columns a kept gap,
  )
