-- ===== src/Primitive/Table/Grow.antt =====
-- A new data block at the end of a table, as `table_insert_row` adds it when the last one is full.
use midori_db.Prelude.{
  ℕ, zero, suc, ◌+◌, ◌-◌, ◌*◌, ◌/◌, ◌<◌, ◌≡◌, refl, sym, ap, ◌∙◌, [], ◌∷◌, ◌++◌, append-nil, length,
  drop, replicate, length-append, length-replicate, drop-append_length, All, All-append,
  All-replicate, arith,
}
use mathlib.Core.Path.{subst}
use native.Mathlib.Nat.{zero-div}
use midori_db.Primitive.Column.Laws.{row_size_pos}
use midori_db.Primitive.Row.{empty_row}
use midori_db.Primitive.Table.{Block, Table, slots, table_datablock_init}
use midori_db.Primitive.Table.Offsets.{usable}
use midori_db.Primitive.Table.Slots.{
  all_rows, live, live-append, live-free, length-all_rows, all_rows-append,
}
use midori_db.Primitive.Table.Valid.{IsFree, IsValid, row_size_of, free_slot}

-- The table with a new block at its end.
abbrev pub grown : Table → Table
grown t = record t {
  blocks = t.blocks ++ table_datablock_init [] 0 (row_size_of t) ∷ [];
  free_dtbkl_offset = 0;
}

new_block : (n : ℕ) → table_datablock_init [] 0 n ≡ replicate (slots n) empty_row
unfolding table_datablock_init
new_block n = rw (zero-div n) (ap (λ k. replicate k empty_row) (omega arith))

one_more : (k w : ℕ) → (k + 1 - 1) * w ≡ k * w
one_more k w = ap (λ j. j * w) (omega arith)

IsFree-rest : (j k : ℕ) → All IsFree (drop j (replicate k empty_row))
IsFree-rest zero k = All-replicate IsFree k empty_row (refl, refl)
IsFree-rest (suc j) zero = tt
IsFree-rest (suc j) (suc k) = IsFree-rest j k

module _ (t : Table) (valid : IsValid t) where
  abbrev size : ℕ
  size = row_size_of t

  pos : 0 < size
  pos = omega (arith, row_size_pos t.columns)

  abbrev fresh : Block
  fresh = replicate (slots size) empty_row

  grown_rows : all_rows (grown t).blocks ≡ all_rows t.blocks ++ fresh
  grown_rows =
      all_rows-append t.blocks (table_datablock_init [] 0 size ∷ [])
      ∙ ap (λ b. all_rows t.blocks ++ b)
          (append-nil (table_datablock_init [] 0 size) ∙ new_block size)

  fresh-IsFree : (j : ℕ) → All IsFree (drop j fresh)
  fresh-IsFree j = IsFree-rest j (slots size)

  grown_slot : free_slot (grown t) ≡ length (all_rows t.blocks)
  grown_slot = omega (
    arith,
    ap (λ k. (k - 1) * slots size + 0 / size)
        (length-append t.blocks (table_datablock_init [] 0 size ∷ [])),
    zero-div size,
    length-all_rows (slots size) t.blocks valid.width,
    one_more (length t.blocks) (slots size),
  )

  pub grown-live : live (all_rows (grown t).blocks) ≡ live (all_rows t.blocks)
  grown-live =
      ap live grown_rows
      ∙ live-append (all_rows t.blocks) fresh
      ∙ ap (λ r. live (all_rows t.blocks) ++ r) (live-free (slots size))
      ∙ append-nil (live (all_rows t.blocks))

  pub grown-IsValid : IsValid (grown t)
  grown-IsValid = record {
    fits = valid.fits;
    width =
        All-append (λ b. length b ≡ slots size) t.blocks _ valid.width
          (ap length (new_block size) ∙ length-replicate (slots size) empty_row, tt);
    spare =
        All-append (λ b. All IsFree (drop (usable size) b)) t.blocks _ valid.spare
          (
            subst (λ b. All IsFree (drop (usable size) b)) (sym (new_block size))
                (fresh-IsFree (usable size)),
            tt,
          );
    aligned = omega (arith, ap (λ q. q * size) (zero-div size));
    inside = omega arith;
    free =
        subst (λ p. All IsFree (drop p (all_rows (grown t).blocks))) (sym grown_slot)
          (subst (λ rows. All IsFree (drop (length (all_rows t.blocks)) rows)) (sym grown_rows)
            (subst (All IsFree) (sym (drop-append_length (all_rows t.blocks) fresh _ refl))
              (fresh-IsFree 0)));
  }
