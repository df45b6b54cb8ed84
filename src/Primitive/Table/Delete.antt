-- ===== src/Primitive/Table/Delete.antt =====
-- `table_delete_row` of src/primitive/row.c takes one row out of those that the table holds.
use midori_db.Prelude.{
  ℕ, zero, suc, ◌+◌, ◌-◌, ◌*◌, ◌/◌, ◌<◌, ◌≡◌, refl, sym, ap, ◌∙◌, Bool, true, false, ◌||◌, List, [],
  ◌∷◌, ◌++◌, length, length-set, take, drop, get_elem?, set, set, drop-set_lt, some, All, All-set,
  All-get, leb, ok, Returns, arith,
}
use mathlib.Core.Path.{subst}
use midori_db.Primitive.Column.Laws.{row_size_pos}
use midori_db.Primitive.Row.{Row}
use midori_db.Primitive.Table.{Block, Table, page_size, slots, put_row, table_delete_row}
use midori_db.Primitive.Table.Access.{block_at_lem, row_at_lem}
use midori_db.Primitive.Table.Offsets.{usable, le-usable-inside, usable-le-slots, div_at}
use midori_db.Primitive.Table.Slots.{all_rows, all_rows-put, get-all_rows, Width-put, is_live, live}
use midori_db.Primitive.Table.Valid.{IsFree, IsValid, row_size_of, free_slot}

-- A row that is held stands before the slots that are free.
before_free :
    (n i : ℕ) (rows : List Row) (r : Row)
    → get_elem? rows i ≡ some r
    → is_live r ≡ true
    → All IsFree (drop n rows)
    → i < n
before_free n i [] r e alive free = absurd (cc e)
before_free zero i rows r e alive free =
    let f = All-get IsFree rows i free e in absurd (ground (arith, alive, f.0, f.1))
before_free (suc n) zero (x ∷ rows) r e alive free = omega arith
before_free (suc n) (suc i) (x ∷ rows) r e alive free =
    omega (arith, before_free n i rows r e alive free)

get-lt : (rows : List Row) (p : ℕ) (r : Row) → get_elem? rows p ≡ some r → p < length rows
get-lt [] p r e = absurd (cc e)
get-lt (x ∷ rows) zero r e = omega arith
get-lt (x ∷ rows) (suc p) r e = omega (arith, get-lt rows p r e)

live_at :
    (rows : List Row) (p : ℕ) (r : Row)
    → get_elem? rows p ≡ some r
    → is_live r ≡ true
    → live rows ≡ live (take p rows) ++ r ∷ live (drop (suc p) rows)
unfolding live
live_at [] p r e alive = absurd (cc e)
live_at (x ∷ rows) zero r e alive = let same : x ≡ r = cc e in rw (same, alive)
live_at (x ∷ rows) (suc p) r e alive = ground (arith, live_at rows p r e alive)

live_without :
    (rows : List Row) (p : ℕ) (r : Row)
    → is_live r ≡ false
    → p < length rows
    → live (set rows p r) ≡ live (take p rows) ++ live (drop (suc p) rows)
unfolding live
live_without [] p r dead lt = absurd (omega arith)
live_without (x ∷ rows) zero r dead lt = rw dead
live_without (x ∷ rows) (suc p) r dead lt = ground (arith, live_without rows p r dead (omega arith))

-- A table `r.1` after the row `row` at slot `p` of the table `t` was deleted.
pub record Deleted (t : Table) (p : ℕ) (row : Row) (r : Bool × Table) : Type 0 where
  pub returns : r.0 ≡ true
  pub before_rows :
      live (all_rows t.blocks)
      ≡ live (take p (all_rows t.blocks)) ++ row ∷ live (drop (suc p) (all_rows t.blocks))
  pub after_rows :
      live (all_rows r.1.blocks)
      ≡ live (take p (all_rows t.blocks)) ++ live (drop (suc p) (all_rows t.blocks))
  pub valid : IsValid r.1
  pub columns : r.1.columns ≡ t.columns
  pub block_count : length r.1.blocks ≡ length t.blocks
  pub marked : all_rows r.1.blocks ≡ set (all_rows t.blocks) p (record row { deleted = true })

module _ (t : Table) (valid : IsValid t) (k i : ℕ) (b : Block)
    (at_k : get_elem? t.blocks k ≡ some b) (row : Row) (at_i : get_elem? b i ≡ some row)
    (alive : is_live row ≡ true) where
  abbrev rs : ℕ
  rs = row_size_of t

  abbrev m : ℕ
  m = slots rs

  pos : 0 < rs
  pos = omega (arith, row_size_pos t.columns)

  i_lt : i < usable rs
  i_lt =
      before_free (usable rs) i b row at_i alive
        (All-get (λ b. All IsFree (drop (usable rs) b)) t.blocks k valid.spare at_k)

  abbrev p : ℕ
  p = k * m + i

  at_p : get_elem? (all_rows t.blocks) p ≡ some row
  at_p =
      get-all_rows m t.blocks k i b valid.width at_k (omega (arith, i_lt, usable-le-slots rs pos))
      ∙ at_i

  p_lt : p < free_slot t
  p_lt = before_free (free_slot t) p (all_rows t.blocks) row at_p alive valid.free

  p_lt_length : p < length (all_rows t.blocks)
  p_lt_length = get-lt (all_rows t.blocks) p row at_p

  abbrev gone : Row
  gone = record row { deleted = true }

  abbrev t' : Table
  t' = record t { blocks = put_row t.blocks k b i gone }

  now : all_rows t'.blocks ≡ set (all_rows t.blocks) p gone
  now =
      all_rows-put m t.blocks k i b gone valid.width at_k
        (omega (arith, i_lt, usable-le-slots rs pos))

  t'-IsValid : IsValid t'
  t'-IsValid = record {
    fits = valid.fits;
    width = Width-put m t.blocks k i b gone valid.width at_k;
    spare =
        All-set (λ b. All IsFree (drop (usable rs) b)) t.blocks k (set b i gone) valid.spare
          (subst (All IsFree) (sym (drop-set_lt (usable rs) i gone b i_lt))
            (All-get (λ b. All IsFree (drop (usable rs) b)) t.blocks k valid.spare at_k));
    aligned = valid.aligned;
    inside = valid.inside;
    free =
        subst (λ l. All IsFree (drop ((l - 1) * m + t.free_dtbkl_offset / rs) (all_rows t'.blocks)))
          (sym (length-set t.blocks k (set b i gone)))
          (subst (λ rows. All IsFree (drop (free_slot t) rows)) (sym now)
            (subst (All IsFree) (sym (drop-set_lt (free_slot t) p gone (all_rows t.blocks) p_lt))
              valid.free));
  }

  deletes : table_delete_row t k (i * rs) ≡ ok (true, t')
  unfolding table_delete_row
  deletes =
      let inside : leb page_size (i * rs) ≡ false =
        ground (arith, le-usable-inside rs pos i (omega (arith, i_lt))) in
      let held : (row.deleted || row.empty) ≡ false = ground (arith, alive) in
      rw (
        inside,
        block_at_lem t.blocks k b at_k,
        row_at_lem rs pos b i row at_i,
        held,
        div_at rs pos i,
      )

  -- In a valid table, the deletion of the row in slot `i` of block `k` returns true: the rows that
  -- the table holds are those before and those behind it, in order, and the table is valid.
  pub table_delete_row-Deleted : Returns (table_delete_row t k (i * rs)) (Deleted t p row)
  table_delete_row-Deleted = (
    (true, t'),
    deletes,
    record {
      returns = refl;
      before_rows = live_at (all_rows t.blocks) p row at_p alive;
      after_rows = ap live now ∙ live_without (all_rows t.blocks) p gone refl p_lt_length;
      valid = t'-IsValid;
      columns = refl;
      block_count = length-set t.blocks k (set b i gone);
      marked = now;
    },
  )
