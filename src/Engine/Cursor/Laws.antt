-- ===== src/Engine/Cursor/Laws.antt =====
-- The rows that a caller of `query_cur_step` sees.
use midori_db.Prelude.{
  ℕ, zero, suc, ◌+◌, ◌*◌, ◌<◌, ◌≤◌, ◌≡◌, refl, sym, ap, ◌∙◌, true, false, List, [], ◌∷◌, ◌++◌,
  append_assoc, length, length-append, get_elem?, get_elem?-append_length, get_elem?-none, Option,
  none, some, All, ltb, if◌then◌else◌, Outcome, ok, fault, segfault, bug_if, ◌>>=◌, ◌>>◌, arith,
}
use native.Mathlib.Nat.{div-mul-le_self, zero-mul}
use midori_db.Primitive.Column.Laws.{row_size_pos}
use midori_db.Primitive.Row.{Row}
use midori_db.Primitive.Table.{Block, Table, page_size, slots}
use midori_db.Primitive.Table.Access.{block_at_lem}
use midori_db.Primitive.Table.Offsets.{div_at}
use midori_db.Primitive.Table.Valid.{row_size_of}
use midori_db.Engine.Cursor.{
  ResultSet, StepResult, midoridb_ok, midoridb_row, at_row, next_position, cursor_row, step_to,
  query_cur_step,
}

-- The row under the cursor, where a step has returned MIDORIDB_ROW.
abbrev pub current : (ℕ → Row) → ResultSet → Outcome Row
current tail res = elim res.cursor_blk [
  | none ↦ fault segfault
  | some blk ↦ cursor_row tail res.table blk res.cursor_offset (row_size_of res.table)
]

-- A caller's loop: the rows of `rounds` steps, or of those before the end of the result.
unfoldable pub read_rows : (ℕ → Row) → ℕ → ResultSet → Outcome (List Row × StepResult)
read_rows tail zero res = ok ([], midoridb_row)
read_rows tail (suc rounds) res = query_cur_step tail res >>= λ stepped. elim stepped.0 [
  | midoridb_ok ↦ ok ([], midoridb_ok)
  | midoridb_row ↦ current tail stepped.1 >>= λ row.
      read_rows tail rounds stepped.1 >>= λ rest. ok (row ∷ rest.0, rest.1)
]

abbrev pub IsRow : Row → Type 0
IsRow row = (row.empty ≡ false) × (row.deleted ≡ false)

module _ (tail : ℕ → Row) (table : Table) where
  abbrev rs : ℕ
  rs = row_size_of table

  pos : 0 < rs
  pos = omega (arith, row_size_pos table.columns)

  -- The cursor at slot `i` of block `blk`.
  abbrev pub cursor_at : ℕ → ℕ → ResultSet
  cursor_at blk i = record { table = table; cursor_blk = some blk; cursor_offset = i * rs }

  -- The slots end in the page.
  slots-fit : (i : ℕ) → i < slots rs → (i * rs + rs) ≤ page_size
  slots-fit i lt =
      let all = div-mul-le_self page_size rs in
      let part : suc i * rs ≤ slots rs * rs = grind arith in grind arith

  step_of :
      (cursor_blk : Option ℕ) (cursor_offset blk offset : ℕ)
      → next_position
          (record { table = table; cursor_blk = cursor_blk; cursor_offset = cursor_offset })
          rs
        ≡ at_row blk offset
      → query_cur_step tail
          (record { table = table; cursor_blk = cursor_blk; cursor_offset = cursor_offset })
        ≡ step_to tail
            (record { table = table; cursor_blk = cursor_blk; cursor_offset = cursor_offset })
            blk
            offset
            rs
  unfolding query_cur_step
  step_of cursor_blk cursor_offset blk offset to = rw (query_cur_step, to)

  module _ (blk : ℕ) (block : Block) (there : get_elem? table.blocks blk ≡ some block) where
    cursor_row-at :
        (i : ℕ) (row : Row)
        → get_elem? block i ≡ some row
        → cursor_row tail table blk (i * rs) rs ≡ ok row
    unfolding cursor_row
    cursor_row-at i row e = rw (block_at_lem table.blocks blk block there, div_at rs pos i, e)

    module _ (cursor_blk : Option ℕ) (cursor_offset i : ℕ) where
      res : ResultSet
      res = record { table = table; cursor_blk = cursor_blk; cursor_offset = cursor_offset }

      -- A step to slot `i`.
      step_at :
          (row : Row)
          → next_position res rs ≡ at_row blk (i * rs)
          → get_elem? block i ≡ some row
          → row.deleted ≡ false
          → query_cur_step tail res
            ≡ ok (if row.empty then midoridb_ok else midoridb_row, cursor_at blk i)
      unfolding step_to res
      step_at row to e alive =
          step_of cursor_blk cursor_offset blk (i * rs) to ∙ (rw (cursor_row-at i row e, alive))

      read_end :
          (rounds : ℕ)
          → query_cur_step tail res ≡ ok (midoridb_ok, cursor_at blk i)
          → read_rows tail (suc rounds) res ≡ ok ([], midoridb_ok)
      unfolding read_rows
      read_end rounds step = rw step

      read_next :
          (rounds : ℕ) (row : Row) (rest : List Row) (last : StepResult)
          → query_cur_step tail res ≡ ok (midoridb_row, cursor_at blk i)
          → cursor_row tail table blk (i * rs) rs ≡ ok row
          → read_rows tail rounds (cursor_at blk i) ≡ ok (rest, last)
          → read_rows tail (suc rounds) res ≡ ok (row ∷ rest, last)
      unfolding read_rows
      read_next rounds row rest last step here later = rw step (rw here (rw later))

    next_at : (i : ℕ) → i < slots rs → next_position (cursor_at blk i) rs ≡ at_row blk (suc i * rs)
    unfolding next_position
    next_at i lt =
        let inside : ltb page_size (i * rs + rs) ≡ false = ground (arith, slots-fit i lt) in
        let step : i * rs + rs ≡ suc i * rs = grind arith in rw inside (ap (at_row blk) step)

    read_from :
        (pre xs : List Row) (free : Row) (rest : List Row) (cursor_blk : Option ℕ)
        (cursor_offset i : ℕ)
        → block ≡ pre ++ (xs ++ free ∷ rest)
        → length block ≡ slots rs
        → length pre ≡ i
        → All IsRow xs
        → free.empty ≡ true
        → free.deleted ≡ false
        → next_position
            (record { table = table; cursor_blk = cursor_blk; cursor_offset = cursor_offset })
            rs
          ≡ at_row blk (i * rs)
        → read_rows tail
            (suc (length xs))
            (record { table = table; cursor_blk = cursor_blk; cursor_offset = cursor_offset })
          ≡ ok (xs, midoridb_ok)
    unfolding res
    read_from pre [] free rest cursor_blk cursor_offset i parts wide at rows empty alive to =
        let e = ap (λ b. get_elem? b i) parts ∙ get_elem?-append_length pre free rest i (sym at) in
        read_end cursor_blk cursor_offset i 0 (
          step_at cursor_blk cursor_offset i free to e alive
          ∙ ap (λ b. ok (if b then midoridb_ok else midoridb_row, cursor_at blk i)) empty)
    read_from pre (x ∷ xs) free rest cursor_blk cursor_offset i parts wide at rows empty alive to =
        let e =
          ap (λ b. get_elem? b i) parts
          ∙ get_elem?-append_length pre x (xs ++ free ∷ rest) i (sym at) in
        let lt : i < slots rs =
          omega (arith, wide, at, ap length parts, length-append pre (x ∷ (xs ++ free ∷ rest))) in
        read_next cursor_blk cursor_offset i (suc (length xs)) x xs midoridb_ok
          (step_at cursor_blk cursor_offset i x to e rows.0.1
            ∙ ap (λ b. ok (if b then midoridb_ok else midoridb_row, cursor_at blk i)) rows.0.0)
          (cursor_row-at i x e)
          (read_from (pre ++ x ∷ []) xs free rest (some blk) (i * rs) (suc i)
            (parts ∙ sym (append_assoc pre (x ∷ []) (xs ++ free ∷ rest))) wide
            (omega (arith, at, length-append pre (x ∷ []))) rows.1 empty alive (next_at i lt))

    -- From the last slot of a block with rows in all its slots, the cursor goes to the bytes behind
    -- that slot, whatever block comes next: what they read as decides what the step returns.
    pub query_cur_step-behind_last :
        (n : ℕ)
        → length block ≡ suc n
        → suc n ≡ slots rs
        → query_cur_step tail (cursor_at blk n)
          ≡ bug_if (tail blk).deleted
            >> ok (if (tail blk).empty then midoridb_ok else midoridb_row, cursor_at blk (suc n))
    unfolding step_to cursor_row
    query_cur_step-behind_last n wide all =
        step_of (some blk) (n * rs) blk (suc n * rs) (next_at n (omega (arith, all)))
        ∙ (rw (
          block_at_lem table.blocks blk block there,
          div_at rs pos (suc n),
          get_elem?-none block (suc n) (omega (arith, wide)),
        ))

  -- A result whose first block has rows in its first slots and a free slot behind them is read row
  -- by row: a caller that steps until the end of the result sees these rows, in order.
  pub read_rows-block :
      (block : Block) (xs : List Row) (free : Row) (rest : List Row)
      → get_elem? table.blocks 0 ≡ some block
      → block ≡ xs ++ free ∷ rest
      → length block ≡ slots rs
      → All IsRow xs
      → free.empty ≡ true
      → free.deleted ≡ false
      → read_rows tail
          (suc (length xs))
          (record { table = table; cursor_blk = none; cursor_offset = 0 })
        ≡ ok (xs, midoridb_ok)
  unfolding next_position
  read_rows-block block xs free rest there parts wide rows empty alive =
      let first : at_row 0 0 ≡ at_row 0 (0 * rs) = ap (at_row 0) (sym (zero-mul rs)) in
      read_from 0 block there [] xs free rest none 0 0 parts wide refl rows empty alive first
