-- ===== src/Engine/ExecutorDelete/Laws.antt =====
-- A DELETE of src/engine/executor_delete.c on the rows of a valid table.
use midori_db.Prelude.{
  ℕ, ◌+◌, ◌*◌, ◌<◌, ◌≤◌, ◌≡◌, refl, sym, ap, ◌∙◌, Bool, true, false, List, [], ◌∷◌, ◌++◌,
  append_assoc, length, length-append, All, All-left, All-right, All-map, Outcome, ok, fault,
  bind-Returns, Returns, arith,
}
use mathlib.Core.Path.{subst}
use midori_db.Heap.{Heap}
use midori_db.Primitive.Column.{Column, table_calc_row_size}
use midori_db.Primitive.Row.{Row, bitmap_size}
use midori_db.Primitive.Table.{Block, Table, slots}
use midori_db.Primitive.Table.Slots.{Width, all_rows, live, is_live}
use midori_db.Primitive.Table.Valid.{IsValid}
use midori_db.Engine.Database.{midoridb_ok}
use midori_db.Engine.ExecutorDelete.Compare.{Platform}
use midori_db.Engine.ExecutorDelete.Checked.{Readable}
use midori_db.Engine.ExecutorDelete.Evaluated.{IsChecked, eval_delete_row-Returns}
use midori_db.Engine.ExecutorDelete.Eval.{DelNode, eval_delete_row}
use midori_db.Engine.ExecutorDelete.Scan.{Scan, scan_slot, scan_slots, scan_blocks, scan_delete}
use midori_db.Engine.ExecutorDelete.Swept.{
  sweep, sweep_all, hits, hits_lem, hits-append, sweep_all-append, length-sweep_all, keep,
  live-sweep_all, Evaluates, OnTheWay, Swept, scan_slot-Swept,
}

module _ (p : Platform) (h : Heap) (node : DelNode) (columns : List Column) (holds : Row → Bool)
    (block_count : ℕ) where
  abbrev m : ℕ
  m = slots (table_calc_row_size columns)

  abbrev IsSwept : List Row → ℕ → Scan → Type 0
  IsSwept = Swept p h node columns holds block_count

  abbrev IsOnTheWay : List Row → Table → Type 0
  IsOnTheWay = OnTheWay p h node columns holds block_count

  abbrev AllEvaluate : List Row → Type 0
  AllEvaluate = All (Evaluates p h node columns holds block_count)

  Returns-same :
      {r : Outcome Scan} {rows rows' : List Row} {n n' : ℕ}
      → rows ≡ rows'
      → n ≡ n'
      → Returns r (IsSwept rows n)
      → Returns r (IsSwept rows' n')
  Returns-same {r} {rows} {rows'} {n} {n'} same_rows same_n returns =
      subst (λ rows. Returns r (IsSwept rows n')) same_rows
        (subst (λ n. Returns r (IsSwept rows n)) same_n returns)

  scan_slots-Swept :
      (todo done rest : List Row) (t : Table) (k i n : ℕ)
      → IsOnTheWay (done ++ (todo ++ rest)) t
      → length done ≡ k * m + i
      → i + length todo ≡ m
      → k < block_count
      → AllEvaluate todo
      → Returns
          (scan_slots p h node (length todo) t k i n)
          (IsSwept (done ++ (sweep_all holds todo ++ rest)) (n + hits holds todo))
  unfolding scan_slots
  scan_slots-Swept [] done rest t k i n way at left k_lt evals =
      ((midoridb_ok, t, n), refl, record { returns = refl; table = way; n_rows_aff = omega arith })
  scan_slots-Swept (y ∷ todo) done rest t k i n way at left k_lt evals =
      bind-Returns (scan_slot p h node t k i n) _
        (scan_slot-Swept p h node columns holds block_count done y (todo ++ rest) t k i n way at
          (omega (arith, left)) k_lt (evals.0))
        (λ out swept. rw (swept.returns) (
          Returns-same (append_assoc done (sweep holds y ∷ []) (sweep_all holds todo ++ rest))
            (omega (arith, swept.n_rows_aff))
            (scan_slots-Swept todo (done ++ sweep holds y ∷ []) rest (out.1) k (i + 1) (out.2)
              (subst (λ rows. IsOnTheWay rows (out.1))
                (sym (append_assoc done (sweep holds y ∷ []) (todo ++ rest))) swept.table)
              (omega (arith, length-append done (sweep holds y ∷ []), at)) (omega (arith, left))
              k_lt (evals.1))))

  scan_blocks-Swept :
      (bs : List Block) (done : List Row) (t : Table) (k n : ℕ)
      → IsOnTheWay (done ++ all_rows bs) t
      → Width m bs
      → length done ≡ k * m
      → k + length bs ≡ block_count
      → AllEvaluate (all_rows bs)
      → Returns
          (scan_blocks p h node (length bs) t k n)
          (IsSwept (done ++ sweep_all holds (all_rows bs)) (n + hits holds (all_rows bs)))
  unfolding scan_blocks
  scan_blocks-Swept [] done t k n way w at left evals =
      ((midoridb_ok, t, n), refl, record { returns = refl; table = way; n_rows_aff = omega arith })
  scan_blocks-Swept (b ∷ bs) done t k n way w at left evals =
      let rounds : slots (table_calc_row_size t.columns) ≡ length b =
        ap (λ cs. slots (table_calc_row_size cs)) way.columns_same ∙ sym (w.0) in
      bind-Returns {P = IsSwept (done ++ (sweep_all holds b ++ all_rows bs)) (n + hits holds b)}
        (scan_slots p h node (slots (table_calc_row_size t.columns)) t k 0 n) _
        (rw rounds (
          scan_slots-Swept b done (all_rows bs) t k 0 n way (omega (arith, at)) (omega (arith, w.0))
            (omega (arith, left))
            (All-left (Evaluates p h node columns holds block_count) b (all_rows bs) evals)))
        (λ out swept. rw (swept.returns) (
          Returns-same
            (append_assoc done (sweep_all holds b) (sweep_all holds (all_rows bs))
              ∙ ap (λ rows. done ++ rows) (sym (sweep_all-append holds b (all_rows bs))))
            (omega (arith, swept.n_rows_aff, hits-append holds b (all_rows bs)))
            (scan_blocks-Swept bs (done ++ sweep_all holds b) (out.1) (k + 1) (out.2)
              (subst (λ rows. IsOnTheWay rows (out.1))
                (sym (append_assoc done (sweep_all holds b) (all_rows bs))) swept.table)
              (w.1)
              (omega
                (arith, length-append done (sweep_all holds b), length-sweep_all holds b, at, w.0))
              (omega (arith, left))
              (All-right (Evaluates p h node columns holds block_count) b (all_rows bs) evals))))

-- The table that a DELETE leaves, and the number of its rows.
pub record Scanned (t : Table) (holds : Row → Bool) (n : ℕ) (out : Scan) : Type 0 where
  pub returns : out.0 ≡ midoridb_ok
  pub valid : IsValid out.1
  pub columns_same : out.1.columns ≡ t.columns
  pub rows : live (all_rows out.1.blocks) ≡ keep holds (live (all_rows t.blocks))
  pub n_rows_aff :
      out.2 + length (live (all_rows out.1.blocks)) ≡ n + length (live (all_rows t.blocks))

module _ (p : Platform) (h : Heap) (node : DelNode) (holds : Row → Bool) (t : Table) where
  pub scan_delete-Scanned :
      (n : ℕ)
      → IsValid t
      → All (Evaluates p h node t.columns holds (length t.blocks)) (all_rows t.blocks)
      → Returns (scan_delete p h node t n) (Scanned t holds n)
  unfolding scan_delete
  scan_delete-Scanned n valid evals =
      let (out, run, swept) =
        scan_blocks-Swept p h node t.columns holds (length t.blocks) t.blocks [] t 0 n
          (record { valid = valid; columns_same = refl; counted = refl; slots_now = refl })
          valid.width (omega arith) (omega arith) evals in
      (out, run, scanned out swept)
    where
      scanned :
          (out : Scan)
          → Swept p h node t.columns holds
              (length t.blocks)
              (sweep_all holds (all_rows t.blocks))
              (n + hits holds (all_rows t.blocks))
              out
          → Scanned t holds n out
      scanned out swept =
          let now : live (all_rows out.1.blocks) ≡ keep holds (live (all_rows t.blocks)) =
            ap live swept.table.slots_now ∙ live-sweep_all holds (all_rows t.blocks) in
          record {
            returns = swept.returns;
            valid = swept.table.valid;
            columns_same = swept.table.columns_same;
            rows = now;
            n_rows_aff =
                omega (arith, swept.n_rows_aff, ap length now, hits_lem holds (all_rows t.blocks));
          }

-- What the condition evaluates to.
abbrev pub decides : Outcome Bool → Bool
decides (ok b) = b
decides (fault _) = false

-- A row with a bitmap of its size, and with the texts of its varchar columns.
abbrev pub IsReadable : Heap → List Column → Row → Type 0
IsReadable h columns row =
    is_live row ≡ true
    → (length row.null_bitmap ≡ bitmap_size) × Readable h row.null_bitmap columns 0 row.cells

-- On a valid table of at most 128 columns, whose rows have their bitmaps and texts, and with a
-- condition whose names are columns of the table, whose values have a type, and in which two columns
-- that are compared are different ones of one type, scan_delete returns MIDORIDB_OK: the rows that the
-- table holds are those before, in order, without the ones that the condition evaluates to true on,
-- n_rows_aff grows by their number, and the table is valid.
pub scan_delete-checked :
    (p : Platform) (h : Heap) (node : DelNode) (t : Table) (n : ℕ)
    → IsValid t
    → length t.columns ≤ 128
    → IsChecked t.columns node
    → All (IsReadable h t.columns) (all_rows t.blocks)
    → Returns
        (scan_delete p h node t n)
        (Scanned t (λ r. decides (eval_delete_row p h t.columns r node)) n)
scan_delete-checked p h node t n valid few checked readable =
    scan_delete-Scanned p h node (λ r. decides (eval_delete_row p h t.columns r node)) t n valid
      (All-map evaluates (all_rows t.blocks) readable)
  where
    evaluates :
        (r : Row)
        → IsReadable h t.columns r
        → is_live r ≡ true
        → eval_delete_row p h t.columns r node ≡ ok (decides (eval_delete_row p h t.columns r node))
    evaluates r is alive =
        let (bitmap, texts) = is alive in
        let (b, e) = eval_delete_row-Returns p h t.columns r bitmap few texts node checked in
        e ∙ ap (λ o. ok (decides o)) (sym e)
