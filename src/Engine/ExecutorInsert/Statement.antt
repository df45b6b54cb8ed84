-- ===== src/Engine/ExecutorInsert/Statement.antt =====
-- An INSERT of src/engine/executor_insert.c with several lists of values.
use midori_db.Prelude.{
  ℕ, ◌+◌, ◌≤◌, ◌≡◌, refl, sym, ap, ◌∙◌, true, false, List, [], ◌∷◌, ◌++◌, append_assoc, append-nil,
  length, replicate, none, Outcome, ok, if_false, Returns, bind-Returns, arith,
}
use midori_db.Heap.{Heap}
use midori_db.Primitive.Column.{Column}
use midori_db.Primitive.Row.{Row}
use midori_db.Primitive.Row.Values.{Value, values, IsHeap, Extends, Extends-trans, in_use}
use midori_db.Primitive.Row.Kept.{values-below}
use midori_db.Primitive.Table.{Table}
use midori_db.Primitive.Table.Slots.{all_rows, live}
use midori_db.Primitive.Table.Valid.{IsValid}
use midori_db.Engine.Database.{ReturnCode, midoridb_ok}
use midori_db.Engine.ExecutorInsert.Cells.{InsVal, ParseTime}
use midori_db.Engine.ExecutorInsert.Built.{Storable, number, nothing, time, string}
use midori_db.Engine.ExecutorInsert.Rows.{AllStorable}
use midori_db.Engine.ExecutorInsert.Run.{
  InsItem, inscols, ins_values, InsNode, Grants, loop_done, insert_values, insert_children,
  insert_stmt, build_column_order,
}
use midori_db.Engine.ExecutorInsert.Laws.{natural, InsertedValues, insert_values-Inserted}

-- The lists of values of the statement, and what they are in the table.
abbrev pub AllRows : ParseTime → Heap → List Column → List InsItem → List (List Value) → Type 0
AllRows parse_time h columns [] [] = Unit
AllRows parse_time h columns [] (vs ∷ vss) = ⊥
AllRows parse_time h columns (inscols names ∷ children) vss =
    AllRows parse_time h columns children vss
AllRows parse_time h columns (ins_values vals ∷ children) [] = ⊥
AllRows parse_time h columns (ins_values vals ∷ children) (vs ∷ vss) =
    AllStorable parse_time h columns vals vs × AllRows parse_time h columns children vss

-- Rows with their values.
abbrev pub HaveValues : Heap → List Column → List Row → List (List Value) → Type 0
HaveValues h columns [] [] = Unit
HaveValues h columns [] (vs ∷ vss) = ⊥
HaveValues h columns (r ∷ rows) [] = ⊥
HaveValues h columns (r ∷ rows) (vs ∷ vss) =
    (values h columns 0 r.null_bitmap r.cells ≡ vs) × HaveValues h columns rows vss

-- The state after the rows of the values `vss` were inserted.
pub record InsertedRows (h : Heap) (t : Table) (columns : List Column) (vss : List (List Value))
    (h' : Heap) (t' : Table) : Type 0 where
  pub new : List Row
  pub rows : live (all_rows t'.blocks) ≡ live (all_rows t.blocks) ++ new
  pub stored : HaveValues h' columns new vss
  pub extends : Extends h h'
  pub valid : IsValid t'
  pub columns_same : t'.columns ≡ columns

module _ {h h' : Heap} (heap : IsHeap h) (x : Extends h h') (parse_time : ParseTime) where
  Storable-kept :
      (column : Column) (val : InsVal) (v : Value)
      → Storable parse_time h column val v
      → Storable parse_time h' column val v
  Storable-kept column val v (number num there plain) = number num there plain
  Storable-kept column val v (nothing num is_null) = nothing num is_null
  Storable-kept column val v (time t num there str dated plain parsed) =
      time t num there str dated plain parsed
  Storable-kept column val v (string src num there str dated var at long) =
      string src num there str dated var
        (x.kept val.address (in_use h val.address src heap at) ∙ at) long

  AllStorable-kept :
      (columns : List Column) (vals : List InsVal) (vs : List Value)
      → AllStorable parse_time h columns vals vs
      → AllStorable parse_time h' columns vals vs
  AllStorable-kept [] [] [] all = tt
  AllStorable-kept [] [] (v ∷ vs) all = elim all [ ]
  AllStorable-kept [] (val ∷ vals) vs all = elim all [ ]
  AllStorable-kept (column ∷ columns) [] vs all = elim all [ ]
  AllStorable-kept (column ∷ columns) (val ∷ vals) [] all = elim all [ ]
  AllStorable-kept (column ∷ columns) (val ∷ vals) (v ∷ vs) all =
      (Storable-kept column val v (all.0), AllStorable-kept columns vals vs (all.1))

  AllRows-kept :
      (columns : List Column) (children : List InsItem) (vss : List (List Value))
      → AllRows parse_time h columns children vss
      → AllRows parse_time h' columns children vss
  AllRows-kept columns [] [] all = tt
  AllRows-kept columns [] (vs ∷ vss) all = elim all [ ]
  AllRows-kept columns (inscols names ∷ children) vss all = AllRows-kept columns children vss all
  AllRows-kept columns (ins_values vals ∷ children) [] all = elim all [ ]
  AllRows-kept columns (ins_values vals ∷ children) (vs ∷ vss) all =
      (AllStorable-kept columns vals vs (all.0), AllRows-kept columns children vss (all.1))

Returns-map {ℓ κ μ} :
    {A : Type ℓ} {P : A → Type κ} {Q : A → Type μ} {r : Outcome A}
    → Returns r P
    → ((a : A) → P a → Q a)
    → Returns r Q
Returns-map (a, run, p) f = (a, run, f a p)

-- The first of the lists, and the others behind it.
join-InsertedRows :
    (parse_time : ParseTime) (h : Heap) (columns : List Column) (vals : List InsVal)
    (vs : List Value) (vss : List (List Value)) (few : length columns ≤ 128)
    (all : AllStorable parse_time h columns vals vs) (t : Table) (out : ReturnCode × Heap × Table)
    (h' : Heap) (t' : Table)
    → InsertedValues parse_time h columns vals vs few all t out
    → InsertedRows (out.1) (out.2) columns vss h' t'
    → InsertedRows h t columns (vs ∷ vss) h' t'
join-InsertedRows parse_time h columns vals vs vss few all t out h' t' one others = record {
  new = one.new ∷ others.new;
  rows =
      others.rows
      ∙ ap (λ rows. rows ++ others.new) one.rows
      ∙ append_assoc (live (all_rows t.blocks)) (one.new ∷ []) others.new;
  stored = (
    values-below columns 0 one.new.null_bitmap one.new.cells others.extends one.below ∙ one.stored,
    others.stored,
  );
  extends = Extends-trans one.extends others.extends;
  valid = others.valid;
  columns_same = others.columns_same;
}

module _ (parse_time : ParseTime) (grants : Grants) (columns : List Column)
    (few : length columns ≤ 128) (rows_granted : (i : ℕ) → grants.row i ≡ true)
    (blocks_granted : (i : ℕ) → grants.block i ≡ true) where
  insert_children-Inserted :
      (children : List InsItem) (vss : List (List Value)) (h : Heap) (t : Table) (i : ℕ)
      → AllRows parse_time h columns children vss
      → t.columns ≡ columns
      → IsHeap h
      → IsValid t
      → Returns
          (insert_children parse_time grants h t (natural columns) i children)
          (λ out. (out.0 ≡ loop_done) × InsertedRows h t columns vss (out.1) (out.2))
  unfolding insert_children
  insert_children-Inserted [] [] h t i all same heap valid = (
    (loop_done, h, t),
    refl,
    (
      refl,
      record {
        new = [];
        rows = sym (append-nil (live (all_rows t.blocks)));
        stored = tt;
        extends = record { heap = heap; grows = omega arith; kept = λ p le. refl };
        valid = valid;
        columns_same = same;
      },
    ),
  )
  insert_children-Inserted [] (vs ∷ vss) h t i all same heap valid = elim all [ ]
  insert_children-Inserted (inscols names ∷ children) vss h t i all same heap valid =
      insert_children-Inserted children vss h t i all same heap valid
  insert_children-Inserted (ins_values vals ∷ children) [] h t i all same heap valid = elim all [ ]
  insert_children-Inserted (ins_values vals ∷ children) (vs ∷ vss) h t i all same heap valid =
      rw (insert_children, rows_granted i)
        (bind-Returns (insert_values parse_time (grants.block i) h t (natural columns) vals) _
          (insert_values-Inserted parse_time h columns vals vs few (all.0) (grants.block i) t
            (blocks_granted i) same heap valid)
          (λ out one. rw (one.returns) (
            Returns-map
              (insert_children-Inserted children vss (out.1) (out.2) (i + 1)
                (AllRows-kept heap one.extends parse_time columns children vss (all.1))
                one.columns_same one.extends.heap one.valid)
              (λ end rest. (
                rest.0,
                join-InsertedRows parse_time h columns vals vs vss few (all.0) t out (end.1) (end.2)
                    one (rest.1),
              )))))

  natural_lem :
      (node : InsNode) (t : Table)
      → node.opt_column_list ≡ false
      → t.columns ≡ columns
      → build_column_order t.columns node (replicate 128 none) ≡ ok (natural columns)
  unfolding build_column_order
  natural_lem node t no_list same = if_false _ _ _ no_list ∙ ap (λ cs. ok (natural cs)) same

  -- An INSERT without a list of columns, on a valid table of at most 128 columns and with the memory
  -- that it needs, whose lists have a value for each column that the column can have: the statement
  -- returns MIDORIDB_OK and the number of its rows. The table is valid, the rows that it holds are
  -- those before and behind them, in order, one row for each list, whose columns have the values of
  -- the list, and the texts before are kept.
  pub insert_stmt-Inserted :
      (node : InsNode) (vss : List (List Value)) (h : Heap) (t : Table) (n_rows_aff : ℕ)
      → node.opt_column_list ≡ false
      → AllRows parse_time h columns node.children vss
      → t.columns ≡ columns
      → IsHeap h
      → IsValid t
      → Returns (insert_stmt parse_time grants h t node n_rows_aff) (λ out.
        (out.0 ≡ midoridb_ok)
        × (out.3 ≡ node.row_count)
        × InsertedRows h t columns vss (out.1) (out.2))
  unfolding insert_stmt
  insert_stmt-Inserted node vss h t n_rows_aff no_list all same heap valid =
      let (out, run, done) = insert_children-Inserted node.children vss h t 0 all same heap valid in
      (
        (midoridb_ok, out.1, out.2, node.row_count),
        rw (natural_lem node t no_list same, run, done.0) refl,
        (refl, refl, done.1),
      )
