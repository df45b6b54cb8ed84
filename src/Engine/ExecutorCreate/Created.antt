-- ===== src/Engine/ExecutorCreate/Created.antt =====
-- A CREATE that the semantic phase accepts is run by src/engine/executor_create.c.
use midori_db.Prelude.{
  ℕ, zero, suc, ◌+◌, ◌*◌, ◌/◌, ◌<◌, ◌≤◌, ◌≡◌, refl, sym, ap, ◌∙◌, Bool, true, false, ◌&&◌, ◌||◌,
  not, List, [], ◌∷◌, ◌++◌, append_assoc, append-nil, length, length-append, drop, All, Returns,
  arith,
}
use mathlib.Core.Path.{subst}
use midori_db.Primitive.Column.{table_calc_row_data_size, table_calc_row_size}
use midori_db.Primitive.Name.{str_eq, table_validate_column_name}
use midori_db.Primitive.Table.{Table, page_size, slots}
use midori_db.Primitive.Table.Valid.{IsValid, IsFree, Spare, free_slot, row_size_of}
use midori_db.Primitive.Table.Slots.{Width, all_rows}
use midori_db.Primitive.Table.Offsets.{usable}
use native.Mathlib.Nat.{zero-div}
use midori_db.Parser.AstCreate.{CreateItem, columndef, indexdef}
use midori_db.Parser.SemanticCreate.Accepts.{among, valid_columns}
use midori_db.Engine.ExecutorCreate.{new_column, create_items}
use midori_db.Engine.ExecutorCreate.Columns.{
  behind, columns_of, all_behind, all_behind-append, all_behind-none, all_behind-columndef,
  all_behind-indexdef, new_column_lem, precision_pos,
}
use midori_db.Engine.ExecutorCreate.Laws.{
  defined, WellSized, IsNew, add_spaces-le, length-column_names, among-append, short_name,
  indexed-IsNew, added-IsNew, add_new,
}

-- The names so far are those that the semantic phase has seen.
abbrev Seen : List (List ℕ) → List (List ℕ) → Type 0
Seen names seen = (n : List ℕ) → among names n ≡ among seen n

-- The parts of the test of a column.
passed :
    (dup valid rest : Bool)
    → (not dup && (valid && rest)) ≡ true
    → (dup ≡ false) × (valid ≡ true) × (rest ≡ true)
passed true valid rest e = absurd (cc e)
passed false true rest e = (refl, refl, e)
passed false false rest e = absurd (cc e)

pub create_items-IsNew :
    (items : List CreateItem) (t : Table) (names seen : List (List ℕ))
    → IsNew t names
    → Seen names seen
    → valid_columns seen items ≡ true
    → WellSized items
    → length names + length (defined items) ≤ 128
    → Returns (create_items t items) (λ out.
      (out.0 ≡ true)
      × IsNew (out.1) (names ++ defined items)
      × (out.1.name ≡ t.name)
      × (out.1.columns ≡ all_behind items t.columns ++ columns_of items))
unfolding create_items
create_items-IsNew [] t names seen is same valid sized few = (
  (true, t),
  refl,
  (
    refl,
    subst (IsNew t) (sym (append-nil names)) is,
    refl,
    sym (append-nil (all_behind [] t.columns) ∙ all_behind-none t.columns),
  ),
)
create_items-IsNew (indexdef def ∷ items) t names seen is same valid sized few =
    let (out, runs, done) =
      create_items-IsNew items _ names seen (indexed-IsNew t names is def) same valid sized few in
    (
      out,
      runs,
      (
        done.0,
        done.1,
        done.2,
        done.3 ∙ ap (λ cs. cs ++ columns_of items) (all_behind-indexdef def items t.columns),
      ),
    )
create_items-IsNew (columndef def ∷ items) t names seen is same valid sized few =
    let (dup, valid_name, rest) =
      passed (among seen def.name) (table_validate_column_name def.name) _ valid in
    let named : (new_column def).name ≡ def.name = short_name def.name valid_name in
    let pos : 0 < (new_column def).precision = precision_pos def (sized.0) (sized.1) in
    let fresh : among names (new_column def).name ≡ false =
      ap (among names) named ∙ same def.name ∙ dup in
    let now : IsNew (record t { columns = t.columns ++ new_column def ∷ [] })
        (names ++ (new_column def).name ∷ []) =
      added-IsNew t names is (new_column def) pos (sized.2) (omega (arith, few)) fresh in
    let run = add_new t names is (new_column def) pos (sized.2) (omega (arith, few)) fresh in
    let name_first : among (names ++ (new_column def).name ∷ []) ≡ among (names ++ def.name ∷ []) =
      ap (λ name. among (names ++ name ∷ [])) named in
    let (out, runs, done) =
      create_items-IsNew items _ (names ++ (new_column def).name ∷ []) (def.name ∷ seen) now
        (λ n.
          ap (λ f. f n) name_first
          ∙ among-append names def.name n
          ∙ ap (λ b. str_eq def.name n || b) (same n))
        rest (sized.3) (omega (arith, few, length-append names ((new_column def).name ∷ []))) in
    let order : (names ++ (new_column def).name ∷ []) ++ defined items
        ≡ names ++ def.name ∷ defined items =
      append_assoc names ((new_column def).name ∷ []) (defined items)
      ∙ ap (λ name. names ++ name ∷ defined items) named in
    let all_columns : out.1.columns
        ≡ all_behind (columndef def ∷ items) t.columns ++ columns_of (columndef def ∷ items) =
      done.3
      ∙ ap (λ cs. cs ++ columns_of items) (all_behind-append items t.columns (new_column def))
      ∙ append_assoc (all_behind items t.columns) (behind items (new_column def) ∷ [])
          (columns_of items)
      ∙ ap (λ c. all_behind items t.columns ++ behind items c ∷ columns_of items)
          (new_column_lem def named (sized.1))
      ∙ ap (λ cs. cs ++ columns_of (columndef def ∷ items))
          (sym (all_behind-columndef def items t.columns)) in
    (out, rw run runs, (done.0, subst (IsNew (out.1)) order (done.1), done.2, all_columns))

row_small :
    (t : Table) (names : List (List ℕ))
    → IsNew t names
    → length names ≤ 128
    → row_size_of t < page_size
unfolding table_calc_row_size table_calc_row_data_size
row_small t names is few = omega (
  arith,
  add_spaces-le t.columns 0 is.narrow,
  length-column_names t.columns,
  ap length is.columns_named,
  few,
)

none_free : (k : ℕ) → All IsFree (drop k [])
none_free zero = tt
none_free (suc k) = tt

pub IsNew-IsValid :
    (t : Table) (names : List (List ℕ)) → IsNew t names → length names ≤ 128 → IsValid t
IsNew-IsValid t names is few = record {
  fits = row_small t names is few;
  width = subst (Width (slots (row_size_of t))) (sym is.no_blocks) tt;
  spare = subst (Spare (usable (row_size_of t))) (sym is.no_blocks) tt;
  aligned =
      subst (λ o. o ≡ o / row_size_of t * row_size_of t) (sym is.offset)
        (omega (arith, zero-div (row_size_of t)));
  inside = omega (arith, is.offset);
  free =
      subst (λ blocks. All IsFree (drop (free_slot t) (all_rows blocks))) (sym is.no_blocks)
        (none_free (free_slot t));
}
