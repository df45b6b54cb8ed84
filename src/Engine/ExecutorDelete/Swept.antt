-- ===== src/Engine/ExecutorDelete/Swept.antt =====
-- What a scan of src/engine/executor_delete.c makes of the slots that it has gone through.
use midori_db.Prelude.{
  ℕ, suc, ◌+◌, ◌*◌, ◌<◌, ◌≡◌, refl, sym, ap, ◌∙◌, Bool, true, false, ◌&&◌, not, List, [], ◌∷◌, ◌++◌,
  length, get_elem?, get_elem?-append_length, set, set-append_length, get_elem?-some, some,
  if◌then◌else◌, Outcome, ok, Returns, arith,
}
use native.Mathlib.Nat.{mul_comm}
use mathlib.Core.Path.{subst}
use midori_db.Heap.{Heap}
use midori_db.Primitive.Column.{Column, table_calc_row_size}
use midori_db.Primitive.Column.Laws.{row_size_pos}
use midori_db.Primitive.Row.{Row}
use midori_db.Primitive.Table.{Block, Table, slots, row_at}
use midori_db.Primitive.Table.Access.{block_at_lem, row_at_lem}
use midori_db.Primitive.Table.Delete.{table_delete_row-Deleted}
use midori_db.Primitive.Table.Slots.{all_rows, live, is_live, get-all_rows}
use midori_db.Primitive.Table.Valid.{IsValid, row_size_of}
use midori_db.Engine.Database.{midoridb_ok}
use midori_db.Engine.ExecutorDelete.Compare.{Platform}
use midori_db.Engine.ExecutorDelete.Eval.{DelNode, eval_delete_row}
use midori_db.Engine.ExecutorDelete.Scan.{Scan, matches, delete_match, scan_slot}

-- The slot after the scan, where `holds` says what the condition is on a row.
abbrev pub sweep : (Row → Bool) → Row → Row
sweep holds r = if is_live r && holds r then record r { deleted = true } else r

abbrev pub sweep_all : (Row → Bool) → List Row → List Row
sweep_all holds [] = []
sweep_all holds (r ∷ rs) = sweep holds r ∷ sweep_all holds rs

-- How many rows are deleted.
abbrev pub hits : (Row → Bool) → List Row → ℕ
hits holds [] = 0
hits holds (r ∷ rs) = (if is_live r && holds r then 1 else 0) + hits holds rs

-- The rows for which the condition does not hold.
unfoldable pub keep : (Row → Bool) → List Row → List Row
keep holds [] = []
keep holds (r ∷ rs) = let rest = keep holds rs in if holds r then rest else r ∷ rest

pub live-sweep_all :
    (holds : Row → Bool) (rs : List Row) → live (sweep_all holds rs) ≡ keep holds (live rs)
unfolding live keep
live-sweep_all holds [] = refl
live-sweep_all holds (r ∷ rs) = ground (arith, live-sweep_all holds rs)

pub hits_lem :
    (holds : Row → Bool) (rs : List Row)
    → hits holds rs + length (keep holds (live rs)) ≡ length (live rs)
unfolding live keep
hits_lem holds [] = refl
hits_lem holds (r ∷ rs) = ground (arith, hits_lem holds rs)

pub sweep_all-append :
    (holds : Row → Bool) (xs ys : List Row)
    → sweep_all holds (xs ++ ys) ≡ sweep_all holds xs ++ sweep_all holds ys
sweep_all-append holds [] ys = refl
sweep_all-append holds (x ∷ xs) ys =
    ap (λ rows. sweep holds x ∷ rows) (sweep_all-append holds xs ys)

pub hits-append :
    (holds : Row → Bool) (xs ys : List Row) → hits holds (xs ++ ys) ≡ hits holds xs + hits holds ys
hits-append holds [] ys = omega arith
hits-append holds (x ∷ xs) ys = omega (arith, hits-append holds xs ys)

pub length-sweep_all :
    (holds : Row → Bool) (rs : List Row) → length (sweep_all holds rs) ≡ length rs
length-sweep_all holds [] = refl
length-sweep_all holds (r ∷ rs) = ap suc (length-sweep_all holds rs)

both_left : (a b : Bool) → (a && b) ≡ true → a ≡ true
both_left true b e = refl
both_left false b e = e

module _ (p : Platform) (h : Heap) (node : DelNode) (columns : List Column) (holds : Row → Bool)
    (block_count : ℕ) where
  abbrev rs : ℕ
  rs = table_calc_row_size columns

  abbrev m : ℕ
  m = slots rs

  -- The condition evaluates to what `holds` says on a row that the table holds.
  abbrev pub Evaluates : Row → Type 0
  Evaluates r = is_live r ≡ true → eval_delete_row p h columns r node ≡ ok (holds r)

  -- A table on the way, with the slots `rows`.
  pub record OnTheWay (rows : List Row) (t : Table) : Type 0 where
    pub valid : IsValid t
    pub columns_same : t.columns ≡ columns
    pub counted : length t.blocks ≡ block_count
    pub slots_now : all_rows t.blocks ≡ rows

  -- What a part of the scan returns.
  pub record Swept (rows : List Row) (n : ℕ) (out : Scan) : Type 0 where
    pub returns : out.0 ≡ midoridb_ok
    pub table : OnTheWay rows out.1
    pub n_rows_aff : out.2 ≡ n

  matches-plain :
      (deleted empty : Bool) (out : Outcome Bool) (c : Bool)
      → ((if deleted then false else not empty) ≡ true → out ≡ ok c)
      → (if not deleted && not empty then out else ok false)
        ≡ ok ((if deleted then false else not empty) && c)
  matches-plain true empty out c e = refl
  matches-plain false true out c e = refl
  matches-plain false false out c e = e refl

  matches-holds :
      (t : Table) (r : Row)
      → t.columns ≡ columns
      → Evaluates r
      → matches p h t r node ≡ ok (is_live r && holds r)
  unfolding matches
  matches-holds t r same e =
      ap (λ cs. if not r.deleted && not r.empty then eval_delete_row p h cs r node else ok false)
        same
      ∙ matches-plain r.deleted r.empty (eval_delete_row p h columns r node) (holds r) e

  module _ (done : List Row) (y : Row) (rest : List Row) (t : Table) (k i n : ℕ)
      (way : OnTheWay (done ++ y ∷ rest) t) (at : length done ≡ k * m + i) (inside : i < m)
      (k_lt : k < block_count) where
    same_size : row_size_of t ≡ rs
    same_size = ap table_calc_row_size way.columns_same

    at_t : k * slots (row_size_of t) + i ≡ length done
    at_t = ap (λ size. k * slots size + i) same_size ∙ sym at

    inside_t : i < slots (row_size_of t)
    inside_t = subst (λ size. i < slots size) (sym same_size) inside

    block_k : (b : Block) × (get_elem? t.blocks k ≡ some b)
    block_k = get_elem?-some t.blocks k (omega (arith, k_lt, way.counted))

    row_i : get_elem? (block_k.0) i ≡ some y
    row_i =
        sym (
          get-all_rows (slots (row_size_of t)) t.blocks k i (block_k.0) way.valid.width (block_k.1)
            inside_t)
        ∙ ap (λ rows. get_elem? rows (k * slots (row_size_of t) + i)) way.slots_now
        ∙ get_elem?-append_length done y rest (k * slots (row_size_of t) + i) at_t

    row_found : row_at (block_k.0) (row_size_of t * i) (row_size_of t) ≡ ok y
    row_found =
        ap (λ offset. row_at (block_k.0) offset (row_size_of t)) (mul_comm (row_size_of t) i)
        ∙ row_at_lem (row_size_of t) (omega (arith, row_size_pos t.columns)) (block_k.0) i y row_i

    delete_match-Swept :
        (c : Bool)
        → (c ≡ true → is_live y ≡ true)
        → Returns (delete_match t k (i * row_size_of t) n c) (
            Swept
              (done ++ (if c then record y { deleted = true } else y) ∷ rest)
              (n + (if c then 1 else 0)))
    unfolding delete_match
    delete_match-Swept false alive = (
      (midoridb_ok, t, n),
      refl,
      record { returns = refl; table = way; n_rows_aff = omega arith },
    )
    delete_match-Swept true alive =
        let (out, run, deleted) =
          table_delete_row-Deleted t way.valid k i (block_k.0) (block_k.1) y row_i (alive refl) in
        (
          (midoridb_ok, out.1, n + 1),
          rw (run, deleted.returns) refl,
          record {
            returns = refl;
            table = record {
              valid = deleted.valid;
              columns_same = deleted.columns ∙ way.columns_same;
              counted = deleted.block_count ∙ way.counted;
              slots_now =
                  deleted.marked
                  ∙ ap
                      (λ rows.
                        set rows (k * slots (row_size_of t) + i) (record y { deleted = true }))
                      way.slots_now
                  ∙ set-append_length done y (record y { deleted = true }) rest
                      (k * slots (row_size_of t) + i) at_t;
            };
            n_rows_aff = refl;
          },
        )

    pub scan_slot-Swept :
        Evaluates y
        → Returns
            (scan_slot p h node t k i n)
            (Swept (done ++ sweep holds y ∷ rest) (n + (if is_live y && holds y then 1 else 0)))
    unfolding scan_slot
    scan_slot-Swept e =
        rw
          (
            block_at_lem t.blocks k (block_k.0) (block_k.1),
            row_found,
            matches-holds t y way.columns_same e,
          )
          (delete_match-Swept (is_live y && holds y) (both_left (is_live y) (holds y)))
