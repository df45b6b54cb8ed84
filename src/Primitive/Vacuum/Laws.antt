-- ===== src/Primitive/Vacuum/Laws.antt =====
-- What `table_vacuum` does to a table.
use midori_db.Prelude.{
  if◌then◌else◌, ◌==◌, ℕ, suc, ◌+◌, ◌-◌, ◌*◌, ◌/◌, ◌<◌, ◌≤◌, ◌≡◌, refl, sym, ap, ◌∙◌, Bool, true,
  false, List, [], ◌∷◌, ◌++◌, append-nil, length, take, drop, get_elem?, get_elem?-some, set,
  Option, some, none, All, All-append, All-replicate, count, count-append, count-nil, length-append,
  Outcome, ok, fault, segfault, ◌>>=◌, Returns, arith,
}
use mathlib.Core.Path.{subst}
use midori_db.Primitive.Column.Laws.{row_size_pos}
use midori_db.Primitive.Row.{Row, empty_row}
use midori_db.Primitive.Table.{Block, Table, slots, block_at, table_datablock_init}
use midori_db.Primitive.Table.Access.{block_at_lem}
use midori_db.Primitive.Table.Offsets.{usable, usable-le-slots, le-usable-inside, div_at}
use midori_db.Primitive.Table.Slots.{all_rows, live, live-append, length-all_rows}
use midori_db.Primitive.Table.Valid.{IsFree, IsValid, row_size_of, free_slot}
use midori_db.Primitive.Vacuum.Ending.{
  new_blocks, all_rows-new, length-new, Width-new, Spare-new, live-new, IsFree-new, held-new,
}
use midori_db.Primitive.Vacuum.Fill.{Done, fill_blocks-Returns}
use midori_db.Primitive.Vacuum.Gap.{IsClean, IsDead, held, live_of_gap}
use midori_db.Primitive.Vacuum.Invariant.{Inv}
use midori_db.Primitive.Vacuum.{State, free_rows, free_blocks, fill_blocks, table_vacuum}

-- A vacuumed table `r` against the table `t` before.
pub record Vacuumed (t : Table) (r : Bool × Table × List ℕ) : Type 0 where
  pub returns : r.0 ≡ true
  pub same_rows : live (all_rows r.1.blocks) ≡ live (all_rows t.blocks)
  pub no_deleted : All IsClean (all_rows r.1.blocks)
  pub freed :
      (a : ℕ)
      → count a r.2 + held t.columns a (all_rows r.1.blocks) ≡ held t.columns a (all_rows t.blocks)
  pub valid : IsValid r.1
  pub columns : r.1.columns ≡ t.columns
  pub name : r.1.name ≡ t.name

-- The state at the start of the loops.
start_of : Table → State
start_of t = record {
  blocks = t.blocks;
  freed = [];
  dst_blk_offset = 0;
  src_blk_offset = 0;
  src_blk_idx = 0;
  dst_full = false;
}

module _ (t : Table) (valid : IsValid t) (some_block : 0 < length t.blocks) where
  abbrev rs : ℕ
  rs = row_size_of t

  pos : 0 < rs
  pos = omega (arith, row_size_pos t.columns)

  abbrev total : ℕ → ℕ
  total a = held t.columns a (all_rows t.blocks)

  start-Inv :
      Inv t.columns rs pos (length t.blocks) (live (all_rows t.blocks)) total (start_of t) 0 0 0
  unfolding start_of
  start-Inv = record {
    filled = 0;
    offset = omega arith;
    filled_le = omega arith;
    order = omega arith;
    width = valid.width;
    blocks = refl;
    gap = record {
      done = [];
      gap = [];
      rest = all_rows t.blocks;
      split = refl;
      at_q = omega arith;
      at_p = omega arith;
      clean = tt;
      dead = tt;
    };
    same_rows = refl;
    counted = λ a. omega (arith, count-nil a);
    spare = valid.spare;
    lag = λ _. omega arith;
    idx = refl;
  }

  loops :
      Returns
        (fill_blocks t.columns rs (length t.blocks) (start_of t) 0 none 0)
        (Done t.columns rs pos (length t.blocks) (live (all_rows t.blocks)) total)
  unfolding start_of
  loops =
      fill_blocks-Returns t.columns rs pos (length t.blocks) (live (all_rows t.blocks)) total
        (length t.blocks) (start_of t) 0 0 0 0 none (omega arith) some_block refl start-Inv
        some_block (omega arith) (omega arith)

  -- The part of `table_vacuum` behind the loops.
  finish : State → ℕ → ℕ → Outcome (Bool × Table × List ℕ)
  finish st dst dst_blk_idx = block_at st.blocks dst >>= λ last. ok (
    true,
    record t {
      blocks =
          take dst_blk_idx (set st.blocks dst (table_datablock_init last st.dst_blk_offset rs));
      free_dtbkl_offset = st.dst_blk_offset;
    },
    st.freed
        ++ (free_rows t.columns (drop (st.dst_blk_offset / rs) last)
            ++ free_blocks t.columns (drop dst_blk_idx st.blocks)),
  )

  module _ (st : State) (dst : ℕ) (dst_lt : dst < length t.blocks)
      (inv : Inv t.columns rs pos
        (length t.blocks)
        (live (all_rows t.blocks))
        total
        st
        dst
        (length t.blocks)
        0)
      (last : Block) (at_dst : get_elem? st.blocks dst ≡ some last) where
    abbrev m : ℕ
    m = slots rs

    at_j : st.dst_blk_offset / rs ≡ inv.filled
    at_j = ap (λ o. o / rs) inv.offset ∙ div_at rs pos inv.filled

    nothing_left : (rest : List Row) → length rest ≡ 0 → rest ≡ []
    nothing_left [] h = refl
    nothing_left (x ∷ rest) h = absurd (omega arith)

    no_rest : inv.gap.rest ≡ []
    no_rest = nothing_left inv.gap.rest (
        omega (
          arith,
          length-all_rows m st.blocks inv.width,
          ap length inv.gap.split,
          length-append inv.gap.done (inv.gap.gap ++ inv.gap.rest),
          length-append inv.gap.gap inv.gap.rest,
          inv.gap.at_p,
          ap (λ t. t * m) inv.blocks,
        ))

    split : all_rows st.blocks ≡ inv.gap.done ++ inv.gap.gap
    split =
        inv.gap.split
        ∙ ap (λ r. inv.gap.done ++ (inv.gap.gap ++ r)) no_rest
        ∙ ap (λ r. inv.gap.done ++ r) (append-nil inv.gap.gap)

    j_le : inv.filled ≤ m
    j_le = omega (arith, inv.filled_le, usable-le-slots rs pos)

    dst_in : dst < length st.blocks
    dst_in = omega (arith, inv.blocks)

    abbrev new : List Block
    new =
        new_blocks st.blocks m inv.width dst inv.filled last at_dst dst_in j_le inv.gap.done
          inv.gap.gap split inv.gap.at_q

    abbrev freed : List ℕ
    freed =
        st.freed
        ++ (free_rows t.columns (drop inv.filled last)
            ++ free_blocks t.columns (drop (suc dst) st.blocks))

    finish_lem :
        finish st dst (suc dst)
        ≡ ok (true, record t { blocks = new; free_dtbkl_offset = st.dst_blk_offset }, freed)
    unfolding finish table_datablock_init
    finish_lem = rw (block_at_lem st.blocks dst last at_dst, at_j)

    before_dst : suc dst - 1 ≡ dst
    before_dst = omega arith

    new-IsValid : IsValid (record t { blocks = new; free_dtbkl_offset = st.dst_blk_offset })
    new-IsValid = record {
      fits = valid.fits;
      width =
          Width-new st.blocks m inv.width dst inv.filled last at_dst dst_in j_le inv.gap.done
            inv.gap.gap split inv.gap.at_q;
      spare =
          Spare-new st.blocks m inv.width dst inv.filled last at_dst dst_in j_le inv.gap.done
            inv.gap.gap split inv.gap.at_q (usable rs) inv.filled_le inv.spare;
      aligned = inv.offset ∙ ap (λ t. t * rs) (sym at_j);
      inside = omega (arith, inv.offset, le-usable-inside rs pos inv.filled inv.filled_le);
      free =
          let at : free_slot (record t { blocks = new; free_dtbkl_offset = st.dst_blk_offset })
              ≡ dst * m + inv.filled =
            ap (λ l. (l - 1) * m + st.dst_blk_offset / rs)
              (length-new st.blocks m inv.width dst inv.filled last at_dst dst_in j_le inv.gap.done
                inv.gap.gap split inv.gap.at_q)
            ∙ ap (λ k. k * m + st.dst_blk_offset / rs) before_dst
            ∙ ap (λ k. dst * m + k) at_j in
          subst (λ k. All IsFree (drop k (all_rows new))) (sym at)
            (IsFree-new st.blocks m inv.width dst inv.filled last at_dst dst_in j_le inv.gap.done
              inv.gap.gap split inv.gap.at_q);
    }

    live-eq : live (all_rows new) ≡ live (all_rows t.blocks)
    live-eq =
        live-new st.blocks m inv.width dst inv.filled last at_dst dst_in j_le inv.gap.done
          inv.gap.gap split inv.gap.at_q
        ∙ sym (dead_end inv.gap.gap inv.gap.dead)
        ∙ sym (ap live split)
        ∙ inv.same_rows
      where
        dead_end : (g : List Row) → All IsDead g → live (inv.gap.done ++ g) ≡ live inv.gap.done
        dead_end g d =
            live-append inv.gap.done g
            ∙ ap (λ r. live inv.gap.done ++ r) (live_of_gap t.columns g d)
            ∙ append-nil (live inv.gap.done)

    all-IsClean : All IsClean (all_rows new)
    all-IsClean =
        subst (All IsClean)
          (sym (
            all_rows-new st.blocks m inv.width dst inv.filled last at_dst dst_in j_le inv.gap.done
              inv.gap.gap split inv.gap.at_q))
          (All-append IsClean inv.gap.done _ inv.gap.clean
            (All-replicate IsClean (m - inv.filled) empty_row refl))

    all_freed : (a : ℕ) → count a freed + held t.columns a (all_rows new) ≡ total a
    all_freed a = omega (
      arith,
      count-append a st.freed (
          free_rows t.columns (drop inv.filled last)
          ++ free_blocks t.columns (drop (suc dst) st.blocks)),
      held-new st.blocks m inv.width dst inv.filled last at_dst dst_in j_le inv.gap.done inv.gap.gap
          split inv.gap.at_q t.columns a,
      inv.counted a,
    )

    finish-Vacuumed : Returns (finish st dst (suc dst)) (Vacuumed t)
    finish-Vacuumed = (
      (true, record t { blocks = new; free_dtbkl_offset = st.dst_blk_offset }, freed),
      finish_lem,
      record {
        returns = refl;
        same_rows = live-eq;
        no_deleted = all-IsClean;
        freed = all_freed;
        valid = new-IsValid;
        columns = refl;
        name = refl;
      },
    )

  close : Option ℕ → State → ℕ → Outcome (Bool × Table × List ℕ)
  close none st dst_blk_idx =
      if slots rs == 0
      then ok (true, record t { free_dtbkl_offset = st.dst_blk_offset }, st.freed)
      else fault segfault
  close (some dst) st dst_blk_idx = finish st dst dst_blk_idx

  close-Vacuumed :
      (out : State × Option ℕ × ℕ)
      → Done t.columns rs pos (length t.blocks) (live (all_rows t.blocks)) total out
      → Returns (close out.1 out.0 out.2) (Vacuumed t)
  unfolding close
  close-Vacuumed out d =
      let (last, at_dst) =
        get_elem?-some out.0.blocks d.dst (omega (arith, d.dst_lt, d.inv.blocks)) in
      subst (λ e. Returns (close e out.0 out.2) (Vacuumed t)) (sym d.entry)
        (subst (λ k. Returns (finish out.0 d.dst k) (Vacuumed t)) (omega (arith, d.idx))
          (finish-Vacuumed out.0 d.dst d.dst_lt d.inv last at_dst))

  as_close :
      (out : State × Option ℕ × ℕ)
      → fill_blocks t.columns rs (length t.blocks) (start_of t) 0 none 0 ≡ ok out
      → table_vacuum t ≡ close out.1 out.0 out.2
  unfolding table_vacuum start_of finish close
  as_close (st, none, k) run = rw run
  as_close (st, some dst, k) run = rw run

  -- A valid table with a block is vacuumed: the call returns true, the table is valid and holds the
  -- same rows in the same order and no deleted row, and the pointers freed with those of the rows
  -- that are left are those of all the rows before, each as often.
  pub table_vacuum-Vacuumed : Returns (table_vacuum t) (Vacuumed t)
  table_vacuum-Vacuumed =
      let (out, run, d) = loops in
      subst (λ o. Returns o (Vacuumed t)) (sym (as_close out run)) (close-Vacuumed out d)
