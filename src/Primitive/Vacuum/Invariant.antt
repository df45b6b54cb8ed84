-- ===== src/Primitive/Vacuum/Invariant.antt =====
-- The invariant of the loops of `table_vacuum`, and each way that it takes a row.
use midori_db.Prelude.{
  ℕ, suc, ◌+◌, ◌*◌, ◌<◌, ◌≤◌, ◌≡◌, ◌≢◌, refl, sym, ap, ◌∙◌, true, false, List, ◌++◌, length, drop,
  get_elem?, set, get_elem?-some, drop-set_lt, length-set, count, count-append, All, All-get,
  All-set, All-drop-set, some, ok, arith,
}
use mathlib.Core.Path.{subst}
use native.Mathlib.Decide.{ℕ_discrete}
use midori_db.Primitive.Column.{Column}
use midori_db.Primitive.Row.{Row, empty_row, table_free_row_content}
use midori_db.Primitive.Table.{Block, slots, put_row}
use midori_db.Primitive.Table.Access.{block_at_lem, row_at_lem}
use midori_db.Primitive.Table.Offsets.{usable, usable-le-slots, div_at}
use midori_db.Primitive.Table.Slots.{
  all_rows, Width, is_live, live, get-all_rows, all_rows-put, Width-put,
}
use midori_db.Primitive.Table.Valid.{IsFree, Spare}
use midori_db.Primitive.Vacuum.Gap.{Gap, Gap-skip, Gap-keep, Gap-move, held}
use midori_db.Primitive.Vacuum.{State, Round, next, stop, move_row}

pub earlier_block : (n d s f i : ℕ) → d < s → f < n → d * n + f < s * n + i
earlier_block n d s f i h k = let m : suc d * n ≤ s * n = grind arith in omega arith

module _ (columns : List Column) (row_size : ℕ) (pos : 0 < row_size) (n : ℕ) (rows : List Row)
    (total : ℕ → ℕ) where
  abbrev width_of : ℕ
  width_of = slots row_size

  -- The destination is block `dst`, and slot `i` of block `src` is read next. `rows` are the rows of
  -- the table, and `total` counts the pointers that its rows held at the start.
  pub record Inv (st : State) (dst src i : ℕ) : Type 0 where
    pub filled : ℕ
    pub offset : st.dst_blk_offset ≡ filled * row_size
    pub filled_le : filled ≤ usable row_size
    pub order : dst ≤ src
    pub width : Width (slots row_size) st.blocks
    pub blocks : length st.blocks ≡ n
    pub gap : Gap (all_rows st.blocks) (dst * slots row_size + filled) (src * slots row_size + i)
    pub same_rows : live (all_rows st.blocks) ≡ rows
    pub counted : (a : ℕ) → count a st.freed + held columns a (all_rows st.blocks) ≡ total a
    pub spare : Spare (usable row_size) st.blocks
    pub lag : dst ≢ src → st.src_blk_offset ≡ i * row_size
    pub idx : st.src_blk_idx ≡ src

  -- The flag of a full block does not matter to the invariant.
  pub Inv-full :
      {st : State} {dst src i : ℕ} (inv : Inv st dst src i)
      → (marked : Inv (record st { dst_full = true }) dst src i) × (marked.filled ≡ inv.filled)
  Inv-full inv = (
    record {
      filled = inv.filled;
      offset = inv.offset;
      filled_le = inv.filled_le;
      order = inv.order;
      width = inv.width;
      blocks = inv.blocks;
      gap = inv.gap;
      same_rows = inv.same_rows;
      counted = inv.counted;
      spare = inv.spare;
      lag = inv.lag;
      idx = inv.idx;
    },
    refl,
  )

  -- A block that was read to its end, and the first slot of the next one.
  pub Inv-next :
      {st : State} {dst src i : ℕ}
      → i ≡ slots row_size
      → Inv st dst src i
      → Inv (record st { src_blk_idx = st.src_blk_idx + 1; src_blk_offset = 0 }) dst (suc src) 0
  Inv-next {st} {dst} {src} {i} e inv = record {
    filled = inv.filled;
    offset = inv.offset;
    filled_le = inv.filled_le;
    order = omega (arith, inv.order);
    width = inv.width;
    blocks = inv.blocks;
    gap = subst (Gap (all_rows st.blocks) _) (omega (arith, e)) inv.gap;
    same_rows = inv.same_rows;
    counted = inv.counted;
    spare = inv.spare;
    lag = λ _. omega arith;
    idx = omega (arith, inv.idx);
  }

  -- The destination is full, with a row at hand that goes to a later block.
  pub record Full (st : State) (dst : ℕ) : Type 0 where
    pub src : ℕ
    pub i : ℕ
    pub src_lt : src < n
    pub i_lt : i < slots row_size
    pub later : dst < src
    pub inv : Inv st dst src i
    pub full : usable row_size ≤ inv.filled

  abbrev pub RowPost : ℕ → ℕ → ℕ → Round → Type 0
  RowPost dst src i (next st) = (st.dst_full ≡ false) × Inv st dst src (suc i)
  RowPost dst src i (stop st) = (st.dst_full ≡ true) × Full st dst

  module _ (st : State) (dst src i : ℕ) (inv : Inv st dst src i) (open_ : st.dst_full ≡ false)
      (src_lt : src < n) (i_lt : i < slots row_size) (b : Block) (r : Row)
      (eb : get_elem? st.blocks src ≡ some b) (er : get_elem? b i ≡ some r) where
    pub at_src : get_elem? (all_rows st.blocks) (src * slots row_size + i) ≡ some r
    at_src = get-all_rows (slots row_size) st.blocks src i b inv.width eb i_lt ∙ er

    pub skip_post :
        is_live r ≡ false
        → RowPost dst src i (next (record st { src_blk_offset = st.src_blk_offset + row_size }))
    skip_post dead = (
      open_,
      record {
        filled = inv.filled;
        offset = inv.offset;
        filled_le = inv.filled_le;
        order = inv.order;
        width = inv.width;
        blocks = inv.blocks;
        gap = subst (Gap (all_rows st.blocks) _) (omega arith) (Gap-skip r inv.gap at_src dead);
        same_rows = inv.same_rows;
        counted = inv.counted;
        spare = inv.spare;
        lag = λ apart. omega (arith, inv.lag apart);
        idx = inv.idx;
      },
    )

    pub keep_post :
        is_live r ≡ true
        → dst ≡ src
        → inv.filled ≡ i
        → inv.filled < usable row_size
        → RowPost dst src i (next (record st { dst_blk_offset = st.dst_blk_offset + row_size }))
    keep_post alive same here room = (
      open_,
      record {
        filled = suc inv.filled;
        offset = omega (arith, inv.offset);
        filled_le = omega arith;
        order = inv.order;
        width = inv.width;
        blocks = inv.blocks;
        gap =
            let at_q : dst * slots row_size + inv.filled ≡ src * slots row_size + i =
              rw (same, here) in
            subst (Gap (all_rows st.blocks) _) (omega arith) (
              subst (λ q. Gap (all_rows st.blocks) q (suc (src * slots row_size + i))) (omega arith)
                (Gap-keep r inv.gap at_q at_src (ground arith)));
        same_rows = inv.same_rows;
        counted = inv.counted;
        spare = inv.spare;
        lag = λ apart. absurd (apart same);
        idx = inv.idx;
      },
    )

    -- The destination lies before the row that is read, unless that row is in place.
    before_row :
        usable row_size ≤ slots row_size
        → inv.filled < usable row_size
        → ¬ ((dst ≡ src) × (inv.filled ≡ i))
        → dst * slots row_size + inv.filled < src * slots row_size + i
    before_row le room apart = elim (ℕ_discrete dst src) [
      | yes e ↦
          let moved : inv.filled ≢ i = λ h. apart (e, h) in
          omega (arith, inv.gap.at_q, inv.gap.at_p, ap (λ t. t * slots row_size) e, moved)
      | no ne ↦
          earlier_block (slots row_size) dst src inv.filled i (omega (arith, inv.order))
            (omega arith)
    ]

    -- `move_row` with the blocks that it finds.
    move_row_lem :
        (bd bs : Block) (x : Row)
        → get_elem? st.blocks dst ≡ some bd
        → get_elem? bd inv.filled ≡ some x
        → let moved = put_row st.blocks dst bd inv.filled r in
          get_elem? moved src ≡ some bs
          → move_row columns row_size st dst src i r
            ≡ ok (record st {
              blocks = put_row moved src bs i empty_row;
              freed = st.freed ++ table_free_row_content columns x;
              dst_blk_offset = st.dst_blk_offset + row_size;
              src_blk_offset = st.src_blk_offset + row_size;
            })
    unfolding move_row
    move_row_lem bd bs x ed ex es =
        rw (block_at_lem st.blocks dst bd ed, inv.offset)
          (rw (row_at_lem row_size pos bd inv.filled x ex, div_at row_size pos inv.filled)
            (rw (block_at_lem _ src bs es)))

    pub move_post :
        is_live r ≡ true
        → inv.filled < usable row_size
        → ¬ ((dst ≡ src) × (inv.filled ≡ i))
        → (st' : State) × (move_row columns row_size st dst src i r ≡ ok st')
          × RowPost dst src i (next st')
    move_post alive room apart =
        let le = usable-le-slots row_size pos in
        let m = slots row_size in
        let (bd, ed) = get_elem?-some st.blocks dst (omega (arith, inv.order, inv.blocks)) in
        let wd = All-get (λ b. length b ≡ m) st.blocks dst inv.width ed in
        let (x, ex) = get_elem?-some bd inv.filled (omega arith) in
        let moved = put_row st.blocks dst bd inv.filled r in
        let wide = Width-put m st.blocks dst inv.filled bd r inv.width ed in
        let (bs, es) =
          get_elem?-some moved src
            (omega (arith, length-set st.blocks dst (set bd inv.filled r), inv.blocks)) in
        let at_dst = get-all_rows m st.blocks dst inv.filled bd inv.width ed (omega arith) ∙ ex in
        let q = dst * m + inv.filled in
        let p = src * m + i in
        let now : all_rows (put_row moved src bs i empty_row)
            ≡ set (set (all_rows st.blocks) q r) p empty_row =
          all_rows-put m moved src i bs empty_row wide es i_lt
          ∙ ap (λ t. set t p empty_row)
              (all_rows-put m st.blocks dst inv.filled bd r inv.width ed (omega arith)) in
        let g =
          Gap-move columns r x inv.gap (before_row le room apart) at_src at_dst alive
            (ground arith) in
        let spare₁ =
          All-set (λ b. All IsFree (drop (usable row_size) b)) st.blocks dst (set bd inv.filled r)
            inv.spare
            (subst (All IsFree) (sym (drop-set_lt (usable row_size) inv.filled r bd room))
              (All-get (λ b. All IsFree (drop (usable row_size) b)) st.blocks dst inv.spare ed)) in
        (
          record st {
            blocks = put_row moved src bs i empty_row;
            freed = st.freed ++ table_free_row_content columns x;
            dst_blk_offset = st.dst_blk_offset + row_size;
            src_blk_offset = st.src_blk_offset + row_size;
          },
          move_row_lem bd bs x ed ex es,
          (
            open_,
            record {
              filled = suc inv.filled;
              offset = omega (arith, inv.offset);
              filled_le = omega arith;
              order = inv.order;
              width = Width-put m moved src i bs empty_row wide es;
              blocks =
                  length-set moved src (set bs i empty_row)
                  ∙ length-set st.blocks dst (set bd inv.filled r)
                  ∙ inv.blocks;
              gap =
                  subst (λ f. Gap f (dst * m + suc inv.filled) (src * m + suc i)) (sym now)
                    (subst (Gap (set (set (all_rows st.blocks) q r) p empty_row) _) (omega arith) (
                      subst (λ t. Gap (set (set (all_rows st.blocks) q r) p empty_row) t (suc p))
                        (omega arith) g.gap));
              same_rows = ap live now ∙ g.same_rows ∙ inv.same_rows;
              counted = λ a. omega (
                arith,
                count-append a st.freed (table_free_row_content columns x),
                g.lost a,
                ap (held columns a) now,
                inv.counted a,
              );
              spare =
                  All-set (λ b. All IsFree (drop (usable row_size) b)) moved src
                    (set bs i empty_row) spare₁
                    (All-drop-set IsFree (usable row_size) i empty_row bs
                      (All-get (λ b. All IsFree (drop (usable row_size) b)) moved src spare₁ es)
                      (refl, refl));
              lag = λ ne. omega (arith, inv.lag ne);
              idx = inv.idx;
            },
          ),
        )
