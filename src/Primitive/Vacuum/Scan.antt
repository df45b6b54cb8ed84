-- ===== src/Primitive/Vacuum/Scan.antt =====
-- The loop over the rows of a block keeps the invariant, and ends.
use midori_db.Prelude.{
  ℕ, zero, suc, ◌+◌, ◌-◌, ◌*◌, ◌/◌, ◌<◌, ◌≤◌, ◌≡◌, refl, sym, ap, ◌∙◌, true, false, not, ◌&&◌, List,
  length, drop, get_elem?, get_elem?-some, get_elem?-drop, All, All-get, some, leb, ◌==◌,
  if◌then◌else◌, Bool-cases, inl, inr, Outcome, ok, ◌>>=◌, Returns, arith,
}
use mathlib.Core.Path.{subst}
use native.Mathlib.Decide.{ℕ_discrete}
use midori_db.Primitive.Column.{Column}
use midori_db.Primitive.Row.{Row}
use midori_db.Primitive.Table.{Block, page_size, slots}
use midori_db.Primitive.Table.Access.{block_at_lem, row_at_lem}
use midori_db.Primitive.Table.Offsets.{usable, full_test, div_at}
use midori_db.Primitive.Table.Slots.{is_live}
use midori_db.Primitive.Table.Valid.{IsFree}
use midori_db.Primitive.Vacuum.Invariant.{
  Inv, Inv-full, Full, RowPost, skip_post, keep_post, move_post,
}
use midori_db.Primitive.Vacuum.{State, Round, next, stop, move_row, scan_row, scan_rows}

live_test : (r : Row) → (not r.deleted && not r.empty) ≡ is_live r
live_test r = ground arith

module _ (columns : List Column) (row_size : ℕ) (pos : 0 < row_size) (n : ℕ) (rows : List Row)
    (total : ℕ → ℕ) where
  abbrev pub Keeps : State → ℕ → ℕ → ℕ → Type 0
  Keeps = Inv columns row_size pos n rows total

  abbrev pub Fills : State → ℕ → Type 0
  Fills = Full columns row_size pos n rows total

  module _ (st : State) (dst src i : ℕ) (inv : Keeps st dst src i) (open_ : st.dst_full ≡ false)
      (src_lt : src < n) (i_lt : i < slots row_size) where
    -- A live row that does not fit is left for the next block.
    no_room :
        (r : Row) (b : Block)
        → get_elem? st.blocks src ≡ some b
        → get_elem? b i ≡ some r
        → is_live r ≡ true
        → usable row_size ≤ inv.filled
        → dst < src
    no_room r b eb er alive full = elim (ℕ_discrete dst src) [
      | no ne ↦ omega (arith, inv.order)
      | yes same ↦
          let late : usable row_size ≤ i =
            omega (arith, inv.gap.at_q, inv.gap.at_p, ap (λ t. t * slots row_size) same) in
          let free =
            All-get IsFree (drop (usable row_size) b) (i - usable row_size)
              (All-get (λ b. All IsFree (drop (usable row_size) b)) st.blocks src inv.spare eb)
              (get_elem?-drop (usable row_size) (i - usable row_size) i b (omega arith) ∙ er) in
          absurd (ground (arith, free.0))
    ]

    full_eq : leb page_size (st.dst_blk_offset + row_size) ≡ leb (usable row_size) inv.filled
    full_eq = ap (λ t. leb page_size (t + row_size)) inv.offset ∙ full_test row_size pos inv.filled

    in_place :
        dst == src && st.dst_blk_offset == i * row_size ≡ true → (dst ≡ src) × (inv.filled ≡ i)
    in_place h =
        let e : (dst ≡ src) × (st.dst_blk_offset ≡ i * row_size) = ground arith in
        (
          e.0,
          sym (div_at row_size pos inv.filled)
              ∙ ap (λ t. t / row_size) (sym inv.offset ∙ e.1)
              ∙ div_at row_size pos i,
        )

    not_in_place :
        dst == src && st.dst_blk_offset == i * row_size ≡ false → ¬ ((dst ≡ src) × (inv.filled ≡ i))
    not_in_place h (same, here) =
        let e : st.dst_blk_offset ≡ i * row_size = inv.offset ∙ ap (λ t. t * row_size) here in
        ground arith

    -- What `scan_row` does with a live row.
    on_live : Row → Outcome Round
    on_live r =
        if leb page_size (st.dst_blk_offset + row_size)
        then ok (stop (record st { dst_full = true }))
        else if dst == src && st.dst_blk_offset == i * row_size
        then ok (next (record st { dst_blk_offset = st.dst_blk_offset + row_size }))
        else (move_row columns row_size st dst src i r >>= λ st'. ok (next st'))

    alive_post :
        (b : Block) (r : Row)
        → get_elem? st.blocks src ≡ some b
        → get_elem? b i ≡ some r
        → is_live r ≡ true
        → Returns (on_live r) (RowPost columns row_size pos n rows total dst src i)
    unfolding on_live
    alive_post b r eb er alive = rw full_eq (elim (Bool-cases (leb (usable row_size) inv.filled)) [
      | inl full ↦
          let (marked, same_filled) = Inv-full columns row_size pos n rows total inv in
          let enough : usable row_size ≤ inv.filled = ground arith in
          rw full (
            _,
            refl,
            (
              refl,
              record {
                src = src;
                i = i;
                src_lt = src_lt;
                i_lt = i_lt;
                later = no_room r b eb er alive enough;
                inv = marked;
                full = omega arith;
              },
            ),
          )
      | inr room ↦ rw room (elim (Bool-cases (dst == src && st.dst_blk_offset == i * row_size)) [
        | inl here ↦
            let (same, at) = in_place here in
            rw here (
              _,
              refl,
              keep_post columns row_size pos n rows total st dst src i inv open_ src_lt i_lt b r eb
                  er alive same at (ground arith),
            )
        | inr away ↦
            let (st', run, post) =
              move_post columns row_size pos n rows total st dst src i inv open_ src_lt i_lt b r eb
                er alive (ground arith) (not_in_place away) in
            rw (away, run) (_, refl, post)
      ])
    ])

    taken :
        (b : Block) (r : Row)
        → get_elem? st.blocks src ≡ some b
        → get_elem? b i ≡ some r
        → Returns
            (scan_row columns row_size st dst src i)
            (RowPost columns row_size pos n rows total dst src i)
    unfolding scan_row on_live
    taken b r eb er = rw (block_at_lem st.blocks src b eb) (
        rw (row_at_lem row_size pos b i r er, live_test r)
          (elim (Bool-cases (is_live r)) [
            | inr dead ↦ rw dead (
              _,
              refl,
              skip_post columns row_size pos n rows total st dst src i inv open_ src_lt i_lt b r eb
                  er dead,
            )
            | inl alive ↦ rw alive (alive_post b r eb er alive)
          ]))

  scan_row-Returns :
      (st : State) (dst src i : ℕ)
      → Keeps st dst src i
      → st.dst_full ≡ false
      → src < n
      → i < slots row_size
      → Returns
          (scan_row columns row_size st dst src i)
          (RowPost columns row_size pos n rows total dst src i)
  scan_row-Returns st dst src i inv open_ src_lt i_lt =
      let (b, eb) = get_elem?-some st.blocks src (omega (arith, inv.blocks)) in
      let wide = All-get (λ b. length b ≡ slots row_size) st.blocks src inv.width eb in
      let (r, er) = get_elem?-some b i (omega arith) in
      taken st dst src i inv open_ src_lt i_lt b r eb er

  -- After the loop over the rows of a block.
  pub data Scanned (dst src : ℕ) (st : State) : Type 0 where
    through :
        (i : ℕ) → i ≡ slots row_size → st.dst_full ≡ false → Keeps st dst src i → Scanned dst src st
    stopped : st.dst_full ≡ true → Fills st dst → Scanned dst src st

  pub scan_rows-Returns :
      (rounds : ℕ) (st : State) (dst src i : ℕ)
      → rounds + i ≡ slots row_size
      → Keeps st dst src i
      → st.dst_full ≡ false
      → src < n
      → Returns (scan_rows columns row_size rounds st dst src i) (Scanned dst src)
  unfolding scan_rows
  scan_rows-Returns zero st dst src i e inv open_ src_lt =
      (st, refl, through i (omega arith) open_ inv)
  scan_rows-Returns (suc rounds) st dst src i e inv open_ src_lt =
      go (scan_row-Returns st dst src i inv open_ src_lt (omega arith)) (λ st' inv' open'.
        scan_rows-Returns rounds st' dst src (i + 1) (omega arith)
          (subst (Keeps st' dst src) (omega arith) inv') open' src_lt)
    where
      go :
          Returns
            (scan_row columns row_size st dst src i)
            (RowPost columns row_size pos n rows total dst src i)
          → ((st' : State)
              → Keeps st' dst src (suc i)
              → st'.dst_full ≡ false
              → Returns (scan_rows columns row_size rounds st' dst src (i + 1)) (Scanned dst src))
          → Returns (scan_rows columns row_size (suc rounds) st dst src i) (Scanned dst src)
      go (stop st', run, post) later = rw run (st', refl, stopped post.0 post.1)
      go (next st', run, post) later = rw run (later st' post.1 post.0)
