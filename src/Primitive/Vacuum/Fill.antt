-- ===== src/Primitive/Vacuum/Fill.antt =====
-- The loops over the blocks keep the invariant, and end.
use midori_db.Prelude.{
  ℕ, zero, suc, ◌+◌, ◌-◌, ◌*◌, ◌/◌, ◌<◌, ◌≤◌, ◌≡◌, refl, sym, ap, ◌∙◌, true, false, List, length,
  drop, get_elem?-some, get_elem?-drop, All, All-get, Option, some, ltb, Outcome, ok, ◌>>=◌,
  Returns, arith,
}
use mathlib.Core.Path.{subst}
use native.Mathlib.Decide.{ℕ_discrete}
use midori_db.Primitive.Column.{Column}
use midori_db.Primitive.Row.{Row}
use midori_db.Primitive.Table.{slots}
use midori_db.Primitive.Table.Offsets.{usable, usable-le-slots, slots-le-suc-usable, div_at}
use midori_db.Primitive.Table.Slots.{all_rows, get-all_rows}
use midori_db.Primitive.Table.Valid.{IsFree}
use midori_db.Primitive.Vacuum.Gap.{Gap, Gap-jump}
use midori_db.Primitive.Vacuum.Invariant.{earlier_block, Inv, Inv-next, Full}
use midori_db.Primitive.Vacuum.Scan.{Scanned, scan_rows-Returns}
use midori_db.Primitive.Vacuum.{State, scan_blocks, fill_blocks}

module _ (columns : List Column) (row_size : ℕ) (pos : 0 < row_size) (n : ℕ) (rows : List Row)
    (total : ℕ → ℕ) where
  abbrev pub Keeps : State → ℕ → ℕ → ℕ → Type 0
  Keeps = Inv columns row_size pos n rows total

  abbrev Fills : State → ℕ → Type 0
  Fills = Full columns row_size pos n rows total

  abbrev Read : ℕ → ℕ → State → Type 0
  Read = Scanned columns row_size pos n rows total

  -- After the inner loop over the blocks.
  data Filled (dst : ℕ) (st : State) : Type 0 where
    done : st.dst_full ≡ false → Keeps st dst n 0 → Filled dst st
    filled : st.dst_full ≡ true → Fills st dst → Filled dst st

  -- What is left of the inner loop after the rows of one block.
  after_block : ℕ → ℕ → ℕ → Outcome State → Outcome State
  after_block rounds dst src scanned = scanned >>= λ st'. elim st'.dst_full [
    | true ↦ ok st'
    | false ↦
        scan_blocks columns row_size rounds
          (record st' { src_blk_idx = st'.src_blk_idx + 1; src_blk_offset = 0 }) dst (src + 1)
          (src + 1)
  ]

  after_block-Returns :
      (rounds dst src : ℕ) (scanned : Outcome State)
      → Returns scanned (Read dst src)
      → ((st : State)
          → Keeps st dst (src + 1) 0
          → st.dst_full ≡ false
          → st.src_blk_offset ≡ 0
          → Returns (scan_blocks columns row_size rounds st dst (src + 1) (src + 1)) (Filled dst))
      → Returns (after_block rounds dst src scanned) (Filled dst)
  unfolding after_block
  after_block-Returns rounds dst src scanned (st, run, Scanned.stopped full post) later =
      rw run (rw full (st, refl, filled full post))
  after_block-Returns rounds dst src scanned (st, run, Scanned.through i e open_ inv) later =
      rw run (
        rw open_ (
          later (record st { src_blk_idx = st.src_blk_idx + 1; src_blk_offset = 0 })
            (subst
              (λ s.
                Keeps (record st { src_blk_idx = st.src_blk_idx + 1; src_blk_offset = 0 }) dst s 0)
              (omega arith) (Inv-next columns row_size pos n rows total e inv))
            open_ refl))

  -- The blocks from the one that is read next on.
  scan_blocks-Returns :
      (rounds : ℕ) (st : State) (dst src i : ℕ)
      → rounds + src ≡ n
      → Keeps st dst src i
      → st.dst_full ≡ false
      → st.src_blk_offset ≡ i * row_size
      → i ≤ slots row_size
      → (src ≡ n → i ≡ 0)
      → Returns (scan_blocks columns row_size rounds st dst src src) (Filled dst)
  unfolding scan_blocks after_block
  scan_blocks-Returns zero st dst src i e inv open_ at le end =
      let last : src ≡ n = omega arith in
      (
        st,
        refl,
        done open_ (subst (λ s. Keeps st dst s 0) last (subst (Keeps st dst src) (end last) inv)),
      )
  scan_blocks-Returns (suc rounds) st dst src i e inv open_ at le end =
      let read : ltb src st.src_blk_idx ≡ false = ground (arith, inv.idx) in
      let first : st.src_blk_offset / row_size ≡ i =
        ap (λ t. t / row_size) at ∙ div_at row_size pos i in
      rw (read, first)
        (after_block-Returns rounds dst src _
          (scan_rows-Returns columns row_size pos n rows total (slots row_size - i) st dst src i
            (omega arith) inv open_ (omega arith))
          (λ st' inv' open' at'.
            scan_blocks-Returns rounds st' dst (src + 1) 0 (omega arith) inv' open'
              (omega (arith, at')) (omega arith) (λ _. refl)))

  skip_one :
      (all : ℕ) (st : State) (dst src : ℕ)
      → ltb src st.src_blk_idx ≡ true
      → scan_blocks columns row_size (suc all) st dst src src
        ≡ scan_blocks columns row_size all st dst (src + 1) (src + 1)
  unfolding scan_blocks
  skip_one all st dst src skip = rw skip

  -- The blocks before that are skipped.
  skip_blocks :
      (k rounds all : ℕ) (st : State) (dst src : ℕ)
      → all ≡ k + rounds
      → src + k ≡ st.src_blk_idx
      → scan_blocks columns row_size all st dst src src
        ≡ scan_blocks columns row_size rounds st dst st.src_blk_idx st.src_blk_idx
  skip_blocks zero rounds all st dst src e f =
      ap (λ t. scan_blocks columns row_size t st dst src src) (omega arith)
      ∙ ap (λ t. scan_blocks columns row_size rounds st dst t t) (omega arith)
  skip_blocks (suc k) rounds zero st dst src e f = absurd (omega arith)
  skip_blocks (suc k) rounds (suc all) st dst src e f =
      skip_one all st dst src (ground arith)
      ∙ skip_blocks k rounds all st dst (src + 1) (omega arith) (omega arith)

  -- After the outer loop: every row was read, and block `dst` took the last ones.
  pub record Done (out : State × Option ℕ × ℕ) : Type 0 where
    pub dst : ℕ
    pub dst_lt : dst < n
    pub entry : out.1 ≡ some dst
    pub idx : out.2 ≡ dst + 1
    pub inv : Keeps out.0 dst n 0

  -- The spare slot of a full block, if it has one, is given up: what is left of the gap starts at the
  -- next block.
  next-Gap :
      (st : State) (dst : ℕ) (f : Fills st dst)
      → Gap (all_rows st.blocks) (suc dst * slots row_size) (f.src * slots row_size + f.i)
  next-Gap st dst f = elim (ℕ_discrete inv.filled m) [
    | yes e ↦ from (omega (arith, e)) inv.gap
    | no ne ↦
        let late : inv.filled < m =
          omega (arith, inv.filled_le, ne, usable-le-slots row_size pos) in
        let (b, eb) = get_elem?-some st.blocks dst (omega (arith, f.later, f.src_lt, inv.blocks)) in
        let wide = All-get (λ b. length b ≡ m) st.blocks dst inv.width eb in
        let (x, ex) = get_elem?-some b inv.filled (omega arith) in
        let at = get-all_rows m st.blocks dst inv.filled b inv.width eb late ∙ ex in
        let free =
          All-get IsFree (drop (usable row_size) b) (inv.filled - usable row_size)
            (All-get (λ b. All IsFree (drop (usable row_size) b)) st.blocks dst inv.spare eb)
            (get_elem?-drop (usable row_size) (inv.filled - usable row_size) inv.filled b
                (omega (arith, f.full))
              ∙ ex) in
        from (omega (arith, slots-le-suc-usable row_size pos, f.full))
          (Gap-jump x inv.gap (earlier_block m dst f.src inv.filled f.i f.later late) at free.1)
  ]
    where
      open f use {inv}

      m : ℕ
      m = slots row_size

      from :
          {q : ℕ}
          → q ≡ suc dst * m
          → Gap (all_rows st.blocks) q (f.src * m + f.i)
          → Gap (all_rows st.blocks) (suc dst * m) (f.src * m + f.i)
      from e g = subst (λ q. Gap (all_rows st.blocks) q (f.src * m + f.i)) e g

  full-next :
      (st : State) (dst : ℕ) (f : Fills st dst)
      → Keeps (record st { dst_blk_offset = 0; dst_full = false }) (suc dst) f.src f.i
  full-next st dst f = record {
    filled = 0;
    offset = omega arith;
    filled_le = omega arith;
    order = f.later;
    width = inv.width;
    blocks = inv.blocks;
    gap =
        subst (λ q. Gap (all_rows st.blocks) q (f.src * slots row_size + f.i)) (omega arith)
          (next-Gap st dst f);
    same_rows = inv.same_rows;
    counted = inv.counted;
    spare = inv.spare;
    lag = λ _. inv.lag (omega (arith, f.later));
    idx = inv.idx;
  }
    where
      open f use {inv}

  after_fill :
      (rounds dst dst_blk_idx : ℕ)
      → dst_blk_idx ≡ dst
      → (scanned : Outcome State) → Returns scanned (Filled dst)
      → ((st : State)
          → Fills st dst
          → Returns
              (fill_blocks columns row_size rounds st (dst + 1) (some dst) (dst_blk_idx + 1))
              Done)
      → dst < n
      → Returns
          (scanned >>= λ st'. elim st'.dst_full [
            | true ↦ fill_blocks columns row_size rounds st' (dst + 1) (some dst) (dst_blk_idx + 1)
            | false ↦ ok (st', some dst, dst_blk_idx + 1)
          ])
          Done
  after_fill rounds dst dst_blk_idx eq scanned (st, run, filled full post) later lt =
      rw run (rw full (later st post))
  after_fill rounds dst dst_blk_idx eq scanned (st, run, done open_ inv) later lt = rw run (
      rw open_
        (_, refl, record { dst = dst; dst_lt = lt; entry = refl; idx = omega arith; inv = inv }))

  pub fill_blocks-Returns :
      (rounds : ℕ) (st : State) (dst src i dst_blk_idx : ℕ) (entry : Option ℕ)
      → rounds + dst ≡ n
      → dst < n
      → dst_blk_idx ≡ dst
      → Keeps (record st { dst_blk_offset = 0; dst_full = false }) dst src i
      → src < n
      → st.src_blk_offset ≡ i * row_size
      → i ≤ slots row_size
      → Returns (fill_blocks columns row_size rounds st dst entry dst_blk_idx) Done
  unfolding fill_blocks
  fill_blocks-Returns zero st dst src i dst_blk_idx entry e lt eq inv src_lt at le =
      absurd (omega arith)
  fill_blocks-Returns (suc rounds) st dst src i dst_blk_idx entry e lt eq inv src_lt at le =
      after_fill rounds dst dst_blk_idx eq _ scanned
        (λ st' f.
          fill_blocks-Returns rounds st' (dst + 1) f.src f.i (dst_blk_idx + 1) (some dst)
            (omega arith) (omega (arith, f.later, f.src_lt)) (omega arith)
            (subst (λ d. Keeps (record st' { dst_blk_offset = 0; dst_full = false }) d f.src f.i)
              (omega arith) (full-next st' dst f))
            f.src_lt (f.inv.lag (omega (arith, f.later))) (omega (arith, f.i_lt)))
        lt
    where
      start : State
      start = record st { dst_blk_offset = 0; dst_full = false }

      scanned : Returns (scan_blocks columns row_size (length st.blocks) start dst 0 0) (Filled dst)
      scanned =
          subst (λ t. Returns t (Filled dst))
            (sym (
              skip_blocks st.src_blk_idx (n - st.src_blk_idx) (length st.blocks) start dst 0
                (omega (arith, inv.blocks, inv.idx)) (omega arith)))
            (scan_blocks-Returns (n - st.src_blk_idx) start dst st.src_blk_idx i
              (omega (arith, inv.idx)) (subst (λ s. Keeps start dst s i) (sym inv.idx) inv) refl at
              le (λ h. absurd (omega (arith, inv.idx))))
