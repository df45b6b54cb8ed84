-- ===== src/Primitive/Table/Slots.antt =====
-- The slots of the blocks of a table in one row: slot `i` of block `k` is slot `k * n + i`.
use midori_db.Prelude.{
  ℕ, zero, suc, ◌+◌, ◌*◌, ◌<◌, ◌≡◌, refl, sym, ap, append_assoc, replicate, ◌∙◌, Bool, false, not,
  List, [], ◌∷◌, ◌++◌, length, get_elem?, set, get_elem?-append_left, get_elem?-append_right,
  set-append_left, set-append_right, length-append, length-set, some, All, if◌then◌else◌, arith,
}
use midori_db.Primitive.Row.{Row, empty_row}
use midori_db.Primitive.Table.{Block}

abbrev pub all_rows : List Block → List Row
all_rows [] = []
all_rows (b ∷ bs) = b ++ all_rows bs

-- Every block has `n` slots.
abbrev pub Width : ℕ → List Block → Type 0
Width n = All (λ b. length b ≡ n)

-- A row that the table holds.
abbrev pub is_live : Row → Bool
is_live r = if r.deleted then false else not r.empty

abbrev pub if_live : Row → List Row → List Row
if_live r rest = if is_live r then r ∷ rest else rest

-- The rows that the table holds, in order.
unfoldable pub live : List Row → List Row
live [] = []
live (r ∷ rs) = if_live r (live rs)

pub length-all_rows : (n : ℕ) (bs : List Block) → Width n bs → length (all_rows bs) ≡ length bs * n
length-all_rows n [] w = omega arith
length-all_rows n (b ∷ bs) w =
    omega (arith, length-append b (all_rows bs), length-all_rows n bs w.1, w.0)

pub get-all_rows :
    (n : ℕ) (bs : List Block) (k i : ℕ) (b : Block)
    → Width n bs
    → get_elem? bs k ≡ some b
    → i < n
    → get_elem? (all_rows bs) (k * n + i) ≡ get_elem? b i
get-all_rows n [] k i b w e h = absurd (cc e)
get-all_rows n (c ∷ bs) zero i b w e h =
    let same : c ≡ b = cc e in
    rw (← same) (
      ap (get_elem? (c ++ all_rows bs)) (omega arith)
      ∙ get_elem?-append_left c (all_rows bs) i (omega (arith, w.0)))
get-all_rows n (c ∷ bs) (suc k) i b w e h =
    get_elem?-append_right c (all_rows bs) (k * n + i) _ (omega (arith, w.0))
    ∙ get-all_rows n bs k i b w.1 e h

pub all_rows-put :
    (n : ℕ) (bs : List Block) (k i : ℕ) (b : Block) (v : Row)
    → Width n bs
    → get_elem? bs k ≡ some b
    → i < n
    → all_rows (set bs k (set b i v)) ≡ set (all_rows bs) (k * n + i) v
all_rows-put n [] k i b v w e h = absurd (cc e)
all_rows-put n (c ∷ bs) zero i b v w e h =
    let same : c ≡ b = cc e in
    let at : zero * n + i ≡ i = omega arith in
    rw (at, ← same, set-append_left c (all_rows bs) i v (omega (arith, w.0))) refl
all_rows-put n (c ∷ bs) (suc k) i b v w e h =
    rw (set-append_right c (all_rows bs) (k * n + i) (suc k * n + i) v (omega (arith, w.0)))
      (ap (λ t. c ++ t) (all_rows-put n bs k i b v w.1 e h))

pub Width-put :
    (n : ℕ) (bs : List Block) (k i : ℕ) (b : Block) (v : Row)
    → Width n bs
    → get_elem? bs k ≡ some b
    → Width n (set bs k (set b i v))
Width-put n [] k i b v w e = tt
Width-put n (c ∷ bs) zero i b v w e =
    let same : c ≡ b = cc e in (length-set b i v ∙ (rw (← same) w.0), w.1)
Width-put n (c ∷ bs) (suc k) i b v w e = (w.0, Width-put n bs k i b v w.1 e)

pub live-append : (a b : List Row) → live (a ++ b) ≡ live a ++ live b
unfolding live
live-append [] b = refl
live-append (r ∷ a) b = ground (arith, live-append a b)

pub all_rows-append : (a b : List Block) → all_rows (a ++ b) ≡ all_rows a ++ all_rows b
all_rows-append [] b = refl
all_rows-append (x ∷ a) b =
    ap (λ t. x ++ t) (all_rows-append a b) ∙ sym (append_assoc x (all_rows a) (all_rows b))

pub live-free : (k : ℕ) → live (replicate k empty_row) ≡ []
unfolding live
live-free zero = refl
live-free (suc k) = live-free k
