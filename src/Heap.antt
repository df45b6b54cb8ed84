-- ===== src/Heap.antt =====
-- What the code has of `malloc`, `zalloc` and `memcpy` (include/compiler/heap.h): texts by address.
use midori_db.Prelude.{
  ℕ, zero, suc, List, ◌∷◌, replicate, Option, none, some, ◌==◌, if◌then◌else◌, Outcome, ok, fault,
  segfault, ◌>>=◌,
}

-- The texts on the heap by address, and the next address that `malloc` gives.
pub record Heap : Type 0 where
  pub texts : ℕ → Option (List ℕ)
  pub next : ℕ

abbrev pub store : Heap → ℕ → List ℕ → Heap
store h p text = record h { texts = λ q. if q == p then some text else h.texts q }

-- `zalloc(size)`, where memory is at hand.
unfoldable pub zalloc : ℕ → Heap → ℕ × Heap
zalloc size h = let p = suc h.next in (p, store (record h { next = p }) p (replicate size 0))

unfoldable pub load : Heap → ℕ → Outcome (List ℕ)
load h p = elim (h.texts p) [ some text ↦ ok text | none ↦ fault segfault ]

-- `memcpy(dst, src, size)` into the start of the text `dst`.
unfoldable pub memcpy : List ℕ → List ℕ → ℕ → Outcome (List ℕ)
memcpy dst src zero = ok dst
memcpy (_ ∷ dst) (s ∷ src) (suc size) = memcpy dst src size >>= λ rest. ok (s ∷ rest)
memcpy _ _ (suc size) = fault segfault

-- `memcpy` of a text of the heap into another one.
unfoldable pub copy_text : Heap → ℕ → ℕ → ℕ → Outcome Heap
copy_text h to from size = do
  src ← load h from
  dst ← load h to
  copied ← memcpy dst src size
  ok (store h to copied)
