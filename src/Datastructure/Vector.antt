-- ===== src/Datastructure/Vector.antt =====
-- include/datastructure/vector.h and src/datastructure/vector.c: a buffer of bytes that grows.
pub mod Laws
use midori_db.Prelude.{
  ℕ, ◌+◌, ◌-◌, ◌*◌, ◌/◌, Bool, true, false, List, [], ◌++◌, take, drop, replicate, Option, none,
  some, ltb, ◌==◌, if◌then◌else◌, Outcome, ok, fault, segfault, ◌>>=◌,
}
use midori_db.Heap.{memcpy}

-- `struct vector`. `bytes` is its `data`, the bytes of the whole capacity.
pub record Vector : Type 0 where
  pub bytes : List ℕ
  pub len : ℕ
  pub capacity : ℕ

abbrev pub vector_default_inital_size : ℕ
vector_default_inital_size = 16

-- `granted` says whether `calloc` gets its memory.
unfoldable pub vector_init : Bool → Option Vector
vector_init granted =
    if granted
    then some (record {
      bytes = replicate vector_default_inital_size 0;
      len = 0;
      capacity = vector_default_inital_size;
    })
    else none

-- Whether `vector_push` calls `realloc`.
abbrev pub must_grow : Vector → ℕ → Bool
must_grow vec len = ltb (vec.capacity / 2) (vec.len + len)

-- `realloc` keeps the bytes before `len`, and `memzero` clears the others. The result of `realloc` is
-- looked at only behind the `memzero`, which writes through it.
unfoldable pub grow : Bool → Vector → ℕ → Outcome Vector
grow granted vec len =
    let new_cap = (vec.len + len) * 3 in
    if must_grow vec len
    then (if granted
        then ok (record vec {
          bytes = take vec.len vec.bytes ++ replicate (new_cap - vec.len) 0;
          capacity = new_cap;
        })
        else fault segfault)
    else ok vec

-- The copy at the end of `vector_push`.
unfoldable pub append_bytes : Vector → List ℕ → ℕ → Outcome (Bool × Vector)
append_bytes vec src len = do
  rest ← memcpy (drop vec.len vec.bytes) src len
  ok (true, record vec { bytes = take vec.len vec.bytes ++ rest; len = vec.len + len })

unfoldable pub vector_push : Bool → Vector → List ℕ → ℕ → Outcome (Bool × Vector)
vector_push granted vec src len =
    if len == 0
    then ok (false, vec)
    else (grow granted vec len >>= λ vec'. append_bytes vec' src len)

unfoldable pub vector_free : Vector → Vector
vector_free vec = record { bytes = []; len = 0; capacity = 0 }

unfoldable pub vector_clear : Vector → Vector
vector_clear vec = record vec { bytes = replicate vec.capacity 0; len = 0 }
