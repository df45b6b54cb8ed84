-- ===== src/Datastructure/Vector/Laws.antt =====
-- What a vector holds before and after a push.
use midori_db.Prelude.{
  ℕ, ◌+◌, ◌-◌, ◌*◌, ◌<◌, ◌≤◌, ◌≡◌, refl, sym, ap, ◌∙◌, Bool, true, false, List, [], ◌∷◌, ◌++◌,
  append_assoc, length, take, drop, replicate, length-append, length-replicate, length-take_le,
  take-append-drop, take-append_length, Bool-cases, inl, inr, ok, ◌==◌, Returns, arith,
}
use midori_db.Heap.{memcpy}
use midori_db.Datastructure.Vector.{Vector, must_grow, grow, append_bytes, vector_push}

pub record IsVector (vec : Vector) : Type 0 where
  pub size : length vec.bytes ≡ vec.capacity
  pub inside : vec.len ≤ vec.capacity

-- The bytes that were pushed.
abbrev pub contents : Vector → List ℕ
contents vec = take vec.len vec.bytes

pub memcpy_lem :
    (dst src : List ℕ)
    → length src ≤ length dst
    → memcpy dst src (length src) ≡ ok (src ++ drop (length src) dst)
unfolding memcpy
memcpy_lem dst [] h = refl
memcpy_lem [] (s ∷ src) h = absurd (omega arith)
memcpy_lem (d ∷ dst) (s ∷ src) h = rw (memcpy_lem dst src (omega arith))

-- A vector after the push of `bytes`.
pub record Pushed (vec : Vector) (bytes : List ℕ) (r : Bool × Vector) : Type 0 where
  pub returns : r.0 ≡ true
  pub bytes_behind : contents r.1 ≡ contents vec ++ bytes
  pub len : r.1.len ≡ vec.len + length bytes
  pub valid : IsVector r.1

-- A vector with room for the bytes.
record Roomy (vec : Vector) (l : ℕ) (v : Vector) : Type 0 where
  same : contents v ≡ contents vec
  len : v.len ≡ vec.len
  valid : IsVector v
  room : v.len + l ≤ v.capacity

module _ (granted : Bool) (vec : Vector) (valid : IsVector vec) where
  grow-Roomy :
      (l : ℕ)
      → (must_grow vec l ≡ true → granted ≡ true)
      → Returns (grow granted vec l) (Roomy vec l)
  unfolding grow
  grow-Roomy l grants = elim (Bool-cases (must_grow vec l)) [
    | inl e ↦
        let new_cap = (vec.len + l) * 3 in
        let short = length-take_le vec.len vec.bytes (omega (arith, valid.size, valid.inside)) in
        (
          record vec {
            bytes = take vec.len vec.bytes ++ replicate ((vec.len + l) * 3 - vec.len) 0;
            capacity = (vec.len + l) * 3;
          },
          rw (e, grants e),
          record {
            same =
                take-append_length (take vec.len vec.bytes)
                  (replicate ((vec.len + l) * 3 - vec.len) 0) vec.len (sym short);
            len = refl;
            valid = record {
              size = omega (
                arith,
                length-append (take vec.len vec.bytes) (replicate ((vec.len + l) * 3 - vec.len) 0),
                short,
                length-replicate {A = ℕ} ((vec.len + l) * 3 - vec.len) 0,
              );
              inside = omega arith;
            };
            room = omega arith;
          },
        )
    | inr e ↦
        (vec, rw e, record { same = refl; len = refl; valid = valid; room = ground (arith, e) })
  ]

  append_bytes-Pushed :
      (bytes : List ℕ) (v : Vector)
      → Roomy vec (length bytes) v
      → Returns (append_bytes v bytes (length bytes)) (Pushed vec bytes)
  unfolding append_bytes
  append_bytes-Pushed bytes v r =
      let short = length-take_le v.len v.bytes (omega (arith, r.valid.size, r.valid.inside)) in
      let both = take-append-drop v.len v.bytes in
      let left : length (drop v.len v.bytes) + v.len ≡ v.capacity = omega (
        arith,
        r.valid.size,
        short,
        length-append (take v.len v.bytes) (drop v.len v.bytes),
        ap length both,
      ) in
      let tail = drop (length bytes) (drop v.len v.bytes) in
      (
        (
          true,
          record v { bytes = take v.len v.bytes ++ (bytes ++ tail); len = v.len + length bytes },
        ),
        rw (memcpy_lem (drop v.len v.bytes) bytes (omega (arith, left, r.room))),
        record {
          returns = refl;
          bytes_behind =
              ap (take (v.len + length bytes)) (sym (append_assoc (take v.len v.bytes) bytes tail))
              ∙ take-append_length (take v.len v.bytes ++ bytes) tail (v.len + length bytes)
                  (omega (arith, length-append (take v.len v.bytes) bytes, short))
              ∙ ap (λ c. c ++ bytes) r.same;
          len = omega (arith, r.len);
          valid = record {
            size = omega (
              arith,
              short,
              left,
              r.room,
              length-append (take v.len v.bytes) (bytes ++ tail),
              length-append bytes tail,
              length-append (take (length bytes) (drop v.len v.bytes)) tail,
              length-take_le (length bytes) (drop v.len v.bytes) (omega (arith, left, r.room)),
              ap length (take-append-drop (length bytes) (drop v.len v.bytes)),
            );
            inside = r.room;
          };
        },
      )

  -- Bytes, at least one, that are pushed to a vector, where the memory for its growth is granted if
  -- it must grow, stand behind those that it had: the call returns true, the length grows by
  -- theirs, and the vector is valid.
  pub vector_push-Pushed :
      (bytes : List ℕ)
      → 0 < length bytes
      → (must_grow vec (length bytes) ≡ true → granted ≡ true)
      → Returns (vector_push granted vec bytes (length bytes)) (Pushed vec bytes)
  unfolding vector_push
  vector_push-Pushed bytes some_byte grants =
      let (v, run, roomy) = grow-Roomy (length bytes) grants in
      let (r, runs, pushed) = append_bytes-Pushed bytes v roomy in
      let not_zero : (length bytes == 0) ≡ false = ground arith in
      (r, rw (not_zero, run) runs, pushed)
