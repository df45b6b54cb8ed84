-- ===== src/Bit/Bitmap.antt =====
-- The 16 bytes of the null bitmap of a row as 128 bits: src/lib/bit.c on them.
use midori_db.Prelude.{
  ℕ, zero, suc, ◌/◌, ◌%◌, ◌^◌, ◌<◌, ◌≡◌, refl, sym, ap, ◌∙◌, Bool, true, false, List, [], ◌∷◌,
  length, length-set, set, get_elem?-some, ltb, ◌==◌, if◌then◌else◌, Outcome, ok, ◌>>=◌, Returns,
  arith,
}
use midori_db.Bit.{bit_test, change_bit, or_mask, and_not_mask, bit_set, bit_clear}
use midori_db.Bit.Laws.{
  met_below, met_at, AreBytes, byte_lt, change_bit_lem, TestsAs, bit_test-bit_set,
  bit_test-bit_clear,
}

-- The bytes have the bits `bits`.
pub record IsBitmap (field : List ℕ) (bits : ℕ → Bool) : Type 0 where
  pub bytes : AreBytes field
  pub size : length field ≡ 16
  pub tests : (i : ℕ) → i < 128 → bit_test field i 16 ≡ ok (bits i)

AreBytes-set : (field : List ℕ) (k v : ℕ) → AreBytes field → v < 256 → AreBytes (set field k v)
AreBytes-set [] k v bytes lt = tt
AreBytes-set (b ∷ field) zero v bytes lt = (lt, bytes.1)
AreBytes-set (b ∷ field) (suc k) v bytes lt = (bytes.0, AreBytes-set field k v bytes.1 lt)

-- A change leaves a byte.
small_at : (ℕ → ℕ → ℕ) → ℕ → ℕ → Bool
small_at change b j = ltb (change b (2 ^ j)) 256

small_bits : (ℕ → ℕ → ℕ) → ℕ → Bool
small_bits change b = met_below (small_at change b) 8

or_small : met_below (small_bits or_mask) 256 ≡ true
unfolding met_below small_bits small_at
or_small = refl

and_not_small : met_below (small_bits and_not_mask) 256 ≡ true
unfolding met_below small_bits small_at
and_not_small = refl

small_byte :
    (change : ℕ → ℕ → ℕ) (b j : ℕ)
    → met_below (small_bits change) 256 ≡ true
    → b < 256
    → j < 8
    → change b (2 ^ j) < 256
unfolding small_bits small_at
small_byte change b j small b_lt j_lt =
    let bits = met_at (small_bits change) 256 b b_lt small in
    let bit = met_at (small_at change b) 8 j j_lt bits in ground (arith, bit)

module _ (field : List ℕ) (bits : ℕ → Bool) (is : IsBitmap field bits) (j : ℕ) (lt : j < 128) where
  changed :
      (change : ℕ → ℕ → ℕ)
      → met_below (small_bits change) 256 ≡ true
      → Returns (change_bit change field j 16) (λ out. AreBytes out × (length out ≡ 16))
  changed change small =
      let (b, at) = get_elem?-some field (j / 8) (omega (arith, is.size)) in
      let v = change b (2 ^ (j % 8)) in
      (
        set field (j / 8) v,
        change_bit_lem change field j 16 b (omega arith) at,
        (
          AreBytes-set field (j / 8) v is.bytes (
              small_byte change b (j % 8) small (byte_lt field (j / 8) b is.bytes at)
                (omega arith)),
          length-set field (j / 8) v ∙ is.size,
        ),
      )

  with_bit :
      (call : Outcome (List ℕ)) (new : Bool → Bool)
      → Returns call (λ out. AreBytes out × (length out ≡ 16))
      → ((i : ℕ) → i < 128 → TestsAs call (bit_test field i 16) i j 16 new)
      → Returns call (λ out. IsBitmap out (λ i. if i == j then new (bits i) else bits i))
  with_bit call new (out, run, kept) tests = (
    out,
    run,
    record {
      bytes = kept.0;
      size = kept.1;
      tests = λ i i_lt.
          ap (λ c. c >>= λ f. bit_test f i 16) (sym run)
          ∙ tests i i_lt
          ∙ ap (λ o. o >>= λ b. ok (if i == j then new b else b)) (is.tests i i_lt);
    },
  )

  pub bit_set-IsBitmap :
      Returns (bit_set field j 16) (λ out. IsBitmap out (λ i. if i == j then true else bits i))
  unfolding bit_set
  bit_set-IsBitmap =
      let narrow : j % 256 ≡ j = omega arith in
      with_bit (bit_set field j 16) (λ _. true) (rw narrow (changed or_mask or_small))
        (λ i i_lt.
          bit_test-bit_set field j i 16 is.bytes (omega (arith, is.size)) (omega arith)
            (omega arith) (omega arith))

  pub bit_clear-IsBitmap :
      Returns (bit_clear field j 16) (λ out. IsBitmap out (λ i. if i == j then false else bits i))
  unfolding bit_clear
  bit_clear-IsBitmap =
      let narrow : j % 256 ≡ j = omega arith in
      with_bit (bit_clear field j 16) (λ _. false) (rw narrow (changed and_not_mask and_not_small))
        (λ i i_lt.
          bit_test-bit_clear field j i 16 is.bytes (omega (arith, is.size)) (omega arith)
            (omega arith) (omega arith))
