-- ===== src/Bit/Laws.antt =====
-- What reading a bit returns after a write to it or to another bit of the same buffer.
use midori_db.Prelude.{
  ℕ, zero, suc, ◌/◌, ◌%◌, ◌^◌, ◌*◌, ◌≤◌, ◌<◌, ◌≡◌, refl, sym, ap, ◌∙◌, Bool, true, false, not, ◌&&◌,
  List, [], ◌∷◌, length, get_elem?, set, get_elem?-set_self, get_elem?-set_ne, get_elem?-some, some,
  leb, ◌==◌, if◌then◌else◌, Outcome, ok, ◌>>=◌, arith,
}
use native.Mathlib.Decide.{ℕ_discrete}
use midori_db.Bit.{
  byte_at, bit_test, change_bit, or_mask, and_not_mask, xor_mask, bit_set, bit_clear, bit_toggle,
}

-- The test is met by every number below the bound.
unfoldable pub met_below : (ℕ → Bool) → ℕ → Bool
met_below test zero = true
met_below test (suc bound) = met_below test bound && test bound

pub met_at :
    (test : ℕ → Bool) (bound i : ℕ) → i < bound → met_below test bound ≡ true → test i ≡ true
unfolding met_below
met_at test zero i below met = absurd (omega arith)
met_at test (suc bound) i below met = let earlier = met_at test bound i in ground (arith, earlier)

abbrev same : Bool → Bool → Bool
same true b = b
same false b = not b

-- Bit `i` of a byte.
abbrev pub bit_of : ℕ → ℕ → Bool
bit_of b i = b / 2 ^ i % 2 == 1

-- A change of bit `j` that leaves a byte, makes bit `j` what `new` says, and keeps the others.
right_at : (ℕ → ℕ → ℕ) → (Bool → Bool) → ℕ → ℕ → ℕ → Bool
right_at change new b j i =
    same (bit_of (change b (2 ^ j)) i) (if i == j then new (bit_of b i) else bit_of b i)

right_at_bit : (ℕ → ℕ → ℕ) → (Bool → Bool) → ℕ → ℕ → Bool
right_at_bit change new b j = met_below (right_at change new b j) 8

right_at_byte : (ℕ → ℕ → ℕ) → (Bool → Bool) → ℕ → Bool
right_at_byte change new b = met_below (right_at_bit change new b) 8

table_of : (ℕ → ℕ → ℕ) → (Bool → Bool) → Bool
unfolding met_below right_at right_at_bit right_at_byte
table_of change new = met_below (right_at_byte change new) 256

or_table : table_of or_mask (λ _. true) ≡ true
unfolding table_of
or_table = refl

and_not_table : table_of and_not_mask (λ _. false) ≡ true
unfolding table_of
and_not_table = refl

xor_table : table_of xor_mask not ≡ true
unfolding table_of
xor_table = refl

same→eq : (a b : Bool) → same a b ≡ true → a ≡ b
same→eq a b h = ground arith

-- What a table says of one byte.
abbrev Changes : (ℕ → ℕ → ℕ) → (Bool → Bool) → Type 0
Changes change new =
    (b j i : ℕ)
    → b < 256
    → j < 8
    → i < 8
    → bit_of (change b (2 ^ j)) i ≡ (if i == j then new (bit_of b i) else bit_of b i)

-- The proof that the table of `change` gives, with the loops shut.
from_table :
    (change : ℕ → ℕ → ℕ) (new : Bool → Bool) → table_of change new ≡ true → Changes change new
unfolding table_of right_at_bit right_at_byte right_at
from_table change new t b j i hb hj hi =
    let byte = met_at (right_at_byte change new) 256 b hb t in
    let bit = met_at (right_at_bit change new b) 8 j hj byte in
    same→eq _ _ (met_at (right_at change new b j) 8 i hi bit)

-- Every element is a byte.
abbrev pub AreBytes : List ℕ → Type 0
AreBytes [] = Unit
AreBytes (b ∷ bs) = (b < 256) × AreBytes bs

pub byte_lt : (field : List ℕ) (k b : ℕ) → AreBytes field → get_elem? field k ≡ some b → b < 256
byte_lt [] k b h e = cc
byte_lt (x ∷ field) zero b h e = ground arith
byte_lt (x ∷ field) (suc k) b h e = byte_lt field k b h.1 e

pub bit_test_lem :
    (field : List ℕ) (i len b : ℕ)
    → i < 8 * len
    → get_elem? field (i / 8) ≡ some b
    → bit_test field i len ≡ ok (bit_of b (i % 8))
unfolding bit_test
bit_test_lem field i len b h e =
    let far : leb len (i / 8) ≡ false = ground arith in rw (far, byte_at, e)

pub change_bit_lem :
    (change : ℕ → ℕ → ℕ) (field : List ℕ) (j len b : ℕ)
    → j < 8 * len
    → get_elem? field (j / 8) ≡ some b
    → change_bit change field j len ≡ ok (set field (j / 8) (change b (2 ^ (j % 8))))
unfolding change_bit
change_bit_lem change field j len b h e =
    let far : leb len (j / 8) ≡ false = ground arith in rw (far, byte_at, e)

-- What `test-change` below says, as a statement about one change.
abbrev pub TestsAs : (Outcome (List ℕ)) → Outcome Bool → ℕ → ℕ → ℕ → (Bool → Bool) → Type 0
TestsAs changed old i j len new =
    changed >>= (λ f. bit_test f i len) ≡ old >>= (λ b. ok (if i == j then new b else b))

module _ (change : ℕ → ℕ → ℕ) (new : Bool → Bool) (changes : Changes change new) where
  test-change_at :
      (field : List ℕ) (j i len b c : ℕ)
      → AreBytes field
      → len ≤ length field
      → j < 8 * len
      → i < 8 * len
      → get_elem? field (j / 8) ≡ some b
      → get_elem? field (i / 8) ≡ some c
      → TestsAs (change_bit change field j len) (bit_test field i len) i j len new
  test-change_at field j i len b c bytes inside hj hi eb ec =
      let v = change b (2 ^ (j % 8)) in
      rw (change_bit_lem change field j len b hj eb, bit_test_lem field i len c hi ec)
        (elim (ℕ_discrete (j / 8) (i / 8)) [
          | yes p ↦
              let stored : get_elem? (set field (j / 8) v) (i / 8) ≡ some v =
                rw (← p) (get_elem?-set_self field (j / 8) v (omega arith)) in
              let old : some c ≡ some b = sym ec ∙ ap (get_elem? field) (sym p) ∙ eb in
              let same_byte : c ≡ b = cc old in
              let now =
                changes b (j % 8) (i % 8) (byte_lt field (j / 8) b bytes eb) (omega arith)
                  (omega arith) in
              rw (bit_test_lem (set field (j / 8) v) i len v hi stored, same_byte)
                (ground (arith, now))
          | no p ↦
              let kept = get_elem?-set_ne field v p ∙ ec in
              rw (bit_test_lem (set field (j / 8) v) i len c hi kept) (ground arith)
        ])

  test-change :
      (field : List ℕ) (j i len : ℕ)
      → AreBytes field
      → len ≤ length field
      → j < 8 * len
      → i < 8 * len
      → TestsAs (change_bit change field j len) (bit_test field i len) i j len new
  test-change field j i len bytes inside hj hi =
      let (b, eb) = get_elem?-some field (j / 8) (omega arith) in
      let (c, ec) = get_elem?-some field (i / 8) (omega arith) in
      test-change_at field j i len b c bytes inside hj hi eb ec

module _ (field : List ℕ) (j i len : ℕ) (bytes : AreBytes field) (inside : len ≤ length field)
    (narrow : j < 256) (hj : j < 8 * len) (hi : i < 8 * len) where
  narrowed : j % 256 ≡ j
  narrowed = omega arith

  -- In a buffer of bytes that holds `len` of them, setting bit `j` below 256 makes every test of a
  -- bit `i` of the buffer true if `i` is `j`, and what it was if not.
  pub bit_test-bit_set : TestsAs (bit_set field j len) (bit_test field i len) i j len (λ _. true)
  unfolding bit_set
  bit_test-bit_set = rw narrowed (
      test-change or_mask (λ _. true) (from_table or_mask (λ _. true) or_table) field j i len bytes
        inside hj hi)

  -- In a buffer of bytes, bit_clear of bit j below 256 makes the test of a bit i false if i is
  -- j, and keeps it if not.
  pub bit_test-bit_clear :
      TestsAs (bit_clear field j len) (bit_test field i len) i j len (λ _. false)
  unfolding bit_clear
  bit_test-bit_clear = rw narrowed (
      test-change and_not_mask (λ _. false) (from_table and_not_mask (λ _. false) and_not_table)
        field j i len bytes inside hj hi)

  -- In a buffer of bytes, bit_toggle of bit j below 256 turns the test of a bit i round if i is
  -- j, and keeps it if not.
  pub bit_test-bit_toggle : TestsAs (bit_toggle field j len) (bit_test field i len) i j len not
  unfolding bit_toggle
  bit_test-bit_toggle = rw narrowed (
      test-change xor_mask not (from_table xor_mask not xor_table) field j i len bytes inside hj hi)
