-- ===== src/Bit.antt =====
-- src/lib/bit.c: the bits of a byte buffer. The number of a byte is `floorl(bit / CHAR_BIT)`.
pub mod Laws
pub mod Bitmap
mod Tests
use Prim.Native.Nat.{bit_and, bit_or, bit_xor}
use midori_db.Prelude.{
  ℕ, ◌-◌, ◌/◌, ◌%◌, ◌^◌, Bool, List, get_elem?, set, Option, none, some, leb, ◌==◌, Outcome, ok,
  fault, segfault, bug_if, ◌>>=◌, ◌>>◌,
}

-- `((char*)field)[byte_no]`. The buffer is the list, and `len` is what the caller says of its size.
abbrev pub byte_at : List ℕ → ℕ → Outcome ℕ
byte_at field byte_no = elim (get_elem? field byte_no) [ some b ↦ ok b | none ↦ fault segfault ]

unfoldable pub bit_test : List ℕ → ℕ → ℕ → Outcome Bool
bit_test field bit_number len = do
  let byte_no = bit_number / 8
  bug_if (leb len byte_no)
  b ← byte_at field byte_no
  ok (b / 2 ^ (bit_number % 8) % 2 == 1)

-- The three writers: read the byte, change it by the mask of the bit, and store it back.
unfoldable pub change_bit : (ℕ → ℕ → ℕ) → List ℕ → ℕ → ℕ → Outcome (List ℕ)
change_bit change field bit_number len = do
  let byte_no = bit_number / 8
  bug_if (leb len byte_no)
  b ← byte_at field byte_no
  ok (set field byte_no (change b (2 ^ (bit_number % 8))))

-- The masks of a byte: `|= m`, `&= ~m` and `^= m`.
abbrev pub or_mask : ℕ → ℕ → ℕ
or_mask b m = bit_or b m

abbrev pub and_not_mask : ℕ → ℕ → ℕ
and_not_mask b m = bit_and b (255 - m)

abbrev pub xor_mask : ℕ → ℕ → ℕ
xor_mask b m = bit_xor b m

-- Their `bit_number` is a `uint8_t`.
unfoldable pub bit_set : List ℕ → ℕ → ℕ → Outcome (List ℕ)
unfolding change_bit
bit_set field bit_number len = change_bit or_mask field (bit_number % 256) len

unfoldable pub bit_clear : List ℕ → ℕ → ℕ → Outcome (List ℕ)
unfolding change_bit
bit_clear field bit_number len = change_bit and_not_mask field (bit_number % 256) len

unfoldable pub bit_toggle : List ℕ → ℕ → ℕ → Outcome (List ℕ)
unfolding change_bit
bit_toggle field bit_number len = change_bit xor_mask field (bit_number % 256) len
