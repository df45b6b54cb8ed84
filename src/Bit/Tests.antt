-- ===== src/Bit/Tests.antt =====
-- Runs of the functions of src/lib/bit.c.
use midori_db.Prelude.{◌≡◌, refl, true, false, not, [], ◌∷◌, ok, fault, bug_on, arith}
use midori_db.Bit.{bit_test, bit_set, bit_clear, bit_toggle}
use midori_db.Bit.Laws.{
  AreBytes, TestsAs, bit_test-bit_set, bit_test-bit_clear, bit_test-bit_toggle,
}

bit_set_run : bit_set (0 ∷ 0 ∷ []) 10 2 ≡ ok (0 ∷ 4 ∷ [])
unfolding bit_set
bit_set_run = refl

bit_test_run : bit_test (0 ∷ 4 ∷ []) 10 2 ≡ ok true
unfolding bit_test
bit_test_run = refl

bit_clear_outside : bit_clear (0 ∷ 4 ∷ []) 16 2 ≡ fault bug_on
unfolding bit_clear
bit_clear_outside = refl

two_bytes-AreBytes : AreBytes (5 ∷ 4 ∷ [])
two_bytes-AreBytes = (omega arith, (omega arith, tt))

bit_test-bit_set_example :
    TestsAs (bit_set (5 ∷ 4 ∷ []) 10 2) (bit_test (5 ∷ 4 ∷ []) 9 2) 9 10 2 (λ _. true)
bit_test-bit_set_example =
    bit_test-bit_set (5 ∷ 4 ∷ []) 10 9 2 two_bytes-AreBytes (omega arith) (omega arith)
      (omega arith) (omega arith)

bit_test-bit_clear_example :
    TestsAs (bit_clear (5 ∷ 4 ∷ []) 10 2) (bit_test (5 ∷ 4 ∷ []) 9 2) 9 10 2 (λ _. false)
bit_test-bit_clear_example =
    bit_test-bit_clear (5 ∷ 4 ∷ []) 10 9 2 two_bytes-AreBytes (omega arith) (omega arith)
      (omega arith) (omega arith)

bit_test-bit_toggle_example :
    TestsAs (bit_toggle (5 ∷ 4 ∷ []) 10 2) (bit_test (5 ∷ 4 ∷ []) 9 2) 9 10 2 not
bit_test-bit_toggle_example =
    bit_test-bit_toggle (5 ∷ 4 ∷ []) 10 9 2 two_bytes-AreBytes (omega arith) (omega arith)
      (omega arith) (omega arith)
