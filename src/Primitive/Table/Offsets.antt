-- ===== src/Primitive/Table/Offsets.antt =====
-- Byte offsets of slots, and how many slots of a block the code fills.
use native.Mathlib.Nat.{
  le-div_iff_mul-le, div-lt_iff_lt-mul, mul-div_cancel, mul-mod_left, div-mul-le_self,
}
use midori_db.Prelude.{ℕ, suc, ◌+◌, ◌-◌, ◌*◌, ◌/◌, ◌%◌, ◌≤◌, ◌<◌, ◌≡◌, leb, arith}
use midori_db.Primitive.Table.{page_size, slots}

-- The code puts a row at an offset only where `offset + row_size` is below the page size: a page
-- that the rows would fill to its last byte keeps its last slot free.
abbrev pub usable : ℕ → ℕ
usable row_size = (page_size - 1) / row_size

module _ (row_size : ℕ) (pos : 0 < row_size) where
  pub usable-fits : (j : ℕ) → j < usable row_size → j * row_size + row_size < page_size
  usable-fits j h =
      let e = (le-div_iff_mul-le {k = row_size} {x = suc j} {y = page_size - 1} pos).0 h in
      grind arith

  pub fits-usable : (j : ℕ) → j * row_size + row_size < page_size → j < usable row_size
  fits-usable j h =
      (le-div_iff_mul-le {k = row_size} {x = suc j} {y = page_size - 1} pos).1 (grind arith)

  pub full_test : (j : ℕ) → leb page_size (j * row_size + row_size) ≡ leb (usable row_size) j
  full_test j = ground (arith, usable-fits j, fits-usable j)

  pub usable-le-slots : usable row_size ≤ slots row_size
  usable-le-slots =
      (le-div_iff_mul-le {k = row_size} {x = usable row_size} {y = page_size} pos).1
        (omega (arith, div-mul-le_self (page_size - 1) row_size))

  pub slots-le-suc-usable : slots row_size ≤ suc (usable row_size)
  slots-le-suc-usable =
      let small =
        (div-lt_iff_lt-mul {k = row_size} {x = page_size - 1} {y = suc (usable row_size)} pos).0
          (omega arith) in
      let half =
        (div-lt_iff_lt-mul {k = row_size} {x = page_size} {y = suc (suc (usable row_size))} pos).1
          (grind arith) in
      omega arith

  pub le-usable-inside : (j : ℕ) → j ≤ usable row_size → j * row_size < page_size
  le-usable-inside j h =
      let most = div-mul-le_self (page_size - 1) row_size in
      let le : j * row_size ≤ usable row_size * row_size = grind arith in omega arith

  pub div_at : (j : ℕ) → j * row_size / row_size ≡ j
  div_at j = mul-div_cancel j pos

  pub mod_at : (j : ℕ) → j * row_size % row_size ≡ 0
  mod_at j = mul-mod_left j row_size
