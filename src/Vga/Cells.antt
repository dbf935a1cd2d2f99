-- ===== src/Vga/Cells.antt =====
-- What the loops of src/vga_buffer.rs do to each byte of the buffer.
use ziran_os.Prelude.{
  ℕ, zero, suc, ◌+◌, ◌*◌, ◌%◌, ◌≤◌, ◌≡◌, ◌&&◌, ◌==◌, ltb, leb, if◌then◌else◌, arith,
}
use ziran_os.Vga.{
  blank_byte, buffer_width, put_cell, blank_cols, blank_row, copy_cols, copy_rows, blank_rows,
}

-- The bytes of a blank cell.
abbrev pub blank : ℕ → ℕ → ℕ
blank attr a = if a % 2 == 0 then blank_byte else attr

pub blank_cols_lem :
    (n row attr : ℕ) (memory : ℕ → ℕ) (a : ℕ)
    → blank_cols n row attr memory a
      ≡ (if leb (row * 160) a && ltb a (row * 160 + n * 2) then blank attr a else memory a)
unfolding blank_cols put_cell
blank_cols_lem zero row attr memory a = ground arith
blank_cols_lem (suc n) row attr memory a = ground (arith, blank_cols_lem n row attr memory a)

pub copy_cols_lem :
    (n row : ℕ) (memory : ℕ → ℕ) (a : ℕ)
    → n ≤ buffer_width
    → copy_cols n row memory a
      ≡ (if leb (row * 160) a && ltb a (row * 160 + n * 2) then memory (a + 160) else memory a)
unfolding copy_cols
copy_cols_lem zero row memory a h = ground arith
copy_cols_lem (suc n) row memory a h = ground (
  arith,
  copy_cols_lem n row memory a (omega arith),
  copy_cols_lem n row memory (((row + 1) * 80 + n) * 2) (omega arith),
  copy_cols_lem n row memory (((row + 1) * 80 + n) * 2 + 1) (omega arith),
)

pub copy_rows_lem :
    (n : ℕ) (memory : ℕ → ℕ) (a : ℕ)
    → copy_rows n memory a ≡ (if ltb a (n * 160) then memory (a + 160) else memory a)
unfolding copy_rows
copy_rows_lem zero memory a = ground arith
copy_rows_lem (suc n) memory a = ground (
  arith,
  copy_cols_lem 80 n (copy_rows n memory) a (omega arith),
  copy_rows_lem n memory a,
  copy_rows_lem n memory (a + 160),
)

pub blank_rows_lem :
    (n attr : ℕ) (memory : ℕ → ℕ) (a : ℕ)
    → blank_rows n attr memory a ≡ (if ltb a (n * 160) then blank attr a else memory a)
unfolding blank_rows blank_row
blank_rows_lem zero attr memory a = ground arith
blank_rows_lem (suc n) attr memory a =
    ground
      (arith, blank_cols_lem 80 n attr (blank_rows n attr memory) a, blank_rows_lem n attr memory a)
