-- ===== src/Vga/Tests.antt =====
-- The console at concrete inputs.
use ziran_os.Prelude.{ℕ, ◌≡◌, refl, List, [], ◌∷◌}
use ziran_os.Vga.{
  Writer, default_attr, put_cell, blank_cols, blank_row, copy_cols, copy_rows, scroll_up, new_line,
  step_back, backspace, put_byte, write_byte, shown_byte, write_str, clear,
}
use ziran_os.Vga.Screen.{Shows, Beyond, type_text}
use ziran_os.Vga.Console.{sheet, clear-write_str-Shows}

abbrev dirty : Writer
dirty = record { col = 3; row = 24; attr = default_attr; memory = λ a. 7 }

-- A character that is taken back, a line end, and a byte that is not printable.
abbrev typed_text : List ℕ
typed_text = b'A' ∷ b'B' ∷ 0x08 ∷ b'\n' ∷ 0xc3 ∷ []

written : Writer
written = write_str typed_text dirty

-- On the last row the line end scrolls: what was on row 24 is on row 23.
written_row : (written.row ≡ 24) × (written.col ≡ 1) × (written.memory 3686 ≡ b'A')
unfolding written write_str write_byte shown_byte new_line scroll_up backspace step_back put_byte
    put_cell copy_rows copy_cols blank_row blank_cols
written_row = (refl, refl, refl)

written_cells :
    (written.memory 3688 ≡ b' ') × (written.memory 3840 ≡ 0xfe) × (written.memory 3842 ≡ b' ')
unfolding written write_str write_byte shown_byte new_line scroll_up backspace step_back put_byte
    put_cell copy_rows copy_cols blank_row blank_cols
written_cells = (refl, refl, refl)

clear-write_str-Shows_example :
    Shows
      (write_str typed_text (clear dirty))
      (type_text default_attr typed_text (sheet default_attr))
    × Beyond dirty (write_str typed_text (clear dirty))
clear-write_str-Shows_example = clear-write_str-Shows dirty typed_text
