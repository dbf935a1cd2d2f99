-- ===== src/Vga.antt =====
-- The text console of src/vga_buffer.rs. Memory is a function from offsets into the VGA buffer to
-- bytes: a cell is its character and its attribute.
pub mod Cells
pub mod Screen
pub mod Console
mod Tests
use ziran_os.Prelude.{
  ℕ, zero, suc, ◌+◌, ◌-◌, ◌*◌, ◌<◌, Bool, true, false, ◌&&◌, ◌||◌, List, [], ◌∷◌, ◌==◌, ltb, leb,
  if◌then◌else◌,
}

abbrev pub buffer_width : ℕ
buffer_width = 80

abbrev pub buffer_height : ℕ
buffer_height = 25

-- Light green on black.
abbrev pub default_attr : ℕ
default_attr = 10

abbrev pub blank_byte : ℕ
blank_byte = b' '

pub record Writer : Type 0 where
  pub col : ℕ
  pub row : ℕ
  pub attr : ℕ
  pub memory : ℕ → ℕ

abbrev pub store : (ℕ → ℕ) → ℕ → ℕ → ℕ → ℕ
store memory offset byte a = if a == offset then byte else memory a

unfoldable pub put_cell : (ℕ → ℕ) → ℕ → ℕ → ℕ → ℕ → ℕ → ℕ
put_cell memory row col byte attribute =
    let offset = (row * buffer_width + col) * 2 in
    store (store memory offset byte) (offset + 1) attribute

-- The inner loop of `blank_row` over the first columns.
unfoldable pub blank_cols : ℕ → ℕ → ℕ → (ℕ → ℕ) → ℕ → ℕ
blank_cols zero row attr memory = memory
blank_cols (suc col) row attr memory =
    put_cell (blank_cols col row attr memory) row col blank_byte attr

unfoldable pub blank_row : ℕ → ℕ → (ℕ → ℕ) → ℕ → ℕ
blank_row row attr memory = blank_cols buffer_width row attr memory

-- The loops of `scroll_up`: the first columns of the row after one that is given, and the first rows.
unfoldable pub copy_cols : ℕ → ℕ → (ℕ → ℕ) → ℕ → ℕ
copy_cols zero row memory = memory
copy_cols (suc col) row memory =
    let m = copy_cols col row memory in
    let src = ((row + 1) * buffer_width + col) * 2 in
    let dst = (row * buffer_width + col) * 2 in
    let ch = m src in let at = m (src + 1) in store (store m dst ch) (dst + 1) at

unfoldable pub copy_rows : ℕ → (ℕ → ℕ) → ℕ → ℕ
copy_rows zero memory = memory
copy_rows (suc row) memory = copy_cols buffer_width row (copy_rows row memory)

unfoldable pub scroll_up : Writer → Writer
scroll_up w = record w {
  memory = blank_row (buffer_height - 1) w.attr (copy_rows (buffer_height - 1) w.memory);
  row = buffer_height - 1;
}

unfoldable pub new_line : Writer → Writer
new_line w =
    if ltb (w.row + 1) buffer_height
    then record w { col = 0; row = w.row + 1 }
    else scroll_up (record w { col = 0 })

unfoldable pub step_back : Writer → Writer
step_back w =
    if ltb 0 w.col
    then record w { col = w.col - 1 }
    else if ltb 0 w.row
    then record w { row = w.row - 1; col = buffer_width - 1 }
    else w

unfoldable pub backspace : Writer → Writer
unfolding step_back
backspace w =
    let w' = step_back w in
    record w' { memory = put_cell w'.memory w'.row w'.col blank_byte w'.attr }

unfoldable pub put_byte : ℕ → Writer → Writer
put_byte byte w = record w { memory = put_cell w.memory w.row w.col byte w.attr; col = w.col + 1 }

unfoldable pub write_byte : ℕ → Writer → Writer
write_byte byte w =
    if byte == b'\n'
    then new_line w
    else if byte == 0x08
    then backspace w
    else put_byte byte (if leb buffer_width w.col then new_line w else w)

-- What `write_str` makes of a byte that is no printable character, line end or backspace.
unfoldable pub shown_byte : ℕ → ℕ
shown_byte byte =
    if (leb 0x20 byte && leb byte 0x7e) || (byte == b'\n') || (byte == 0x08) then byte else 0xfe

unfoldable pub write_str : List ℕ → Writer → Writer
write_str [] w = w
write_str (byte ∷ bytes) w = write_str bytes (write_byte (shown_byte byte) w)

unfoldable pub blank_rows : ℕ → ℕ → (ℕ → ℕ) → ℕ → ℕ
blank_rows zero attr memory = memory
blank_rows (suc row) attr memory = blank_row row attr (blank_rows row attr memory)

unfoldable pub clear : Writer → Writer
clear w = record w { memory = blank_rows buffer_height w.attr w.memory; col = 0; row = 0 }
