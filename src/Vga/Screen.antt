-- ===== src/Vga/Screen.antt =====
-- The console of src/vga_buffer.rs shows the last 25 lines of an endless paper.
use ziran_os.Prelude.{
  ℕ, ◌+◌, ◌-◌, ◌*◌, ◌<◌, ◌≤◌, ◌≡◌, refl, ap, ◌∙◌, true, false, ◌&&◌, List, [], ◌∷◌, ◌==◌, ltb, leb,
  if◌then◌else◌, Bool-cases, inl, inr, arith,
}
use ziran_os.Vga.{
  Writer, buffer_width, buffer_height, blank_byte, put_cell, blank_row, copy_rows, scroll_up,
  new_line, shown_byte,
}
use ziran_os.Vga.Cells.{blank_cols_lem, copy_rows_lem}

-- The paper: the character, 0, and the attribute, 1, at each line and column, the first line that
-- is shown, and the place of the cursor below it.
pub record Paper : Type 0 where
  pub cell : ℕ → ℕ → ℕ → ℕ
  pub top : ℕ
  pub row : ℕ
  pub col : ℕ

abbrev pub half : ℕ → ℕ → ℕ → ℕ
half byte attr k = if k == 0 then byte else attr

unfoldable pub type_at : ℕ → ℕ → Paper → Paper
type_at byte attr p = record p {
  cell = λ l c k. if (l == p.top + p.row) && (c == p.col) then half byte attr k else p.cell l c k;
}

-- The line below the last one comes into view, empty.
unfoldable pub next_line : ℕ → Paper → Paper
next_line attr p =
    if ltb (p.row + 1) buffer_height then record p { col = 0; row = p.row + 1 } else record {
      cell = λ l c k. if l == p.top + buffer_height then half blank_byte attr k else p.cell l c k;
      top = p.top + 1;
      row = p.row;
      col = 0;
    }

-- Back by one place, over the line's start too, but not above what is shown.
unfoldable pub one_back : Paper → Paper
one_back p =
    if ltb 0 p.col
    then record p { col = p.col - 1 }
    else if ltb 0 p.row
    then record p { row = p.row - 1; col = buffer_width - 1 }
    else p

unfoldable pub type_byte : ℕ → ℕ → Paper → Paper
type_byte attr byte p =
    if byte == b'\n'
    then next_line attr p
    else if byte == 0x08
    then type_at blank_byte attr (one_back p)
    else (let q = type_at byte attr (if leb buffer_width p.col then next_line attr p else p) in
        record q { col = q.col + 1 })

unfoldable pub type_text : ℕ → List ℕ → Paper → Paper
type_text attr [] p = p
type_text attr (byte ∷ bytes) p = type_text attr bytes (type_byte attr (shown_byte byte) p)

-- The buffer holds the lines of the paper from the first one that is shown.
pub record Shows (w : Writer) (p : Paper) : Type 0 where
  pub same_row : p.row ≡ w.row
  pub same_col : p.col ≡ w.col
  pub row_in : w.row < buffer_height
  pub col_in : w.col ≤ buffer_width
  pub cells :
      (r c k : ℕ)
      → r < buffer_height
      → c < buffer_width
      → k < 2
      → w.memory ((r * buffer_width + c) * 2 + k) ≡ p.cell (p.top + r) c k

-- Memory past the buffer.
abbrev pub Beyond : Writer → Writer → Type 0
Beyond w w' =
    ((a : ℕ) → buffer_height * buffer_width * 2 ≤ a → w'.memory a ≡ w.memory a) × (w'.attr ≡ w.attr)

module _ (w : Writer) (p : Paper) (s : Shows w p) where
  pub type_at-Shows :
      (byte : ℕ)
      → w.col < buffer_width
      → Shows
          (record w { memory = put_cell w.memory w.row w.col byte w.attr })
          (type_at byte w.attr p)
        × Beyond w (record w { memory = put_cell w.memory w.row w.col byte w.attr })
  unfolding put_cell type_at
  type_at-Shows byte h = (
    record {
      same_row = s.same_row;
      same_col = s.same_col;
      row_in = s.row_in;
      col_in = s.col_in;
      cells = λ r c k hr hc hk.
          ground (arith, s.cells r c k hr hc hk, s.same_row, s.same_col, s.row_in, h, hr, hc, hk);
    },
    (λ a ha. ground (arith, ha, s.row_in, h), refl),
  )

  -- After a scroll each line is where the next one was, and the last one is blank.
  scrolled :
      (r c k : ℕ)
      → r < buffer_height
      → c < buffer_width
      → k < 2
      → blank_row 24 w.attr (copy_rows 24 w.memory) ((r * buffer_width + c) * 2 + k) ≡ (
          if p.top + 1 + r == p.top + buffer_height
          then half blank_byte w.attr k
          else p.cell (p.top + 1 + r) c k)
  unfolding blank_row
  scrolled r c k hr hc hk =
      let a = (r * 80 + c) * 2 + k in
      let blanked = blank_cols_lem 80 24 w.attr (copy_rows 24 w.memory) ((r * 80 + c) * 2 + k) in
      elim (Bool-cases (r == 24)) [
        | inl last ↦ ground (arith, blanked, last, hc, hk)
        | inr above ↦
            let copied = copy_rows_lem 24 w.memory ((r * 80 + c) * 2 + k) in
            let next : (r * 80 + c) * 2 + k + 160 ≡ ((r + 1) * 80 + c) * 2 + k = omega arith in
            let line : p.top + (r + 1) ≡ p.top + 1 + r = omega arith in
            let moved =
              ap w.memory next
              ∙ s.cells (r + 1) c k (ground (arith, above, hr)) hc hk
              ∙ ap (λ l. p.cell l c k) line in
            ground (arith, blanked, copied, moved, above, hr, hc, hk)
      ]

  pub next_line-Shows :
      Shows (new_line w) (next_line w.attr p) × Beyond w (new_line w) × ((new_line w).col ≡ 0)
  unfolding new_line next_line scroll_up blank_row
  next_line-Shows = elim (Bool-cases (ltb (w.row + 1) buffer_height)) [
    | inl room ↦
        let same : ltb (p.row + 1) buffer_height ≡ true =
          ap (λ r. ltb (r + 1) 25) s.same_row ∙ room in
        rw (room, new_line)
          (rw (same, next_line)
            (
              record {
                same_row = ap (λ r. r + 1) s.same_row;
                same_col = refl;
                row_in = ground (arith, room);
                col_in = omega arith;
                cells = s.cells;
              },
              (λ a h. refl, refl),
              refl,
            ))
    | inr full ↦
        let same : ltb (p.row + 1) buffer_height ≡ false =
          ap (λ r. ltb (r + 1) 25) s.same_row ∙ full in
        rw (full, new_line)
          (rw (same, next_line)
            (
              record {
                same_row = ground (arith, full, s.same_row, s.row_in);
                same_col = refl;
                row_in = omega arith;
                col_in = omega arith;
                cells = scrolled;
              },
              (
                λ a h. ground (
                  arith,
                  h,
                  blank_cols_lem 80 24 w.attr (copy_rows 24 w.memory) a,
                  copy_rows_lem 24 w.memory a,
                ),
                refl,
              ),
              refl,
            ))
  ]
