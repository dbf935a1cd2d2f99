-- ===== src/Vga/Console.antt =====
-- Whole texts on the console of src/vga_buffer.rs.
use ziran_os.Prelude.{
  ℕ, ◌+◌, ◌-◌, ◌*◌, ◌<◌, ◌≡◌, refl, subst, ap, ◌∙◌, true, false, List, [], ◌∷◌, ◌==◌, ltb, leb,
  Bool-cases, inl, inr, arith,
}
use ziran_os.Vga.{
  Writer, buffer_width, blank_byte, new_line, step_back, backspace, put_byte, write_byte,
  shown_byte, write_str, clear,
}
use ziran_os.Vga.Cells.{blank_rows_lem}
use ziran_os.Vga.Screen.{
  Paper, Shows, Beyond, half, type_at, next_line, one_back, type_byte, type_text, type_at-Shows,
  next_line-Shows,
}

Beyond-trans : (u v w : Writer) → Beyond u v → Beyond v w → Beyond u w
Beyond-trans u v w (same, attr) (same', attr') = (λ a h. same' a h ∙ same a h, attr' ∙ attr)

one_back-Shows :
    (w : Writer) (p : Paper)
    → Shows w p
    → Shows (step_back w) (one_back p) × Beyond w (step_back w) × ((step_back w).col < buffer_width)
unfolding step_back one_back
one_back-Shows w p s = elim (Bool-cases (ltb 0 w.col)) [
  | inl inside ↦
      let same : ltb 0 p.col ≡ true = ap (ltb 0) s.same_col ∙ inside in
      rw (inside, step_back)
        (rw (same, one_back)
          (
            record {
              same_row = s.same_row;
              same_col = ap (λ c. c - 1) s.same_col;
              row_in = s.row_in;
              col_in = omega (arith, s.col_in);
              cells = s.cells;
            },
            (λ a h. refl, refl),
            ground (arith, s.col_in, inside),
          ))
  | inr at_start ↦
      let same : ltb 0 p.col ≡ false = ap (ltb 0) s.same_col ∙ at_start in
      elim (Bool-cases (ltb 0 w.row)) [
        | inl below ↦
            let same_below : ltb 0 p.row ≡ true = ap (ltb 0) s.same_row ∙ below in
            rw (at_start, below, step_back)
              (rw (same, same_below, one_back)
                (
                  record {
                    same_row = ap (λ r. r - 1) s.same_row;
                    same_col = refl;
                    row_in = omega (arith, s.row_in);
                    col_in = omega arith;
                    cells = s.cells;
                  },
                  (λ a h. refl, refl),
                  omega arith,
                ))
        | inr first ↦
            let same_first : ltb 0 p.row ≡ false = ap (ltb 0) s.same_row ∙ first in
            rw (at_start, first, step_back)
              (rw (same, same_first, one_back) (s, (λ a h. refl, refl), ground (arith, at_start)))
      ]
]

put_byte-Shows :
    (byte : ℕ) (w : Writer) (p : Paper)
    → Shows w p
    → w.col < buffer_width
    → Shows (put_byte byte w) (let q = type_at byte w.attr p in record q { col = q.col + 1 })
      × Beyond w (put_byte byte w)
unfolding put_byte type_at
put_byte-Shows byte w p s h =
    let (t, b) = type_at-Shows w p s byte h in
    (
      record {
        same_row = t.same_row;
        same_col = ap (λ c. c + 1) s.same_col;
        row_in = t.row_in;
        col_in = omega (arith, h);
        cells = t.cells;
      },
      b,
    )

write_byte-Shows :
    (byte : ℕ) (w : Writer) (p : Paper)
    → Shows w p
    → Shows (write_byte byte w) (type_byte w.attr byte p) × Beyond w (write_byte byte w)
unfolding write_byte type_byte backspace
write_byte-Shows byte w p s = elim (Bool-cases (byte == b'\n')) [
  | inl line_end ↦
      let (t, b, z) = next_line-Shows w p s in rw (line_end, write_byte, type_byte) (t, b)
  | inr other ↦ elim (Bool-cases (byte == 0x08)) [
    | inl back ↦
        let (t, b, inside) = one_back-Shows w p s in
        let (t', b') = type_at-Shows (step_back w) (one_back p) t blank_byte inside in
        rw (other, back, write_byte, type_byte)
          (
            subst (λ a. Shows (backspace w) (type_at blank_byte a (one_back p))) b.1 t',
            Beyond-trans w (step_back w) (backspace w) b b',
          )
    | inr plain ↦ elim (Bool-cases (leb buffer_width w.col)) [
      | inl full ↦
          let same : leb buffer_width p.col ≡ true = ap (leb 80) s.same_col ∙ full in
          let (t, b, z) = next_line-Shows w p s in
          let (t', b') =
            put_byte-Shows byte (new_line w) (next_line w.attr p) t (omega (arith, z)) in
          rw (other, plain, full, same, write_byte, type_byte)
            (
              subst
                  (λ a.
                    Shows (put_byte byte (new_line w))
                      (let q = type_at byte a (next_line w.attr p) in record q { col = q.col + 1 }))
                  b.1 t',
              Beyond-trans w (new_line w) (put_byte byte (new_line w)) b b',
            )
      | inr room ↦
          let same : leb buffer_width p.col ≡ false = ap (leb 80) s.same_col ∙ room in
          rw (other, plain, room, same, write_byte, type_byte)
            (put_byte-Shows byte w p s (ground (arith, room, s.col_in)))
    ]
  ]
]

-- Whatever is written, the console shows the last 25 lines of the paper that the text is typed on,
-- with the cursor inside them, and no byte past the buffer changes.
pub write_str-Shows :
    (bytes : List ℕ) (w : Writer) (p : Paper)
    → Shows w p
    → Shows (write_str bytes w) (type_text w.attr bytes p) × Beyond w (write_str bytes w)
unfolding write_str type_text
write_str-Shows [] w p s = (s, (λ a h. refl, refl))
write_str-Shows (byte ∷ bytes) w p s =
    let w1 = write_byte (shown_byte byte) w in
    let (t, b) = write_byte-Shows (shown_byte byte) w p s in
    let (t', b') = write_str-Shows bytes w1 (type_byte w.attr (shown_byte byte) p) t in
    (
      subst
          (λ a.
            Shows (write_str bytes w1) (type_text a bytes (type_byte w.attr (shown_byte byte) p)))
          b.1 t',
      Beyond-trans w w1 (write_str bytes w1) b b',
    )

-- An empty sheet, with the cursor at its start.
abbrev pub sheet : ℕ → Paper
sheet attr = record { cell = λ l c k. half blank_byte attr k; top = 0; row = 0; col = 0 }

-- `clear` leaves an empty sheet, whatever was shown before, and no byte past the buffer changes.
pub clear-Shows : (w : Writer) → Shows (clear w) (sheet w.attr) × Beyond w (clear w)
unfolding clear
clear-Shows w = (
  record {
    same_row = refl;
    same_col = refl;
    row_in = omega arith;
    col_in = omega arith;
    cells = λ r c k hr hc hk.
        ground (arith, blank_rows_lem 25 w.attr w.memory ((r * 80 + c) * 2 + k), hr, hc, hk);
  },
  (λ a h. ground (arith, blank_rows_lem 25 w.attr w.memory a, h), refl),
)

-- After `clear`, any text: the console shows the last 25 lines of the sheet that it is typed on,
-- with the cursor inside them, and no byte past the buffer changes.
pub clear-write_str-Shows :
    (w : Writer) (bytes : List ℕ)
    → Shows (write_str bytes (clear w)) (type_text w.attr bytes (sheet w.attr))
      × Beyond w (write_str bytes (clear w))
unfolding clear
clear-write_str-Shows w bytes =
    let (t, b) = clear-Shows w in
    let (t', b') = write_str-Shows bytes (clear w) (sheet w.attr) t in
    (t', Beyond-trans w (clear w) (write_str bytes (clear w)) b b')
