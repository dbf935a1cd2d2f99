-- ===== src/Shell/Editing.antt =====
-- The line editor of src/shell.rs against a text that grows and shrinks at its end.
use ziran_os.Prelude.{
  ℕ, zero, suc, ◌-◌, ◌≤◌, ◌≡◌, refl, ap, ◌∙◌, ◌&&◌, List, [], ◌∷◌, ◌++◌, ◌==◌, ltb, leb,
  if◌then◌else◌, length, take, length-set, length-take, length-replicate, take-set, arith,
}
use ziran_os.Shell.Line.{Line, new, edit, line_max, text}

-- The text without its last character.
abbrev pub shorter : List ℕ → List ℕ
shorter [] = []
shorter (x ∷ []) = []
shorter (x ∷ y ∷ ys) = x ∷ shorter (y ∷ ys)

-- What a byte does to the text: a backspace takes a character off, a printable one is put on where
-- there is room, and all else leaves it.
abbrev pub typed : List ℕ → ℕ → List ℕ
typed t byte =
    if byte == 0x08
    then shorter t
    else if (leb 0x20 byte && leb byte 0x7e) && ltb (length t) line_max
    then t ++ byte ∷ []
    else t

abbrev pub typed_all : List ℕ → List ℕ → List ℕ
typed_all t [] = t
typed_all t (b ∷ bs) = typed_all (typed t b) bs

abbrev pub edit_all : Line → List ℕ → Line
edit_all l [] = l
edit_all l (b ∷ bs) = edit_all (edit l b).0 bs

shorter-take : (xs : List ℕ) (n : ℕ) → suc n ≤ length xs → shorter (take (suc n) xs) ≡ take n xs
shorter-take [] n h = absurd (omega arith)
shorter-take (x ∷ xs) zero h = refl
shorter-take (x ∷ []) (suc n) h = absurd (omega arith)
shorter-take (x ∷ y ∷ xs) (suc n) h = ap (◌∷◌ x) (shorter-take (y ∷ xs) n (omega arith))

pub record Fits (l : Line) : Type 0 where
  pub whole : length l.buf ≡ line_max
  pub within : l.len ≤ line_max

pub edit-Fits : (l : Line) (byte : ℕ) → Fits l → Fits (edit l byte).0
unfolding edit
edit-Fits l byte f = ground (arith, length-set l.buf l.len byte)

text-edit : (l : Line) (byte : ℕ) → Fits l → text (edit l byte).0 ≡ typed (text l) byte
unfolding edit
text-edit l byte f =
    ground
      (arith, length-take l.len l.buf, take-set l.buf l.len byte, shorter-take l.buf (l.len - 1))

text-edit_all : (l : Line) (bs : List ℕ) → Fits l → text (edit_all l bs) ≡ typed_all (text l) bs
text-edit_all l [] f = refl
text-edit_all l (b ∷ bs) f =
    text-edit_all (edit l b).0 bs (edit-Fits l b f) ∙ ap (λ t. typed_all t bs) (text-edit l b f)

pub new-Fits : Fits new
unfolding new
new-Fits = record { whole = length-replicate {A = ℕ} line_max 0; within = omega arith }

text-new : text new ≡ []
unfolding new
text-new = refl

-- Whatever bytes are typed into a new line, its text is what they spell on a text that grows at its
-- end: each backspace takes off the last character if there is one, each printable byte is added
-- while there are fewer than 128, and every other byte leaves the text.
pub text-edit_all-new : (bs : List ℕ) → text (edit_all new bs) ≡ typed_all [] bs
text-edit_all-new bs = text-edit_all new bs new-Fits ∙ ap (λ t. typed_all t bs) text-new
