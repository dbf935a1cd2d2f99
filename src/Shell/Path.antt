-- ===== src/Shell/Path.antt =====
-- `canonicalize` of src/shell.rs. Texts are their bytes.
use ziran_os.Prelude.{ℕ, Bool, false, List, [], ◌∷◌, ◌++◌, ◌==◌, ◌||◌, same, if◌then◌else◌}
use ziran_os.Fs.Resolve.{split_path}

-- `.` and `..`
abbrev pub here : List ℕ
here = b'.' ∷ []

abbrev pub up : List ℕ
up = b'.' ∷ b'.' ∷ []

-- `stack.pop()`
abbrev pub drop_last : List (List ℕ) → List (List ℕ)
drop_last [] = []
drop_last (x ∷ []) = []
drop_last (x ∷ y ∷ ys) = x ∷ drop_last (y ∷ ys)

-- One round of the loop, for one part of the path.
unfoldable pub walk_part : List (List ℕ) → List ℕ → List (List ℕ)
walk_part stack part =
    if same part [] || same part here
    then stack
    else if same part up
    then drop_last stack
    else stack ++ part ∷ []

unfoldable pub walk : List (List ℕ) → List (List ℕ) → List (List ℕ)
unfolding walk_part
walk stack [] = stack
walk stack (p ∷ ps) = walk (walk_part stack p) ps

-- `arg.starts_with('/')`
abbrev pub is_absolute : List ℕ → Bool
is_absolute [] = false
is_absolute (b ∷ bs) = b == b'/'

-- Each name behind a slash.
unfoldable pub spell : List (List ℕ) → List ℕ
spell [] = []
spell (n ∷ ns) = b'/' ∷ (n ++ spell ns)

unfoldable pub print_path : List (List ℕ) → List ℕ
unfolding spell
print_path [] = b'/' ∷ []
print_path (n ∷ ns) = spell (n ∷ ns)

unfoldable pub canonicalize : List ℕ → List ℕ → List ℕ
unfolding walk print_path split_path
canonicalize cwd arg =
    let base = if is_absolute arg then [] else cwd in
    print_path (walk [] (split_path [] base ++ split_path [] arg))
