-- ===== src/Shell/Line.antt =====
-- `Line` and `Edit` of src/shell.rs.
use ziran_os.Prelude.{ℕ, ◌+◌, ◌-◌, ◌&&◌, List, ◌==◌, ltb, leb, if◌then◌else◌, set, take, replicate}

abbrev pub line_max : ℕ
line_max = 128

pub record Line : Type 0 where
  pub buf : List ℕ
  pub len : ℕ

pub data Edit : Type 0 where
  echo : ℕ → Edit
  erase submit ignored : Edit

unfoldable pub new : Line
new = record { buf = replicate line_max 0; len = 0 }

unfoldable pub edit : Line → ℕ → Line × Edit
edit l byte =
    if byte == 0x0a
    then (l, submit)
    else if byte == 0x08
    then (if ltb 0 l.len then (record l { len = l.len - 1 }, erase) else (l, ignored))
    else if leb 0x20 byte && leb byte 0x7e
    then (if ltb l.len line_max
        then (record l { buf = set l.buf l.len byte; len = l.len + 1 }, echo byte)
        else (l, ignored))
    else (l, ignored)

-- `as_str`
abbrev pub text : Line → List ℕ
text l = take l.len l.buf

abbrev pub clear : Line → Line
clear l = record l { len = 0 }
