-- ===== src/Shell/Commands.antt =====
-- The commands of src/shell.rs and its main loop, byte by byte. `decode` is
-- `String::from_utf8_lossy`.
use ziran_os.Prelude.{
  ℕ, ◌&&◌, ◌||◌, Bool, true, false, Option, none, List, [], ◌∷◌, ◌++◌, ◌==◌, leb, same,
  if◌then◌else◌, length,
}
use ziran_os.Fs.Image.{FsError, is_a_directory, ok, err, panic}
use ziran_os.Fs.Mount.{Fs}
use ziran_os.Fs.Resolve.{file, dir, DirEntry, resolve, list_dir, read_path}
use ziran_os.Prelude.Text.{codes}
use ziran_os.Shell.Path.{canonicalize}
use ziran_os.Shell.Line.{Line, new, edit, echo, erase, submit, ignored, text, clear}
use ziran_os.Shell.Base64.{is_nil}
use ziran_os.Shell.Disk.{Loaded, active_image, mount_active, b64_cap, finish_load}

pub data Command : Type 0 where
  empty help clear_screen mem ps pwd load net : Command
  echo_text cd ls cat unknown : List ℕ → Command

-- White space among the bytes of a line, which are ASCII.
abbrev pub is_space : ℕ → Bool
is_space b = (leb 9 b && leb b 13) || (b == 32)

unfoldable pub trim_start : List ℕ → List ℕ
trim_start [] = []
trim_start (b ∷ bs) = if is_space b then trim_start bs else b ∷ bs

unfoldable pub trim_end : List ℕ → List ℕ
trim_end [] = []
trim_end (b ∷ bs) = let rest = trim_end bs in if is_nil rest && is_space b then [] else b ∷ rest

-- The bytes before the first white space, and those after it: `split_once`, with nothing after it
-- where there is none.
unfoldable pub split_word : List ℕ → List ℕ × List ℕ
split_word [] = ([], [])
split_word (b ∷ bs) =
    let (word, rest) = split_word bs in if is_space b then ([], bs) else (b ∷ word, rest)

-- `rest.split_whitespace().next().unwrap_or("")`
abbrev pub first_word : List ℕ → List ℕ
first_word rest = (split_word (trim_start rest)).0

unfoldable pub command_of : List ℕ → List ℕ → Command
unfolding trim_start split_word
command_of verb rest =
    if same verb (codes "help")
    then help
    else if same verb (codes "echo")
    then echo_text rest
    else if same verb (codes "clear")
    then clear_screen
    else if same verb (codes "mem")
    then mem
    else if same verb (codes "ps")
    then ps
    else if same verb (codes "pwd")
    then pwd
    else if same verb (codes "cd")
    then cd (first_word rest)
    else if same verb (codes "ls")
    then ls (first_word rest)
    else if same verb (codes "cat")
    then cat (first_word rest)
    else if same verb (codes "load")
    then load
    else if same verb (codes "net")
    then net
    else unknown verb

unfoldable pub parse : List ℕ → Command
unfolding trim_start trim_end split_word command_of
parse line =
    let trimmed = trim_end (trim_start line) in
    if is_nil trimmed
    then empty
    else (let (verb, rest) = split_word trimmed in command_of verb (trim_start rest))

-- What a command prints. `report` stands for the texts of help, clear, mem, ps and net.
pub data Output : Type 0 where
  report : Command → Output
  line_of content : List ℕ → Output
  cannot_mount : FsError → Output
  cd_not_directory cd_missing ls_missing cat_directory cat_missing unknown_verb : List ℕ → Output
  listing : List DirEntry → Output
  cat_usage load_prompt panicked : Output
  load_done : Loaded → Output

-- The shell between two bytes. While `load` runs, `payload` is what it has stored.
pub data Mode : Type 0 where
  editing : Mode
  loading : (payload : List ℕ) (overflowed : Bool) → Mode

pub record Shell : Type 0 where
  pub cwd : List ℕ
  pub disk : Option (List ℕ)  -- LOADED
  pub line : Line
  pub mode : Mode

unfoldable pub start : Shell
unfolding new
start = record { cwd = b'/' ∷ []; disk = none; line = new; mode = editing }

-- The line ends of terminals, and DEL.
abbrev pub normalize : ℕ → ℕ
normalize raw = if raw == 0x0d then 0x0a else if raw == 0x7f then 0x08 else raw

-- White space of ASCII: space, tab, LF, FF and CR.
abbrev pub is_layout : ℕ → Bool
is_layout b = (b == 32) || (b == 9) || (b == 10) || (b == 12) || (b == 13)

module _ (decode : List ℕ → List ℕ) (flag : Option (List ℕ)) where
  unfoldable pub cd_to : Fs → List ℕ → List ℕ → List ℕ × List Output
  cd_to fs cwd target = elim (resolve decode fs target) [
    | ok (dir offset size) ↦ (target, [])
    | ok (file offset size) ↦ (cwd, cd_not_directory target ∷ [])
    | err e ↦ (cwd, cd_missing target ∷ [])
    | panic ↦ (cwd, panicked ∷ [])
  ]

  unfoldable pub cmd_cd : Option (List ℕ) → List ℕ → List ℕ → List ℕ × List Output
  unfolding cd_to canonicalize active_image mount_active
  cmd_cd disk cwd arg =
      if is_nil arg then (b'/' ∷ [], []) else elim (mount_active flag (active_image disk)) [
        | ok fs ↦ cd_to fs cwd (canonicalize cwd arg)
        | err e ↦ (cwd, cannot_mount e ∷ [])
        | panic ↦ (cwd, panicked ∷ [])
      ]

  unfoldable pub ls_in : Fs → List ℕ → List Output
  ls_in fs target = elim (list_dir decode fs target) [
    | ok entries ↦ listing entries ∷ []
    | err e ↦ ls_missing target ∷ []
    | panic ↦ panicked ∷ []
  ]

  unfoldable pub cmd_ls : Option (List ℕ) → List ℕ → List ℕ → List Output
  unfolding ls_in canonicalize active_image mount_active
  cmd_ls disk cwd arg = elim (mount_active flag (active_image disk)) [
    | ok fs ↦ ls_in fs (if is_nil arg then cwd else canonicalize cwd arg)
    | err e ↦ cannot_mount e ∷ []
    | panic ↦ panicked ∷ []
  ]

  unfoldable pub cat_in : Fs → List ℕ → List Output
  cat_in fs target = elim (read_path decode fs target) [
    | ok bytes ↦ content (decode bytes) ∷ []
    | err is_a_directory ↦ cat_directory target ∷ []
    | err _ ↦ cat_missing target ∷ []
    | panic ↦ panicked ∷ []
  ]

  unfoldable pub cmd_cat : Option (List ℕ) → List ℕ → List ℕ → List Output
  unfolding cat_in canonicalize active_image mount_active
  cmd_cat disk cwd arg =
      if is_nil arg then cat_usage ∷ [] else elim (mount_active flag (active_image disk)) [
        | ok fs ↦ cat_in fs (canonicalize cwd arg)
        | err e ↦ cannot_mount e ∷ []
        | panic ↦ panicked ∷ []
      ]

  unfoldable pub dispatch : Shell → Command → Shell × List Output
  dispatch s (cd p) = let (cwd', out) = cmd_cd s.disk s.cwd p in (record s { cwd = cwd' }, out)
  dispatch s (ls p) = (s, cmd_ls s.disk s.cwd p)
  dispatch s (cat p) = (s, cmd_cat s.disk s.cwd p)
  dispatch s load = (record s { mode = loading [] false }, load_prompt ∷ [])
  dispatch s pwd = (s, line_of s.cwd ∷ [])
  dispatch s (echo_text rest) = (s, line_of rest ∷ [])
  dispatch s (unknown verb) = (s, unknown_verb verb ∷ [])
  dispatch s empty = (s, [])
  dispatch s help = (s, report help ∷ [])
  dispatch s clear_screen = (s, report clear_screen ∷ [])
  dispatch s mem = (s, report mem ∷ [])
  dispatch s ps = (s, report ps ∷ [])
  dispatch s net = (s, report net ∷ [])

  -- A byte for the loop of `cmd_load`.
  unfoldable pub load_byte : Shell → List ℕ → Bool → ℕ → Shell × List Output
  load_byte s payload overflowed b =
      if b == b'.'
      then (let (disk', said) = finish_load flag s.disk payload overflowed in
          (record s { disk = disk'; mode = editing }, load_done said ∷ []))
      else if is_layout b
      then (s, [])
      else if leb b64_cap (length payload)
      then (record s { mode = loading payload true }, [])
      else (record s { mode = loading (payload ++ b ∷ []) overflowed }, [])

  -- A byte for the loop of `shell_main`. The echo of what is typed is left out. The line is cleared
  -- before the command runs, which has its own copy of the text.
  unfoldable pub edit_byte : Shell → ℕ → Shell × List Output
  edit_byte s raw =
      let (line', what) = edit s.line (normalize raw) in
      elim what [
        | submit ↦ dispatch (record s { line = clear line' }) (parse (text line'))
        | echo b ↦ (record s { line = line' }, [])
        | erase ↦ (record s { line = line' }, [])
        | ignored ↦ (record s { line = line' }, [])
      ]

  unfoldable pub shell_byte : Shell → ℕ → Shell × List Output
  shell_byte s b = elim s.mode [
    | editing ↦ edit_byte s b
    | loading payload overflowed ↦ load_byte s payload overflowed b
  ]

  -- All the bytes of a session, with all that is printed.
  unfoldable pub run : Shell → List ℕ → Shell × List Output
  run s [] = (s, [])
  run s (b ∷ bs) =
      let (s', now) = shell_byte s b in let (s'', later) = run s' bs in (s'', now ++ later)
