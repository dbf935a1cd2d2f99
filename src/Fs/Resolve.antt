-- ===== src/Fs/Resolve.antt =====
-- Path resolution, listing and reading of src/fs.rs. Texts are their UTF-8 bytes. `decode` is
-- `String::from_utf8_lossy`.
use ziran_os.Prelude.{
  ℕ, zero, suc, ◌+◌, ◌*◌, ◌/◌, Bool, true, false, Option, none, some, List, [], ◌∷◌, ◌++◌, ◌==◌,
  if◌then◌else◌, same,
}
use ziran_os.Fs.Image.{
  not_found, not_a_directory, is_a_directory, Outcome, ok, err, ◌>>=◌, superblock_len, dirent_len,
  name_len, ent_offset, ent_length, ent_kind, kind_dir, slice, read_u32_le,
}
use ziran_os.Fs.Mount.{Fs}

-- What a path resolves to, by offset and length.
pub data Node : Type 0 where
  file dir : ℕ → ℕ → Node

pub record DirEntry : Type 0 where
  pub name : List ℕ
  pub offset : ℕ
  pub length : ℕ
  pub is_dir : Bool

-- The bytes before the first NUL, or all.
unfoldable pub until_nul : List ℕ → List ℕ
until_nul [] = []
until_nul (b ∷ bs) = if b == 0 then [] else b ∷ until_nul bs

-- `abs.split('/')`: the parts between the slashes, empty ones too.
unfoldable pub split_path : List ℕ → List ℕ → List (List ℕ)
split_path part [] = part ∷ []
split_path part (b ∷ bs) = elim (b == b'/') [
  | true ↦ part ∷ split_path [] bs
  | false ↦ split_path (part ++ b ∷ []) bs
]

module _ (decode : List ℕ → List ℕ) (fs : Fs) where
  unfoldable pub entry_name : List ℕ → List ℕ
  unfolding until_nul
  entry_name raw = decode (until_nul raw)

  -- The node of the entry at `base`.
  unfoldable pub node_at : ℕ → Outcome (Option Node)
  node_at base = do
    offset ← read_u32_le fs.image (base + ent_offset)
    length ← read_u32_le fs.image (base + ent_length)
    kind ← read_u32_le fs.image (base + ent_kind)
    ok (some (if kind == kind_dir then dir offset length else file offset length))

  -- The loop of `find_child` over the `n` entries from `base` on.
  unfoldable pub find_child_from : ℕ → ℕ → List ℕ → Outcome (Option Node)
  unfolding entry_name node_at
  find_child_from zero base name = ok none
  find_child_from (suc n) base name = do
    raw ← slice fs.image base (base + name_len)
    elim (same (entry_name raw) name) [
      | true ↦ node_at base
      | false ↦ find_child_from n (base + dirent_len) name
    ]

  unfoldable pub find_child : ℕ → ℕ → List ℕ → Outcome (Option Node)
  unfolding find_child_from
  find_child doff dlen name = find_child_from (dlen / dirent_len) doff name

  -- One step of `resolve`, below a node that is a directory.
  unfoldable pub descend : Node → List ℕ → Outcome Node
  unfolding find_child
  descend (file offset length) comp = err not_a_directory
  descend (dir offset length) comp = do
    child ← find_child offset length comp
    elim child [ some node ↦ ok node | none ↦ err not_found ]

  unfoldable pub resolve_from : Node → List (List ℕ) → Outcome Node
  unfolding descend
  resolve_from node [] = ok node
  resolve_from node ([] ∷ comps) = resolve_from node comps
  resolve_from node ((b ∷ bs) ∷ comps) = do node' ← descend node (b ∷ bs); resolve_from node' comps

  abbrev pub root : Node
  root = dir superblock_len (fs.file_count * dirent_len)

  unfoldable pub resolve : List ℕ → Outcome Node
  unfolding resolve_from split_path
  resolve abs = resolve_from root (split_path [] abs)

  unfoldable pub entry_at : ℕ → Outcome DirEntry
  unfolding entry_name
  entry_at base = do
    raw ← slice fs.image base (base + name_len)
    offset ← read_u32_le fs.image (base + ent_offset)
    length ← read_u32_le fs.image (base + ent_length)
    kind ← read_u32_le fs.image (base + ent_kind)
    ok (record {
      name = entry_name raw;
      offset = offset;
      length = length;
      is_dir = kind == kind_dir;
    })

  unfoldable pub entries_from : ℕ → ℕ → Outcome (List DirEntry)
  unfolding entry_at
  entries_from zero base = ok []
  entries_from (suc n) base = do
    e ← entry_at base
    rest ← entries_from n (base + dirent_len)
    ok (e ∷ rest)

  unfoldable pub list_node : Node → Outcome (List DirEntry)
  unfolding entries_from
  list_node (file offset length) = err not_a_directory
  list_node (dir offset length) = entries_from (length / dirent_len) offset

  unfoldable pub list_dir : List ℕ → Outcome (List DirEntry)
  unfolding resolve list_node
  list_dir abs = do node ← resolve abs; list_node node

  unfoldable pub read_node : Node → Outcome (List ℕ)
  read_node (file offset length) = slice fs.image offset (offset + length)
  read_node (dir offset length) = err is_a_directory

  unfoldable pub read_path : List ℕ → Outcome (List ℕ)
  unfolding resolve read_node
  read_path abs = do node ← resolve abs; read_node node
