-- ===== src/Fs/Mount.antt =====
-- `Fs::mount`, `mount_loose`, `mount_tier2` and `validate_dir` of src/fs.rs.
use ziran_os.Prelude.{
  ℕ, zero, suc, ◌+◌, ◌/◌, ◌%◌, Bool, true, false, ◌&&◌, List, [], ◌∷◌, ◌==◌, leb, if◌then◌else◌,
  same, length, max,
}
use ziran_os.Fs.Image.{
  bad_magic, unsupported_version, truncated, size_mismatch, entry_out_of_bounds,
  extent_escapes_data, bad_data_end, bad_dir_length, dir_not_forward, bad_kind, too_deep, Outcome,
  ok, err, ◌>>=◌, ◌>>◌, require, superblock_len, dirent_len, ent_offset, ent_length, ent_kind,
  kind_file, kind_dir, max_depth, slice, read_u16_le, read_u32_le, checked_add, checked_mul,
}

pub record Fs : Type 0 where
  pub image : List ℕ
  pub file_count : ℕ

-- ASCII `ZRFS`
abbrev pub magic : List ℕ
magic = b'Z' ∷ b'R' ∷ b'F' ∷ b'S' ∷ []

abbrev pub version : ℕ
version = 3

module _ (image : List ℕ) (ceiling : ℕ) where
  -- One round of the loop of `validate_dir`, at the entry `base`. `child` is the recursive call; the
  -- high-water mark goes in and comes out.
  unfoldable pub validate_entry : (ℕ → ℕ → ℕ → Outcome ℕ) → ℕ → ℕ → Outcome ℕ
  validate_entry child base high_water = do
    c_off ← read_u32_le image (base + ent_offset)
    c_len ← read_u32_le image (base + ent_length)
    c_end ← checked_add c_off c_len entry_out_of_bounds
    require (leb c_end (length image)) entry_out_of_bounds
    require (leb c_end ceiling) extent_escapes_data
    kind ← read_u32_le image (base + ent_kind)
    (if kind == kind_file
        then ok high_water
        else if kind == kind_dir
        then child c_off c_len high_water
        else err bad_kind)

  -- The loop over the `n` entries from `base` on.
  unfoldable pub validate_entries : (ℕ → ℕ → ℕ → Outcome ℕ) → ℕ → ℕ → ℕ → Outcome ℕ
  unfolding validate_entry
  validate_entries child zero base high_water = ok high_water
  validate_entries child (suc n) base high_water = do
    high_water' ← validate_entry child base high_water
    validate_entries child n (base + dirent_len) high_water'

  -- `left` is `MAX_DEPTH + 1 - depth`, so that no more levels are left exactly when
  -- `depth > MAX_DEPTH`.
  unfoldable pub validate_dir : ℕ → ℕ → ℕ → ℕ → Outcome ℕ
  unfolding validate_entries
  validate_dir zero off len high_water = err too_deep
  validate_dir (suc left) off len high_water = do
    require (leb high_water off) dir_not_forward
    require (len % dirent_len == 0) bad_dir_length
    end ← checked_add off len entry_out_of_bounds
    require (leb end (length image)) entry_out_of_bounds
    validate_entries (validate_dir left) (len / dirent_len) off (max high_water end)

-- What the superblock says.
pub record Superblock : Type 0 where
  pub file_count : ℕ
  pub dir_bytes : ℕ
  pub data_end : ℕ

-- The checks of `mount_inner` before the tree.
unfoldable pub check_superblock : List ℕ → Bool → Outcome Superblock
check_superblock image trust_declared_size = do
  require (leb superblock_len (length image)) truncated
  start ← slice image 0 4
  require (same start magic) bad_magic
  v ← read_u16_le image 0x04
  require (v == version) unsupported_version
  declared ← read_u32_le image 0x08
  require (if trust_declared_size then leb declared (length image) else declared == length image)
      size_mismatch
  data_end ← read_u32_le image 0x0c
  require (leb superblock_len data_end && leb data_end (length image)) bad_data_end
  file_count ← read_u16_le image 0x06
  dir_bytes ← checked_mul file_count dirent_len truncated
  dir_end ← checked_add superblock_len dir_bytes truncated
  require (leb dir_end (length image)) truncated
  ok (record { file_count = file_count; dir_bytes = dir_bytes; data_end = data_end })

unfoldable pub mount_inner : List ℕ → Bool → Bool → Outcome Fs
unfolding check_superblock validate_dir
mount_inner image confine trust_declared_size = do
  sb ← check_superblock image trust_declared_size
  let ceiling = if confine then sb.data_end else length image
  high_water ← validate_dir image ceiling (suc max_depth) superblock_len sb.dir_bytes superblock_len
  ok (record { image = image; file_count = sb.file_count })

unfoldable pub mount : List ℕ → Outcome Fs
unfolding mount_inner
mount image = mount_inner image true false

unfoldable pub mount_loose : List ℕ → Outcome Fs
unfolding mount_inner
mount_loose image = mount_inner image false false

unfoldable pub mount_tier2 : List ℕ → Outcome Fs
unfolding mount_inner
mount_tier2 image = mount_inner image false true
