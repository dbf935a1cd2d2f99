-- ===== src/Fs/Writer.antt =====
-- The writer of src/fs.rs: `write_entry` and `boot_image`.
use ziran_os.Prelude.{
  ℕ, ◌+◌, ◌-◌, ◌*◌, ◌/◌, ◌%◌, ◌<◌, ◌≡◌, List, [], ◌∷◌, ◌++◌, length, take, replicate, min, arith,
}
use ziran_os.Prelude.Text.{codes}
use ziran_os.Fs.Image.{superblock_len, dirent_len, name_len, kind_file, kind_dir}
use ziran_os.Fs.Mount.{magic, version}

-- `to_le_bytes` of a `u16` and a `u32`; a number is first cut to the width, as `as u16` does.
abbrev pub u16_bytes : ℕ → List ℕ
u16_bytes n = (n % 256) ∷ (n / 256 % 256) ∷ []

abbrev pub u32_bytes : ℕ → List ℕ
u32_bytes n = (n % 256) ∷ (n / 256 % 256) ∷ (n / 65536 % 256) ∷ (n / 16777216 % 256) ∷ []

-- `namebuf`: the name's first bytes, and NULs up to the width of the field.
unfoldable pub name_field : List ℕ → List ℕ
name_field name = take name_len name ++ replicate (name_len - min (length name) name_len) 0

unfoldable pub write_entry : List ℕ → List ℕ → ℕ → ℕ → ℕ → List ℕ
unfolding name_field
write_entry img name offset length kind =
    img ++ (name_field name ++ (u32_bytes offset ++ (u32_bytes length ++ u32_bytes kind)))

-- A file of the boot image: its name and its bytes.
pub record Source : Type 0 where
  pub name : List ℕ
  pub bytes : List ℕ

abbrev pub root_files : List Source
root_files =
    record { name = codes "motd.txt"; bytes = codes "Hello, Ziran!" }
    ∷ record { name = codes "readme"; bytes = codes "Ziran OS -- a from-scratch x86_64 kernel.\n" }
    ∷ record {
      name = codes "ziran.txt";
      bytes =
          0xe8
          ∷ 0x87
          ∷ 0xaa
          ∷ 0xe7
          ∷ 0x84
          ∷ 0xb6
          ∷ codes " (ziran): that which arises without external forcing.\n";
    }
    ∷ []

abbrev pub docs_files : List Source
docs_files =
    record {
      name = codes "filesystem.txt";
      bytes = codes "A file is a lie a header tells about bytes.\n";
    }
    ∷ record {
      name = codes "shell.txt";
      bytes = codes "cd, pwd, ls, cat -- navigation over ZranFS v3.\n";
    }
    ∷ []

abbrev pub secret : List ℕ
secret = codes "FLAG{ziran-boundary-leak}"

-- The total length of some files.
unfoldable pub total_length : List Source → ℕ
total_length [] = 0
total_length (f ∷ fs) = length f.bytes + total_length fs

-- The loop that writes the entries of some files, the data of the first at `cursor`.
unfoldable pub write_files : List ℕ → ℕ → List Source → List ℕ
unfolding write_entry
write_files img cursor [] = img
write_files img cursor (f ∷ fs) =
    write_files (write_entry img f.name cursor (length f.bytes) kind_file) (cursor + length f.bytes)
      fs

unfoldable pub write_data : List ℕ → List Source → List ℕ
write_data img [] = img
write_data img (f ∷ fs) = write_data (img ++ f.bytes) fs

unfoldable pub superblock : ℕ → ℕ → ℕ → List ℕ
superblock count total data_end =
    magic ++ (u16_bytes version ++ (u16_bytes count ++ (u32_bytes total ++ u32_bytes data_end)))

unfoldable pub boot_image : List ℕ
unfolding total_length write_files write_data superblock
boot_image =
    let root_count = length root_files + 1 in
    let docs_count = length docs_files in
    let docs_table_off = superblock_len + root_count * dirent_len in
    let data_off = docs_table_off + docs_count * dirent_len in
    let data_end = data_off + (total_length root_files + total_length docs_files) in
    let total = data_end + length secret in
    let head = superblock root_count total data_end in
    let root_entries = write_files head data_off root_files in
    let root_table =
      write_entry root_entries (codes "docs") docs_table_off (docs_count * dirent_len) kind_dir in
    let tables = write_files root_table (data_off + total_length root_files) docs_files in
    write_data (write_data tables root_files) docs_files ++ secret

pub u32_at-bytes :
    (n : ℕ)
    → n < 4294967296
    → n % 256 + 256 * (n / 256 % 256) + 65536 * (n / 65536 % 256) + 16777216 * (n / 16777216 % 256)
      ≡ n
u32_at-bytes n h = omega arith
