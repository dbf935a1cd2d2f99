-- ===== src/FwCfg.antt =====
-- The reader of named items in src/fw_cfg.rs. The device behind the two ports is QEMU's: what a
-- write to the selector and a read of the data port do to it is an argument. Bytes are numbers, and
-- a name is its bytes.
pub mod Device
pub mod Directory
pub mod Sample
mod Tests
use ziran_os.Prelude.Text.{codes}
use ziran_os.Prelude.{
  ℕ, zero, suc, ◌+◌, ◌*◌, Option, none, some, List, [], ◌∷◌, ◌==◌, if◌then◌else◌, min, same,
}

abbrev pub file_dir : ℕ
file_dir = 0x19

abbrev pub dir_name_len : ℕ
dir_name_len = 56

unfoldable pub max_entries : ℕ
max_entries = 4096

unfoldable pub max_item_bytes : ℕ
max_item_bytes = 65536

-- `outw(SELECTOR, sel)` and `inb(DATA)`.
pub record Ports (S : Type 0) : Type 0 where
  pub select : ℕ → S → S
  pub data_byte : S → ℕ × S

-- `raw.iter().position(|&c| c == 0)`, and the bytes before it.
unfoldable pub before_nul : List ℕ → List ℕ
before_nul [] = []
before_nul (c ∷ raw) = if c == 0 then [] else c ∷ before_nul raw

module _ {S : Type 0} (ports : Ports S) where
  unfoldable pub data_bytes : ℕ → S → List ℕ × S
  data_bytes zero s = ([], s)
  data_bytes (suc n) s =
      let (b, s1) = ports.data_byte s in let (bs, s2) = data_bytes n s1 in (b ∷ bs, s2)

  unfoldable pub be_u32 : S → ℕ × S
  be_u32 s =
      let (a, s1) = ports.data_byte s in
      let (b, s2) = ports.data_byte s1 in
      let (c, s3) = ports.data_byte s2 in
      let (d, s4) = ports.data_byte s3 in (a * 0x1000000 + b * 0x10000 + c * 0x100 + d, s4)

  unfoldable pub be_u16 : S → ℕ × S
  be_u16 s =
      let (a, s1) = ports.data_byte s in let (b, s2) = ports.data_byte s1 in (a * 0x100 + b, s2)

  -- The loop of `read_file` over so many entries of the directory.
  unfoldable pub read_entries : ℕ → List ℕ → S → Option (List ℕ) × S
  read_entries zero name s = (none, s)
  read_entries (suc n) name s =
      let (size, s1) = be_u32 s in
      let (sel, s2) = be_u16 s1 in
      let (reserved, s3) = be_u16 s2 in
      let (raw, s4) = data_bytes dir_name_len s3 in
      let rest = read_entries n name s4 in
      let found = data_bytes (min size max_item_bytes) (ports.select sel s4) in
      if same (before_nul raw) name then (some found.0, found.1) else rest

  unfoldable pub read_file : List ℕ → S → Option (List ℕ) × S
  read_file name s =
      let (count, s1) = be_u32 (ports.select file_dir s) in
      read_entries (min count max_entries) name s1

  -- `read_file("opt/flag")`
  unfoldable pub read_flag : S → Option (List ℕ) × S
  unfolding read_file
  read_flag = read_file (codes "opt/flag")
