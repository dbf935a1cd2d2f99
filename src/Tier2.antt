-- ===== src/Tier2.antt =====
-- The way of a flag from the bridge, ctf-server/bridge.mjs, over QEMU's fw_cfg, src/fw_cfg.rs and
-- `kernel_main` of src/lib.rs, to the image that `load` of src/shell.rs mounts.
pub mod Flag
mod Tests
use Prim.Native.Char.{Char, code}
use ziran_os.Prelude.{
  ℕ, Option, some, none, List, [], ◌∷◌, String, ◌≡◌, ◌≢◌, ◌≤◌, length, take, All,
}
use ziran_os.Prelude.Text.{concat, codes}
use ziran_os.FwCfg.{Ports, file_dir, max_entries, max_item_bytes, read_flag}
use ziran_os.FwCfg.Directory.{Entry, IsEntry, item_named, print_dir}

-- What `kernel_main` puts into TIER2_FLAG at boot.
unfoldable pub boot_flag : {S : Type 0} → Ports S → S → Option (List ℕ)
boot_flag ports s = (read_flag ports s).0

-- Two arguments that follow each other.
pub data Adjacent (a b : String) : List String → Type 0 where
  at_head : {rest : List String} → Adjacent a b (a ∷ b ∷ rest)
  later : {x : String} {rest : List String} → Adjacent a b rest → Adjacent a b (x ∷ rest)

-- What QEMU documents of its option -fw_cfg: the device publishes a directory, and in it, for a
-- value that has no comma, the value's bytes under the name.
pub record Launched (args : List String) (items : ℕ → List ℕ) : Type 0 where
  pub entries : List Entry
  pub directory : items file_dir ≡ print_dir entries
  pub few : length entries ≤ max_entries
  pub all_entries : All (IsEntry items) entries
  pub published :
      (value : String)
      → Adjacent "-fw_cfg" (concat "name=opt/flag,string=" value) args
      → All (λ c. c ≢ b',') (codes value)
      → length (codes value) ≤ max_item_bytes
      → item_named items (codes "opt/flag") entries ≡ some (codes value)
