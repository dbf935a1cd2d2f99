-- ===== src/FwCfg/Tests.antt =====
-- The reader of named items at a concrete device.
use ziran_os.Prelude.{ℕ, ◌≡◌, refl, none, some, List, [], ◌∷◌, All, ◌==◌, if◌then◌else◌, arith}
use ziran_os.Prelude.Text.{codes}
use ziran_os.FwCfg.{
  file_dir, max_entries, max_item_bytes, before_nul, data_bytes, be_u32, be_u16, read_entries,
  read_file, read_flag,
}
use ziran_os.FwCfg.Sample.{ports_of, ports_of-Documented}
use ziran_os.FwCfg.Directory.{
  Entry, IsEntry, print_entry, print_entries, print_dir, item_named, read_file-item_named,
}

abbrev two_entries : List Entry
two_entries =
    record { size = 3; sel = 0x20; name = codes "etc/e820" }
    ∷ record { size = 5; sel = 0x21; name = codes "opt/flag" }
    ∷ []

unfoldable two_items : ℕ → List ℕ
two_items sel =
    if sel == file_dir
    then print_dir two_entries
    else if sel == 0x20
    then 1 ∷ 2 ∷ 3 ∷ []
    else if sel == 0x21
    then codes "FLAG1"
    else []

two_entries-IsEntry : All (IsEntry two_items) two_entries
unfolding two_items
two_entries-IsEntry = (
  record {
    size_lem = refl;
    size_limit = omega arith;
    sel_limit = omega arith;
    name_limit = omega arith;
    no_nul = omega arith;
  },
  (
    record {
      size_lem = refl;
      size_limit = omega arith;
      sel_limit = omega arith;
      name_limit = omega arith;
      no_nul = omega arith;
    },
    tt,
  ),
)

read_file-item_named_example :
    (read_file (ports_of two_items) (codes "opt/flag") []).0
    ≡ item_named two_items (codes "opt/flag") two_entries
unfolding two_items max_entries
read_file-item_named_example =
    read_file-item_named (ports_of two_items) two_items two_entries (codes "opt/flag") []
      (ports_of-Documented two_items) refl (omega arith) two_entries-IsEntry

flag_read : (read_flag (ports_of two_items) []).0 ≡ some (codes "FLAG1")
unfolding two_items read_flag read_file read_entries be_u32 be_u16 data_bytes before_nul max_entries
    max_item_bytes print_dir print_entries print_entry
flag_read = refl

no_such_name : (read_file (ports_of two_items) (codes "opt/key") []).0 ≡ none
unfolding two_items read_file read_entries be_u32 be_u16 data_bytes before_nul max_entries
    max_item_bytes print_dir print_entries print_entry
no_such_name = refl
