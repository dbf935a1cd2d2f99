-- ===== src/Memory/Paging.antt =====
-- The page walks of src/paging.rs. `entries` gives the entries of the page tables, by the address of
-- the table and the index, and `root` is CR3 without its flags. `none` is a panic.
use ziran_os.Prelude.{
  ℕ, zero, suc, ◌+◌, ◌-◌, ◌*◌, ◌/◌, ◌%◌, ◌^◌, Bool, true, false, ◌&&◌, Option, none, some, ◌==◌,
  ltb, leb, if◌then◌else◌,
}

abbrev pub page_size : ℕ
page_size = 4096

abbrev pub identity_limit : ℕ
identity_limit = 1073741824

abbrev pub user_addr_limit : ℕ
user_addr_limit = 140737488355328

-- The flags of an entry, and its address: bits 0, 2, 7 and 12 to 51.
abbrev pub present : ℕ → Bool
present entry = entry % 2 == 1

abbrev pub user : ℕ → Bool
user entry = entry / 4 % 2 == 1

abbrev pub huge : ℕ → Bool
huge entry = entry / 128 % 2 == 1

abbrev pub address : ℕ → ℕ
address entry = entry / 4096 % 2 ^ 40 * 4096

unfoldable pub table_index : ℕ → ℕ → ℕ
table_index virt level = virt / 2 ^ (12 + 9 * level) % 512

-- The assertion lets only the identity map through.
abbrev pub phys_to_virt : ℕ → Option ℕ
phys_to_virt phys = if ltb phys identity_limit then some phys else none

-- What the check of a range comes to. `unfinished` is a loop that runs out of fuel.
pub data RangeCheck : Type 0 where
  allowed denied halted unfinished : RangeCheck

module _ (entries : ℕ → ℕ → ℕ) where
  unfoldable pub read_entry : ℕ → ℕ → Option ℕ
  read_entry table index = elim (phys_to_virt table) [
    | none ↦ none
    | some t ↦ some (entries t index)
  ]

  -- `translate_from` from a level down. The inner `none` is a page that is not mapped.
  unfoldable pub translate_level : ℕ → ℕ → ℕ → Option (Option ℕ)
  translate_level zero table virt = elim (read_entry table (table_index virt 0)) [
    | none ↦ none
    | some entry ↦ some (if present entry then some (address entry + virt % 4096) else none)
  ]
  translate_level (suc l) table virt = elim (read_entry table (table_index virt (suc l))) [
    | none ↦ none
    | some entry ↦ elim (present entry) [
      | false ↦ some none
      | true ↦ elim (leb (suc l) 2 && huge entry) [
        | true ↦
            let size = 2 ^ (12 + 9 * suc l) in
            some (some (address entry / size * size + virt % size))
        | false ↦ translate_level l (address entry) virt
      ]
    ]
  ]

  unfoldable pub translate_from : ℕ → ℕ → Option (Option ℕ)
  translate_from pml4 virt = translate_level 3 pml4 virt

  -- `page_user_accessible` from a level down.
  unfoldable pub user_level : ℕ → ℕ → ℕ → Option Bool
  user_level zero table virt = elim (read_entry table (table_index virt 0)) [
    | none ↦ none
    | some entry ↦ some (present entry && user entry)
  ]
  user_level (suc l) table virt = elim (read_entry table (table_index virt (suc l))) [
    | none ↦ none
    | some entry ↦ elim (present entry && user entry) [
      | false ↦ some false
      | true ↦ elim (leb (suc l) 2 && huge entry) [
        | true ↦ some true
        | false ↦ user_level l (address entry) virt
      ]
    ]
  ]

  unfoldable pub page_user_accessible : ℕ → ℕ → Option Bool
  page_user_accessible root virt = user_level 3 root virt

  module _ (root : ℕ) where
    -- The loop of `user_range_ok`.
    unfoldable pub check_pages : ℕ → ℕ → ℕ → RangeCheck
    check_pages zero page last = unfinished
    check_pages (suc fuel) page last = elim (page_user_accessible root page) [
      | none ↦ halted
      | some false ↦ denied
      | some true ↦ elim (page == last) [
        | true ↦ allowed
        | false ↦ check_pages fuel (page + page_size) last
      ]
    ]

    -- A range has no more pages than bytes.
    unfoldable pub user_range_ok : ℕ → ℕ → RangeCheck
    user_range_ok uaddr len =
        if len == 0
        then allowed
        else if leb (2 ^ 64) (uaddr + len)
        then denied
        else if ltb user_addr_limit (uaddr + len)
        then denied
        else check_pages len (uaddr / page_size * page_size)
            ((uaddr + len - 1) / page_size * page_size)
