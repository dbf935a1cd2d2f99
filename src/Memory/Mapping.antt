-- ===== src/Memory/Mapping.antt =====
-- `map_inner` and `unmap_page` of src/paging.rs, on the tables and the frame allocator. `writable` says whether the
-- flags are WRITABLE, the only ones that its callers give, or none. A `|` with bits that are not set
-- is a sum.
use ziran_os.Prelude.{
  ℕ, zero, suc, ◌+◌, ◌*◌, ◌/◌, Bool, true, false, not, ◌&&◌, none, some, ◌==◌, ltb, leb,
  if◌then◌else◌,
}
use ziran_os.Memory.Frames.{FrameAllocator, alloc}
use ziran_os.Memory.Paging.{
  page_size, identity_limit, present, user, huge, address, table_index, read_entry,
}

pub record Mmu : Type 0 where
  pub tables : ℕ → ℕ → ℕ
  pub allocator : FrameAllocator

pub data MapError : Type 0 where
  out_of_frames huge_page : MapError

-- What one level comes to: the next table, an error, or a panic.
pub data Level : Type 0 where
  next : ℕ → Mmu → Level
  no_level : MapError → Mmu → Level
  wild : Level

pub data Mapped : Type 0 where
  mapped : Mmu → Mapped
  failed : MapError → Mmu → Mapped
  stopped : Mapped

-- `write_entry`, and `zero_frame`.
unfoldable pub write_entry : (ℕ → ℕ → ℕ) → ℕ → ℕ → ℕ → ℕ → ℕ → ℕ
write_entry tables table index entry t i =
    if t == table then (if i == index then entry else tables t i) else tables t i

unfoldable pub zero_frame : (ℕ → ℕ → ℕ) → ℕ → ℕ → ℕ → ℕ
zero_frame tables frame t i = if t == frame then 0 else tables t i

-- PRESENT, WRITABLE and USER together.
abbrev pub flag_bits : Bool → Bool → ℕ
flag_bits writable user_too = 1 + ((if writable then 2 else 0) + (if user_too then 4 else 0))

module _ (virt : ℕ) (user_too : Bool) where
  -- An entry that is there.
  unfoldable pub follow : ℕ → ℕ → ℕ → Mmu → Level
  unfolding write_entry
  follow level table entry s =
      if leb level 2 && huge entry
      then no_level huge_page s
      else if user_too && not (user entry)
      then next (address entry)
          (record s { tables = write_entry s.tables table (table_index virt level) (entry + 4) })
      else next (address entry) s

  -- A table that is missing: `alloc_table`, and the link to it.
  unfoldable pub link_new : ℕ → ℕ → Mmu → Level
  link_new level table s =
      let (frame, allocator) = alloc s.allocator in
      elim frame [
        | none ↦ no_level out_of_frames (record s { allocator = allocator })
        | some f ↦
            if ltb f identity_limit
            then next f (record {
              tables =
                  write_entry (zero_frame s.tables f) table (table_index virt level)
                    (f + flag_bits true user_too);
              allocator = allocator;
            })
            else wild
      ]

  -- One round of the loop.
  unfoldable pub one_level : ℕ → ℕ → Mmu → Level
  one_level level table s = elim (read_entry s.tables table (table_index virt level)) [
    | none ↦ wild
    | some entry ↦ if present entry then follow level table entry s else link_new level table s
  ]

  -- The rounds from a level down, and the leaf.
  unfoldable pub map_level : Bool → ℕ → ℕ → ℕ → Mmu → Mapped
  map_level writable phys zero table s =
      if ltb table identity_limit
      then mapped (record s {
        tables =
            write_entry s.tables table (table_index virt 0)
              (phys / page_size * page_size + flag_bits writable user_too);
      })
      else stopped
  map_level writable phys (suc l) table s = elim (one_level (suc l) table s) [
    | next t s' ↦ map_level writable phys l t s'
    | no_level e s' ↦ failed e s'
    | wild ↦ stopped
  ]

-- `map_inner`; only the page of `virt` matters to the indices.
unfoldable pub map_inner : ℕ → ℕ → ℕ → Bool → Bool → Mmu → Mapped
map_inner root virt phys writable user_too s =
    map_level (virt / page_size * page_size) user_too writable phys 3 root s

unfoldable pub map_page : ℕ → ℕ → ℕ → Bool → Mmu → Mapped
map_page root virt phys writable s = map_inner root virt phys writable false s

-- The assertion wants an address above the identity map.
unfoldable pub map_user_page : ℕ → ℕ → ℕ → Bool → Mmu → Mapped
map_user_page root virt phys writable s =
    if leb identity_limit virt then map_inner root virt phys writable true s else stopped

-- The answer of `unmap_page` with the tables afterwards, or a panic.
pub data Unmapped : Type 0 where
  answered : Bool → (ℕ → ℕ → ℕ) → Unmapped
  out_of_window : Unmapped

unfoldable pub unmap_level : ℕ → ℕ → ℕ → (ℕ → ℕ → ℕ) → Unmapped
unmap_level virt zero table tables = elim (read_entry tables table (table_index virt 0)) [
  | none ↦ out_of_window
  | some entry ↦
      if present entry
      then answered true (write_entry tables table (table_index virt 0) 0)
      else answered false tables
]
unmap_level virt (suc l) table tables = elim (read_entry tables table (table_index virt (suc l))) [
  | none ↦ out_of_window
  | some entry ↦ elim (present entry && not (huge entry)) [
    | false ↦ answered false tables
    | true ↦ unmap_level virt l (address entry) tables
  ]
]

unfoldable pub unmap_page : ℕ → ℕ → (ℕ → ℕ → ℕ) → Unmapped
unmap_page root virt tables = unmap_level (virt / page_size * page_size) 3 root tables
