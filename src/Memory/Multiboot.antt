-- ===== src/Memory/Multiboot.antt =====
-- src/multiboot.rs: the walk to the memory map and over its entries. `read` gives the byte at an
-- address. The structure lies in low memory, so that no address comes near 2^64.
use ziran_os.Prelude.{
  ℕ, zero, suc, ◌+◌, ◌*◌, ◌/◌, List, [], ◌∷◌, ◌==◌, ltb, leb, if◌then◌else◌, min,
}
use ziran_os.Memory.Frames.{MemoryRegion}

abbrev pub tag_type_memory_map : ℕ
tag_type_memory_map = 6

abbrev pub tag_type_end : ℕ
tag_type_end = 0

abbrev pub tag_header_size : ℕ
tag_header_size = 8

abbrev pub entry_record_size : ℕ
entry_record_size = 24

pub record BootInfo : Type 0 where
  pub addr : ℕ
  pub total_size : ℕ

pub record MemoryMapIter : Type 0 where
  pub next : ℕ
  pub end : ℕ
  pub entry_size : ℕ

-- What a walk comes to. `unfinished` is a walk that runs out of fuel.
pub data Walked {ℓ} (A : Type ℓ) : Type ℓ where
  found : A → Walked A
  missing unfinished : Walked A

module _ (read : ℕ → ℕ) where
  unfoldable pub read_u32 : ℕ → ℕ
  read_u32 a = read a + 256 * read (a + 1) + 65536 * read (a + 2) + 16777216 * read (a + 3)

  unfoldable pub read_u64 : ℕ → ℕ
  read_u64 a = read_u32 a + 4294967296 * read_u32 (a + 4)

  -- `BootInfo::new`
  unfoldable pub new : ℕ → BootInfo
  new addr = record { addr = addr; total_size = read_u32 addr }

  -- The loop of `memory_map`.
  unfoldable pub find_tag : ℕ → ℕ → ℕ → Walked MemoryMapIter
  find_tag zero tag_ptr end = unfinished
  find_tag (suc fuel) tag_ptr end =
      let size = read_u32 (tag_ptr + 4) in
      let entry_size = read_u32 (tag_ptr + 8) in
      let later = find_tag fuel (tag_ptr + (size + 7) / 8 * 8) end in
      if leb (tag_ptr + tag_header_size) end
      then (if ltb size tag_header_size
          then missing
          else if read_u32 tag_ptr == tag_type_end
          then missing
          else if read_u32 tag_ptr == tag_type_memory_map
          then (if ltb entry_size entry_record_size
              then missing
              else found (record {
                next = tag_ptr + 16;
                end = min (tag_ptr + size) end;
                entry_size = entry_size;
              }))
          else later)
      else missing

  -- Every round but the last moves on by 8 bytes at least.
  unfoldable pub memory_map : BootInfo → Walked MemoryMapIter
  memory_map b = find_tag (b.total_size + 1) (b.addr + 8) (b.addr + b.total_size)

  abbrev pub region_at : ℕ → MemoryRegion
  region_at a = record { base = read_u64 a; length = read_u64 (a + 8); kind = read_u32 (a + 16) }

  -- All that `next` yields, until it yields nothing.
  unfoldable pub collect : ℕ → MemoryMapIter → Walked (List MemoryRegion)
  collect zero it = unfinished
  collect (suc fuel) it =
      let rest = collect fuel (record it { next = it.next + it.entry_size }) in
      if ltb it.end (it.next + it.entry_size) then found [] else elim rest [
        | found rs ↦ found (region_at it.next ∷ rs)
        | missing ↦ missing
        | unfinished ↦ unfinished
      ]

  -- The regions that `init` of src/frame_allocator.rs goes through.
  unfoldable pub regions : ℕ → Walked (List MemoryRegion)
  regions addr = elim (memory_map (new addr)) [
    | found it ↦ collect ((new addr).total_size + 1) it
    | missing ↦ missing
    | unfinished ↦ unfinished
  ]
