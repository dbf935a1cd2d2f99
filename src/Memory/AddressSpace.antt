-- ===== src/Memory/AddressSpace.antt =====
-- `build_address_space` and `init` of src/paging.rs. `none` is a panic; the load of CR3 is the root
-- that comes back. PRESENT, WRITABLE and HUGE together are 131.
use ziran_os.Prelude.{
  ℕ, zero, suc, ◌+◌, ◌*◌, Option, none, some, Bool, true, false, ◌&&◌, ◌==◌, ltb, if◌then◌else◌,
}
use ziran_os.Memory.Frames.{alloc}
use ziran_os.Memory.Paging.{identity_limit, translate_from}
use ziran_os.Memory.Mapping.{Mmu, write_entry, zero_frame, flag_bits}

unfoldable pub alloc_table : Mmu → Option (ℕ × Mmu)
unfolding zero_frame
alloc_table s =
    let (frame, allocator) = alloc s.allocator in
    elim frame [
      | none ↦ none
      | some phys ↦
          if ltb phys identity_limit
          then some (phys, record { tables = zero_frame s.tables phys; allocator = allocator })
          else none
    ]

abbrev pub huge_stride : ℕ
huge_stride = 0x200000

abbrev pub huge_flags : ℕ
huge_flags = 131

-- The first rounds of the loop over the page directory.
unfoldable pub fill_pd : ℕ → ℕ → (ℕ → ℕ → ℕ) → ℕ → ℕ → ℕ
fill_pd pd zero tables = tables
fill_pd pd (suc i) tables = write_entry (fill_pd pd i tables) pd i (i * huge_stride + huge_flags)

unfoldable pub build_address_space : Mmu → Option (ℕ × Mmu)
unfolding alloc_table
build_address_space s = elim (alloc_table s) [
  | none ↦ none
  | some (pml4, s1) ↦ elim (alloc_table s1) [
    | none ↦ none
    | some (pdpt, s2) ↦ elim (alloc_table s2) [
      | none ↦ none
      | some (pd, s3) ↦ some (
        pml4,
        record s3 {
          tables =
              write_entry
                (write_entry (fill_pd pd 512 s3.tables) pdpt 0 (pd + flag_bits true false)) pml4 0
                (pdpt + flag_bits true false);
        },
      )
    ]
  ]
]

-- `assert_eq!(translate_from(pml4, virt), ...)`, where a walk that panics fails it too.
abbrev pub maps_to : Option (Option ℕ) → Option ℕ → Bool
maps_to (some (some phys)) (some expected) = phys == expected
maps_to (some none) none = true
maps_to _ _ = false

unfoldable pub paging_init : Mmu → Option (ℕ × Mmu)
unfolding build_address_space
paging_init s = elim (build_address_space s) [
  | none ↦ none
  | some (pml4, s') ↦
      let walk = translate_from s'.tables pml4 in
      if maps_to (walk 0xb8000) (some 0xb8000)
        && maps_to (walk 0x100000) (some 0x100000)
        && maps_to (walk 0x3ffff000) (some 0x3ffff000)
        && maps_to (walk 0x40000000) none
      then some (pml4, s')
      else none
]
