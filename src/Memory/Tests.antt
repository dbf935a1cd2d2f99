-- ===== src/Memory/Tests.antt =====
-- Physical memory and the page tables at concrete inputs.
use ziran_os.Prelude.{
  ℕ, zero, suc, ◌+◌, ◌/◌, ◌%◌, ◌^◌, ◌≤◌, ◌<◌, ◌≡◌, ◌≢◌, refl, subst, sym, true, false, ◌&&◌, Option,
  none, some, List, [], ◌∷◌, ◌==◌, if◌then◌else◌, get_or, replicate, length-replicate, All, arith,
}
use ziran_os.Memory.Frames.{
  each_frame, release_frame, reserve_frame, set_used, set_free, find_free, frame_count,
  bitmap_words, FrameAllocator, MemoryRegion, is_used, init, alloc, add_regions, fill, carve,
  add_region, reserve,
}
use ziran_os.Memory.Bits.{bit, set_bit, clear_bit, trailing_ones}
use ziran_os.Memory.Counting.{count_free}
use ziran_os.Memory.FrameLaws.{Valid}
use ziran_os.Memory.FrameCount.{
  allocate, release, serve_all, Counts, init-Counts, init-serve_all-Counts,
}
use ziran_os.Memory.FrameSafe.{alloc-once}
use ziran_os.Memory.FrameInit.{InSome, Apart, init-InSome}
use ziran_os.Memory.Paging.{
  page_size, identity_limit, allowed, denied, user_range_ok, check_pages, page_user_accessible,
  user_level, translate_from, read_entry, table_index,
}
use ziran_os.Memory.AddressSpace.{paging_init}
use ziran_os.Memory.Unmap.{map_inner-unmap_page}
use ziran_os.Memory.PagingInit.{Gives, paging_init-identity}
use ziran_os.Memory.Mapping.{
  unmap_page, answered, Mmu, mapped, write_entry, map_inner, map_level, one_level, follow,
}
use ziran_os.Memory.MapTranslate.{Distinct, visited, map_inner-translate_from}
use ziran_os.Memory.UserRange.{Bytes, user_range_ok-Bytes}
use ziran_os.Memory.Syscall.{InterruptContext, LastWrite, syscall}
use ziran_os.Memory.Deputy.{Guarded, syscall-Guarded}
use ziran_os.Memory.Multiboot.{
  found, regions, memory_map, find_tag, new, read_u32, collect, read_u64,
}
use ziran_os.Memory.MapWalk.{Regions, regions-Regions}

unfoldable blank : FrameAllocator
blank = record { bitmap = replicate bitmap_words 0; free_frames = 0 }

All-replicate : (n : ℕ) → All (λ w. w < 2 ^ 64) (replicate n 0)
All-replicate zero = tt
All-replicate (suc n) = (omega arith, All-replicate n)

blank-Valid : Valid blank
unfolding blank
blank-Valid = record {
  size = length-replicate {A = ℕ} bitmap_words 0;
  words = All-replicate bitmap_words;
}

-- 16 frames from 64 KiB on, and a region that is not usable.
abbrev ram : List MemoryRegion
ram =
    record { base = 0x10000; length = 0x10000; kind = 1 }
    ∷ record { base = 0x20000; length = 0x10000; kind = 2 }
    ∷ []

unfoldable booted : FrameAllocator
booted = carve (add_regions (fill blank) ram) 0x10000 0x12000 0x1f000 0x1f100

boots : init blank (some ram) 0x10000 0x12000 0x1f000 0x1f100 ≡ some booted
unfolding init booted blank add_regions add_region each_frame release_frame is_used bit fill
    set_free clear_bit
boots = refl

booted-Counts : Counts booted
booted-Counts = init-Counts blank booted ram 0x10000 0x12000 0x1f000 0x1f100 blank-Valid boots

first_frame : (alloc booted).0 ≡ some 0x12000
unfolding booted blank add_regions add_region each_frame release_frame is_used bit fill set_free
    clear_bit carve reserve reserve_frame set_used set_bit alloc find_free trailing_ones
first_frame = refl

init-serve_all-Counts_example :
    (serve_all booted (allocate ∷ release 0x12000 ∷ release 0x12000 ∷ [])).free_frames
    ≡ count_free
        (is_used (serve_all booted (allocate ∷ release 0x12000 ∷ release 0x12000 ∷ [])))
        frame_count
init-serve_all-Counts_example =
    init-serve_all-Counts blank booted ram 0x10000 0x12000 0x1f000 0x1f100
      (allocate ∷ release 0x12000 ∷ release 0x12000 ∷ []) blank-Valid boots

alloc-once_example :
    (alloc (serve_all (alloc booted).1 (release 0x10000 ∷ allocate ∷ []))).0 ≢ some 0x12000
alloc-once_example =
    alloc-once booted 0x12000 (release 0x10000 ∷ allocate ∷ []) booted-Counts first_frame
      (omega arith, (tt, tt))

free_18 : is_used booted 18 ≡ false
unfolding booted blank add_regions add_region each_frame release_frame is_used bit fill set_free
    clear_bit carve reserve reserve_frame set_used set_bit
free_18 = refl

init-InSome_example : InSome ram 18 × (1 ≤ 18) × Apart 18 0x10000 0x12000 × Apart 18 0x1f000 0x1f100
init-InSome_example =
    init-InSome blank booted ram 0x10000 0x12000 0x1f000 0x1f100 blank-Valid (omega arith)
      (omega arith) (omega arith) (omega arith) boots 18 (omega arith) free_18

-- One page for the user at 1 GiB and 20 KiB, below a table at each level.
abbrev entries : ℕ → ℕ → ℕ
entries t i =
    if (t == 0x1000) && (i == 0)
    then 0x2007
    else if (t == 0x2000) && (i == 1)
    then 0x3007
    else if (t == 0x3000) && (i == 0)
    then 0x4007
    else if (t == 0x4000) && (i == 5)
    then 0x9007
    else if (t == 0x4000) && (i == 6)
    then 0xa003
    else 0

user_page : user_range_ok entries 0x1000 0x40005ff0 16 ≡ allowed
unfolding user_range_ok check_pages page_user_accessible user_level read_entry table_index
user_page = refl

kernel_page : user_range_ok entries 0x1000 0x40005ff0 17 ≡ denied
unfolding user_range_ok check_pages page_user_accessible user_level read_entry table_index
kernel_page = refl

user_range_ok-Bytes_example :
    Bytes entries 0x1000 0x40005ff0 17 (user_range_ok entries 0x1000 0x40005ff0 17)
user_range_ok-Bytes_example = user_range_ok-Bytes entries 0x1000 0x40005ff0 17

abbrev load : ℕ → Option ℕ
load addr = some (addr % 256)

abbrev call : InterruptContext
call = record { rax = 3; rdi = 0x40005ff0; rsi = 16 }

abbrev last_write : LastWrite
last_write = record { buf = replicate 256 0; len = 0 }

syscall-Guarded_example :
    Guarded load entries 0x1000 call last_write (syscall load entries 0x1000 call last_write)
syscall-Guarded_example =
    syscall-Guarded load entries 0x1000 (λ addr r e. ground (arith, e)) call last_write refl refl

-- A structure with a map of one region, at address 0.
abbrev boot_info : ℕ → ℕ
boot_info a =
    get_or
      (56 ∷ 0 ∷ 0 ∷ 0 ∷ 0 ∷ 0 ∷ 0 ∷ 0 ∷ 6 ∷ 0 ∷ 0 ∷ 0 ∷ 40 ∷ 0 ∷ 0 ∷ 0 ∷ 24 ∷ 0 ∷ 0 ∷ 0 ∷ 0 ∷ 0 ∷ 0
        ∷ 0 ∷ 0 ∷ 0 ∷ 1 ∷ 0 ∷ 0 ∷ 0 ∷ 0 ∷ 0 ∷ 0 ∷ 0 ∷ 1 ∷ 0 ∷ 0 ∷ 0 ∷ 0 ∷ 0 ∷ 1 ∷ 0 ∷ 0 ∷ 0 ∷ [])
      a 0

one_region :
    regions boot_info 0 ≡ found (record { base = 0x10000; length = 0x10000; kind = 1 } ∷ [])
unfolding regions memory_map find_tag new read_u32 collect read_u64
one_region = refl

regions-Regions_example : Regions boot_info (0 + 8) (0 + read_u32 boot_info 0) (regions boot_info 0)
regions-Regions_example = regions-Regions boot_info 0

-- The table of `entries` with the allocator above, and one more page for the user in it.
abbrev mmu : Mmu
mmu = record { tables = entries; allocator = booted }

abbrev after : Mmu
after = record { tables = write_entry entries 0x4000 7 0x9007; allocator = booted }

maps : map_inner 0x1000 0x40007000 0x9000 true true mmu ≡ mapped after
unfolding map_inner map_level one_level follow read_entry table_index
maps = refl

four_tables : visited 0x40007000 true 3 0x1000 mmu ≡ 0x1000 ∷ 0x2000 ∷ 0x3000 ∷ 0x4000 ∷ []
unfolding visited one_level follow read_entry table_index
four_tables = refl

four-Distinct : Distinct 0x40007000 true (visited 0x40007000 true 3 0x1000 mmu)
four-Distinct = subst (Distinct 0x40007000 true) (sym four_tables) (
  (omega arith, (omega arith, (omega arith, tt))),
  ((omega arith, (omega arith, tt)), ((omega arith, tt), (tt, tt))),
)

map_inner-translate_from_example :
    translate_from (write_entry entries 0x4000 7 0x9007) 0x1000 0x40007123 ≡ some (some 0x9123)
map_inner-translate_from_example =
    map_inner-translate_from 0x1000 0x40007000 0x9000 true true mmu after (omega arith) maps
      four-Distinct 0x40007123 (omega arith)

map_inner-unmap_page_example :
    (tables : ℕ → ℕ → ℕ) × (unmap_page 0x1000 0x40007000 after.tables ≡ answered true tables)
    × ((w : ℕ) → w / page_size ≡ 0x40007 → translate_from tables 0x1000 w ≡ some none)
    × ((u i : ℕ)
        → All (λ t. u ≢ t) (visited 0x40007000 true 3 0x1000 mmu)
        → tables u i ≡ after.tables u i)
unfolding table_index write_entry
map_inner-unmap_page_example =
    map_inner-unmap_page 0x1000 0x40007000 0x9000 true true mmu after (omega arith) maps
      four-Distinct refl

-- The next two frames after the first.
booted-Gives : Gives booted 0x12000 0x13000 0x14000
unfolding booted blank add_regions add_region each_frame release_frame is_used bit fill set_free
    clear_bit carve reserve reserve_frame set_used set_bit alloc find_free trailing_ones
booted-Gives = record {
  first = refl;
  second = refl;
  third = refl;
  first_near = omega arith;
  second_near = omega arith;
  third_near = omega arith;
}

abbrev before_paging : Mmu
before_paging = record { tables = λ t i. 0xdead; allocator = booted }

paging_init-identity_example :
    (s : Mmu) × (paging_init before_paging ≡ some (0x12000, s))
    × ((w : ℕ) → w < identity_limit → translate_from s.tables 0x12000 w ≡ some (some w))
    × ((w : ℕ) → identity_limit ≤ w → w < 2 ^ 47 → translate_from s.tables 0x12000 w ≡ some none)
paging_init-identity_example =
    paging_init-identity before_paging 0x12000 0x13000 0x14000 booted-Counts booted-Gives
