-- ===== src/Memory/Frames.antt =====
-- src/frame_allocator.rs: the bitmap of physical frames. A frame is given by its address. `index` is
-- below FRAME_COUNT wherever a bit is read or written.
use ziran_os.Prelude.{
  ℕ, zero, suc, ◌+◌, ◌-◌, ◌*◌, ◌/◌, ◌%◌, ◌^◌, Bool, not, Option, none, some, List, [], ◌∷◌, ◌==◌,
  ltb, leb, if◌then◌else◌, min, set, get_or, map,
}
use ziran_os.Memory.Bits.{bit, set_bit, clear_bit, trailing_ones}

abbrev pub frame_size : ℕ
frame_size = 4096

abbrev pub max_address : ℕ
max_address = 4294967296

abbrev pub frame_count : ℕ
frame_count = 1048576

abbrev pub bitmap_words : ℕ
bitmap_words = 16384

-- `u64::MAX`
abbrev pub full_word : ℕ
full_word = 2 ^ 64 - 1

pub record FrameAllocator : Type 0 where
  pub bitmap : List ℕ
  pub free_frames : ℕ

-- `MemoryRegion` of src/multiboot.rs.
pub record MemoryRegion : Type 0 where
  pub base : ℕ
  pub length : ℕ
  pub kind : ℕ

abbrev pub is_usable : MemoryRegion → Bool
is_usable r = r.kind == 1

abbrev pub region_end : MemoryRegion → ℕ
region_end r = min (r.base + r.length) full_word

-- `free_frames -= 1` on a `u64`
abbrev pub decrement : ℕ → ℕ
decrement zero = full_word
decrement (suc n) = n

unfoldable pub is_used : FrameAllocator → ℕ → Bool
is_used a index = bit (get_or a.bitmap (index / 64) 0) (index % 64)

unfoldable pub set_used : FrameAllocator → ℕ → FrameAllocator
set_used a index = record a {
  bitmap = set a.bitmap (index / 64) (set_bit (get_or a.bitmap (index / 64) 0) (index % 64));
}

unfoldable pub set_free : FrameAllocator → ℕ → FrameAllocator
set_free a index = record a {
  bitmap = set a.bitmap (index / 64) (clear_bit (get_or a.bitmap (index / 64) 0) (index % 64));
}

-- One round of the loop of `reserve`, and of the one of `init` that frees a region.
unfoldable pub reserve_frame : FrameAllocator → ℕ → FrameAllocator
reserve_frame a index =
    set_used (if is_used a index then a else record a { free_frames = decrement a.free_frames })
      index

unfoldable pub release_frame : FrameAllocator → ℕ → FrameAllocator
release_frame a index =
    if is_used a index then set_free (record a { free_frames = a.free_frames + 1 }) index else a

-- `for index in first..first + n`
unfoldable pub each_frame :
    (FrameAllocator → ℕ → FrameAllocator) → ℕ → ℕ → FrameAllocator → FrameAllocator
each_frame f zero first a = a
each_frame f (suc n) first a = each_frame f n (first + 1) (f a first)

unfoldable pub reserve : FrameAllocator → ℕ → ℕ → FrameAllocator
reserve a start end =
    if leb end start
    then a
    else (let first = start / frame_size in
        let last = (end + frame_size - 1) % 2 ^ 64 / frame_size in
        each_frame reserve_frame (min last frame_count - first) first a)

-- Phase 2 of `init`, for one region.
unfoldable pub add_region : FrameAllocator → MemoryRegion → FrameAllocator
add_region a r =
    if not (is_usable r)
    then a
    else if leb max_address r.base
    then a
    else (let first = (r.base + frame_size - 1) / frame_size in
        let last = min (region_end r) max_address / frame_size in
        if leb last first then a else each_frame release_frame (last - first) first a)

unfoldable pub add_regions : FrameAllocator → List MemoryRegion → FrameAllocator
add_regions a [] = a
add_regions a (r ∷ rs) = add_regions (add_region a r) rs

-- Phase 1: all is used.
unfoldable pub fill : FrameAllocator → FrameAllocator
fill a = record { bitmap = map (λ _. full_word) a.bitmap; free_frames = 0 }

-- Phase 3: frame 0, the kernel and the structure of Multiboot2.
unfoldable pub carve : FrameAllocator → ℕ → ℕ → ℕ → ℕ → FrameAllocator
carve a kernel_start kernel_end mb_start mb_end =
    reserve (reserve (reserve a 0 frame_size) kernel_start kernel_end) mb_start mb_end

-- `init`, from the memory map that Multiboot2 gave, if any. `none` is a panic.
unfoldable pub init :
    FrameAllocator → Option (List MemoryRegion) → ℕ → ℕ → ℕ → ℕ → Option FrameAllocator
init a none kernel_start kernel_end mb_start mb_end = none
init a (some memory_map) kernel_start kernel_end mb_start mb_end =
    let usable = add_regions (fill a) memory_map in
    if ltb 0 usable.free_frames
    then some (carve usable kernel_start kernel_end mb_start mb_end)
    else none

-- The loop of `alloc` over the words from `word_index` on.
unfoldable pub find_free : List ℕ → ℕ → Option ℕ
find_free [] word_index = none
find_free (word ∷ words) word_index =
    if not (word == full_word)
    then some (word_index * 64 + trailing_ones 64 word)
    else find_free words (word_index + 1)

unfoldable pub alloc : FrameAllocator → Option ℕ × FrameAllocator
alloc a = elim (find_free a.bitmap 0) [
  | none ↦ (none, a)
  | some index ↦ (
    some (index * frame_size),
    set_used (record a { free_frames = decrement a.free_frames }) index,
  )
]

-- What `free` warns of, if anything.
pub data Freed : Type 0 where
  freed out_of_range double_free : Freed

unfoldable pub free : FrameAllocator → ℕ → Freed × FrameAllocator
free a frame =
    let index = frame / frame_size in
    if leb frame_count index
    then (out_of_range, a)
    else if not (is_used a index)
    then (double_free, a)
    else (freed, (let b = set_free a index in record b { free_frames = b.free_frames + 1 }))
