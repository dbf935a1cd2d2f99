-- ===== src/Heap.antt =====
-- The kernel heap of src/heap.rs: a free list threaded through the free memory itself. Memory is a
-- function from the address of an aligned 8-byte word to the word; a ListNode at an address is the
-- two words there, its size and its next pointer, the null pointer for None. `none` is a panic, or
-- a walk of the list that is out of fuel. Locks and interrupt flags change nothing on one core.
pub mod Align
pub mod Owners
pub mod Chain
pub mod Find
pub mod Sound
pub mod Choose
pub mod Alloc
pub mod Reclaim
pub mod Run
pub mod Consistent
pub mod Reuse
pub mod Stats
mod Tests
use ziran_os.Prelude.{
  ℕ, zero, suc, ◌+◌, ◌-◌, ◌*◌, ◌/◌, ◌%◌, ◌^◌, max, Bool, true, false, Option, none, some, List, [],
  ◌∷◌, ◌==◌, ltb, leb, if◌then◌else◌, ◌&&◌,
}

abbrev pub heap_base : ℕ
heap_base = 0x40000000

abbrev pub heap_size : ℕ
heap_size = 0x100000

-- `size_of::<ListNode>()` and `align_of::<ListNode>()`: two machine words.
abbrev pub node_size : ℕ
node_size = 16

abbrev pub node_align : ℕ
node_align = 8

-- One more than the machine's largest word, and than the largest `isize`.
abbrev pub word_limit : ℕ
word_limit = 0x10000000000000000

abbrev pub isize_limit : ℕ
isize_limit = 0x8000000000000000

-- The null pointer.
abbrev pub null : ℕ
null = 0

abbrev pub reference : ℕ → Option ℕ
reference word = if word == null then none else some word

abbrev pub word_of : Option ℕ → ℕ
word_of none = null
word_of (some address) = address

pub record ListNode : Type 0 where
  pub size : ℕ
  pub next : Option ℕ

pub record FreeListHeap : Type 0 where
  pub head : ListNode
  pub memory : ℕ → ℕ

abbrev pub update : (ℕ → ℕ) → ℕ → ℕ → ℕ → ℕ
update memory address word asked = if asked == address then word else memory asked

-- `node_ptr.write(node)`.
abbrev pub write_node : FreeListHeap → ℕ → ListNode → FreeListHeap
write_node h address node = record h {
  memory = update (update h.memory address node.size) (address + 8) (word_of node.next);
}

-- The field `next` of the dummy head, `none`, or of the node at an address.
abbrev pub next_of : FreeListHeap → Option ℕ → Option ℕ
next_of h none = h.head.next
next_of h (some address) = reference (h.memory (address + 8))

abbrev pub set_next : FreeListHeap → Option ℕ → Option ℕ → FreeListHeap
set_next h none next = record h { head = record { size = h.head.size; next = next } }
set_next h (some address) next = record h { memory = update h.memory (address + 8) (word_of next) }

-- `FreeListHeap::new()`, over whatever the memory holds.
unfoldable pub new : (ℕ → ℕ) → FreeListHeap
new memory = record { head = record { size = 0; next = none }; memory = memory }

-- The alignment is a power of two, so `& !(align - 1)` rounds down to a multiple of it.
unfoldable pub align_up : ℕ → ℕ → ℕ
align_up addr align = (addr + align - 1) % word_limit / align * align

-- The debug assertion counts as one that is always there.
unfoldable pub add_free_region : FreeListHeap → ℕ → ℕ → Option FreeListHeap
add_free_region h addr size =
    if align_up addr node_align == addr && leb node_size size
    then some (
        set_next
          (write_node (set_next h none none) addr (record { size = size; next = h.head.next })) none
          (some addr))
    else none

unfoldable pub init : FreeListHeap → ℕ → ℕ → Option FreeListHeap
init h start size = add_free_region h start size

-- `none` is the `Err(())` of the source.
unfoldable pub alloc_from_region : ℕ → ℕ → ℕ → ℕ → Option ℕ
alloc_from_region region region_size size align =
    let alloc_start = align_up region align in
    let alloc_end = alloc_start + size in
    let region_end = region + region_size in
    let excess = region_end - alloc_end in
    if leb word_limit alloc_end
    then none
    else if ltb region_end alloc_end
    then none
    else if ltb 0 excess && ltb excess node_size
    then none
    else some alloc_start

-- `none` is a walk out of fuel; a region that is found comes unlinked, with the aligned start in it.
unfoldable pub find_region :
    ℕ → FreeListHeap → Option ℕ → ℕ → ℕ → Option (FreeListHeap × Option (ℕ × ℕ))
find_region zero h current size align = none
find_region (suc fuel) h current size align = elim (next_of h current) [
  | none ↦ some (h, none)
  | some region ↦ elim (alloc_from_region region (h.memory region) size align) [
    | some alloc_start ↦
        let next = next_of h (some region) in
        some (set_next (set_next h (some region) none) current next, some (region, alloc_start))
    | none ↦ find_region fuel h (some region) size align
  ]
]

-- Rounds of a walk: the regions lie apart in the heap, and none is smaller than a node.
unfoldable pub rounds : ℕ
rounds = 0x10001

-- `core::alloc::Layout`.
pub record Layout : Type 0 where
  pub size : ℕ
  pub align : ℕ

-- `layout.align_to(align)`, which fails where the padded size would pass `isize::MAX`, and
-- `layout.pad_to_align()`.
unfoldable pub align_to : Layout → ℕ → Option Layout
align_to l align =
    let greater = max l.align align in
    if leb (l.size + greater) isize_limit
    then some (record { size = l.size; align = greater })
    else none

unfoldable pub pad_to_align : Layout → Layout
unfolding align_up
pad_to_align l = record l { size = align_up l.size l.align }

unfoldable pub size_align : Layout → Option (ℕ × ℕ)
size_align layout = elim (align_to layout node_align) [
  | none ↦ none
  | some l ↦ let padded = pad_to_align l in some (max padded.size node_size, padded.align)
]

-- What follows the search: the tail of the region goes back to the free list.
unfoldable pub give_tail : FreeListHeap → ℕ → ℕ → ℕ → Option (FreeListHeap × ℕ)
give_tail h region alloc_start size =
    let alloc_end = alloc_start + size in
    let excess = region + h.memory region - alloc_end in
    if ltb 0 excess
    then elim (add_free_region h alloc_end excess) [
      | none ↦ none
      | some h' ↦ some (h', alloc_start)
    ]
    else some (h, alloc_start)

unfoldable pub serve : Option (FreeListHeap × Option (ℕ × ℕ)) → ℕ → Option (FreeListHeap × ℕ)
serve none size = none
serve (some (h, none)) size = some (h, null)
serve (some (h, some (region, alloc_start))) size = give_tail h region alloc_start size

-- The address of the block, null where no region fits.
unfoldable pub alloc : FreeListHeap → Layout → Option (FreeListHeap × ℕ)
alloc h layout = elim (size_align layout) [
  | none ↦ none
  | some (size, align) ↦ serve (find_region rounds h none size align) size
]

unfoldable pub dealloc : FreeListHeap → ℕ → Layout → Option FreeListHeap
dealloc h ptr layout = elim (size_align layout) [
  | none ↦ none
  | some (size, align) ↦ add_free_region h ptr size
]

-- The loop of `stats` over the list, and the bytes used and free.
unfoldable pub sum_free : ℕ → FreeListHeap → Option ℕ → ℕ → Option ℕ
sum_free zero h cur total = none
sum_free (suc fuel) h cur total = elim cur [
  | none ↦ some total
  | some node ↦ sum_free fuel h (next_of h (some node)) (total + h.memory node)
]

unfoldable pub stats : FreeListHeap → Option (ℕ × ℕ)
stats h = elim (sum_free rounds h h.head.next 0) [
  | none ↦ none
  | some free ↦ some (heap_size - free, free)
]
