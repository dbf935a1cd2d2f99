-- ===== src/Heap/Tests.antt =====
-- The heap at concrete inputs.
use ziran_os.Prelude.{
  ℕ, ◌+◌, ◌-◌, ◌≤◌, ◌<◌, ◌≡◌, refl, Option, none, some, List, [], ◌∷◌, ◌==◌, if◌then◌else◌, All,
  arith,
}
use ziran_os.Heap.{
  Layout, heap_base, heap_size, node_size, null, new, init, align_up, alloc_from_region,
  add_free_region, find_region, rounds, size_align, align_to, pad_to_align, serve, give_tail, alloc,
  dealloc, stats, sum_free,
}
use ziran_os.Heap.Align.{reserved, wide}
use ziran_os.Heap.Owners.{Block, IsBlock, total}
use ziran_os.Heap.Chain.{first_fit}
use ziran_os.Heap.Find.{Finds, find_region-first_fit}
use ziran_os.Heap.Sound.{Sound}
use ziran_os.Heap.Run.{
  Grant, System, Request, allocate, release, store, blocks, granting, perform, run, boot,
}
use ziran_os.Heap.Consistent.{
  Consistent, Reasonable, Keeps, perform-Consistent, boot-run-Consistent,
}
use ziran_os.Heap.Reuse.{release-allocate}
use ziran_os.Heap.Stats.{stats-Sound, alloc-null}

abbrev blank : ℕ → ℕ
blank a = 0

-- 24 bytes on words, one byte, and 100 bytes on 64.
abbrev three_words : Layout
three_words = record { size = 24; align = 8 }

abbrev one_byte : Layout
one_byte = record { size = 1; align = 1 }

abbrev cache_line : Layout
cache_line = record { size = 100; align = 64 }

abbrev whole_heap : Layout
whole_heap = record { size = 0x100000; align = 8 }

abbrev session : List Request
session =
    allocate three_words
    ∷ allocate one_byte
    ∷ allocate cache_line
    ∷ store (heap_base + 24) 7
    ∷ release 2
    ∷ allocate whole_heap
    ∷ allocate one_byte
    ∷ []

-- Where the blocks in use are after the session: the block that
-- was given back would leave a sliver of 8 bytes, and is passed over for the last byte.
abbrev addresses : List Grant → List ℕ
addresses [] = []
addresses (g ∷ live) = g.0 ∷ addresses live

abbrev places : Option System → Option (List ℕ)
places none = none
places (some s) = some (addresses s.live)

abbrev ran : Option System → List Request → Option System
ran none rs = none
ran (some s) rs = run s rs

where_blocks_are :
    places (ran (boot blank) session)
    ≡ some ((heap_base + 192) ∷ (heap_base + 64) ∷ (heap_base + 24) ∷ [])
unfolding run perform granting boot new init alloc dealloc serve give_tail find_region rounds
    size_align align_to pad_to_align align_up alloc_from_region add_free_region
where_blocks_are = refl

reasonable : All Reasonable session
reasonable = (
  (3, omega arith, omega arith),
  (
    (0, omega arith, omega arith),
    (
      (6, omega arith, omega arith),
      (tt, (tt, ((3, omega arith, omega arith), ((0, omega arith, omega arith), tt)))),
    ),
  ),
)

boot-run-Consistent_example :
    (s0 : System) × (s : System) × (boot blank ≡ some s0) × (run s0 session ≡ some s) × Consistent s
boot-run-Consistent_example = boot-run-Consistent blank session reasonable

-- One block of 24 bytes in use, and the rest of the heap free.
abbrev one_block : System
one_block = record {
  heap = record {
    head = record { size = 0; next = some (heap_base + 24) };
    memory = λ a. if a == heap_base + 24 then heap_size - 24 else 0;
  };
  live = (heap_base, three_words) ∷ [];
}

abbrev rest : List Block
rest = (heap_base + 24, heap_size - 24) ∷ []

first-IsBlock : IsBlock (heap_base, 24)
first-IsBlock = record {
  low = omega arith;
  high = omega arith;
  on_word = omega arith;
  size_words = omega arith;
  holds_node = omega arith;
}

rest-IsBlock : IsBlock (heap_base + 24, heap_size - 24)
rest-IsBlock = record {
  low = omega arith;
  high = omega arith;
  on_word = omega arith;
  size_words = omega arith;
  holds_node = omega arith;
}

one_block-Sound : Sound one_block.heap rest (blocks one_block.live)
unfolding align_up
one_block-Sound = record {
  chain = (refl, refl, refl);
  free_blocks = (rest-IsBlock, tt);
  live_blocks = (first-IsBlock, tt);
  apart = λ a. ground arith;
}

one_block-Consistent : Consistent one_block
one_block-Consistent = record {
  regions = rest;
  sound = one_block-Sound;
  aligned = ((omega arith, (3, omega arith, omega arith)), tt);
}

perform-Consistent_example :
    (s : System) × (perform one_block (allocate cache_line) ≡ some s)
    × Consistent s
    × Keeps one_block (allocate cache_line) s
perform-Consistent_example =
    perform-Consistent one_block (allocate cache_line) one_block-Consistent
      (6, omega arith, omega arith)

release-allocate_example :
    (s1 : System) × (s2 : System) × (perform one_block (release 0) ≡ some s1)
    × (perform s1 (allocate three_words) ≡ some s2)
    × (s2.live ≡ (heap_base, three_words) ∷ [])
    × Consistent s2
release-allocate_example =
    release-allocate one_block 0 heap_base three_words one_block-Consistent refl

find_region-first_fit_example :
    Finds one_block.heap none rest
      (first_fit 128 64 rest)
      (find_region 2 one_block.heap none 128 64)
find_region-first_fit_example =
    find_region-first_fit 2 one_block.heap none rest 128 64 (omega arith) (refl, refl, refl)
      (rest-IsBlock, tt) (λ a. ground arith) tt

stats-Sound_example :
    (used : ℕ) × (free : ℕ) × (stats one_block.heap ≡ some (used, free))
    × (free ≡ total rest)
    × (used + free ≡ heap_size)
    × (total (blocks one_block.live) ≤ used)
stats-Sound_example = stats-Sound one_block.heap rest (blocks one_block.live) one_block-Sound

stats_one_block : stats one_block.heap ≡ some (24, heap_size - 24)
unfolding stats sum_free rounds
stats_one_block = refl

no_room : alloc one_block.heap whole_heap ≡ some (one_block.heap, null)
unfolding alloc serve find_region rounds size_align align_to pad_to_align align_up alloc_from_region
no_room = refl

alloc-null_example :
    (one_block.heap ≡ one_block.heap)
    × All (λ b. b.1 < reserved whole_heap + wide whole_heap + node_size) rest
alloc-null_example =
    alloc-null one_block.heap one_block.heap rest (blocks one_block.live) whole_heap one_block-Sound
      (3, omega arith, omega arith) no_room
