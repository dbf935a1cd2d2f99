-- ===== src/Heap/Stats.antt =====
-- What `stats` of src/heap.rs counts, and when `alloc` refuses.
use ziran_os.Prelude.{
  none, ℕ, zero, suc, ◌+◌, ◌-◌, ◌≤◌, ◌<◌, ◌≡◌, refl, ap, ◌∙◌, sym, Option, some, List, [], ◌∷◌,
  ◌++◌, All, All-append, count_if-append, length, arith,
}
use ziran_os.Heap.{
  size_align, align_to, isize_limit, FreeListHeap, Layout, heap_size, node_size, null,
  alloc_from_region, sum_free, stats, alloc, rounds, next_of,
}
use ziran_os.Heap.Align.{align_up_bounds, Servable, reserved, wide, reserved-Rounded}
use ziran_os.Heap.Owners.{Block, IsBlock, covers, total, total-le}
use ziran_os.Heap.Chain.{Chain}
use ziran_os.Heap.Choose.{Unfit, length-lt-rounds}
use ziran_os.Heap.Sound.{Sound}
use ziran_os.Heap.Alloc.{Allocates, out_of_memory, granted, alloc_lem}

sum_free-total :
    (fuel : ℕ) (h : FreeListHeap) (cur : Option ℕ) (regions : List Block) (sum : ℕ)
    → length regions < fuel
    → Chain h.memory cur regions
    → sum_free fuel h cur sum ≡ some (sum + total regions)
unfolding sum_free
sum_free-total zero h cur regions sum lt c = absurd (omega arith)
sum_free-total (suc fuel) h cur [] sum lt c = rw (c, sum_free) (ap some (omega arith))
sum_free-total (suc fuel) h cur ((first, n) ∷ regions) sum lt (e, s, c) =
    rw (e, sum_free)
      (sum_free-total fuel h (next_of h (some first)) regions (sum + h.memory first) (omega arith) c
        ∙ ap some (omega (arith, s)))

total-append : (xs ys : List Block) → total (xs ++ ys) ≡ total xs + total ys
total-append [] ys = omega arith
total-append ((first, n) ∷ xs) ys = omega (arith, total-append xs ys)

-- On a sound heap `stats` comes back with the bytes of the free regions and all others as used: the
-- two make up the heap, and the blocks in use are among those used.
pub stats-Sound :
    (h : FreeListHeap) (regions live : List Block)
    → Sound h regions live
    → (used : ℕ) × (free : ℕ) × (stats h ≡ some (used, free))
      × (free ≡ total regions)
      × (used + free ≡ heap_size)
      × (total live ≤ used)
unfolding stats
stats-Sound h regions live s =
    let sum =
      sum_free-total rounds h h.head.next regions 0
        (length-lt-rounds regions s.free_blocks (λ a. omega (arith, s.apart a))) s.chain in
    let all =
      total-le (regions ++ live) (All-append IsBlock regions live s.free_blocks s.live_blocks)
        λ a. omega (arith, s.apart a, count_if-append (covers a) regions live) in
    let zero_sum : 0 + total regions ≡ total regions = omega arith in
    (
      heap_size - total regions,
      total regions,
      rw (sum ∙ ap some zero_sum, stats) refl,
      refl,
      omega (arith, all, total-append regions live),
      omega (arith, all, total-append regions live),
    )

Unfit-lt :
    (size align : ℕ) (blocks : List Block)
    → 0 < align
    → align ≤ 0x8000000000000000
    → All IsBlock blocks
    → All (Unfit size align) blocks
    → All (λ b. b.1 < size + align + node_size) blocks
unfolding alloc_from_region
Unfit-lt size align [] pos limit all unfit = tt
Unfit-lt size align ((first, n) ∷ blocks) pos limit (b, all) (u, unfit) =
    let (above, below, whole) =
      align_up_bounds first align pos (omega (arith, b.high, b.holds_node, limit)) in
    (ground (arith, u, b.high, above, below), Unfit-lt size align blocks pos limit all unfit)

refused :
    (h h1 h' : FreeListHeap) (regions live : List Block) (l : Layout) (p : ℕ)
    → Servable l
    → All IsBlock regions
    → Allocates h regions live (reserved l) (wide l) h1 p
    → h1 ≡ h'
    → p ≡ null
    → (h' ≡ h) × All (λ b. b.1 < reserved l + wide l + node_size) regions
refused h h1 h' regions live l p v all (out_of_memory z same unfit) e n =
    let r = reserved-Rounded l v in
    (
      sym e ∙ same,
      Unfit-lt (reserved l) (wide l) regions (omega (arith, r.align_lem, r.some_eighths))
          r.align_limit all unfit,
    )
refused h h1 h' regions live l p v all (granted regions' sound whole kept) e n =
    absurd (omega (arith, sound.live_blocks.0.low, n))

-- Where `alloc` gives the null pointer, on a sound heap and for a layout that can be rounded to a
-- node, the heap is as before, and no free region has room for the request, its alignment and one
-- node.
pub alloc-null :
    (h h' : FreeListHeap) (regions live : List Block) (l : Layout)
    → Sound h regions live
    → Servable l
    → alloc h l ≡ some (h', null)
    → (h' ≡ h) × All (λ b. b.1 < reserved l + wide l + node_size) regions
alloc-null h h' regions live l s v e =
    let (h1, p, e1, a) = alloc_lem h regions live l s v in
    let same : ◌≡◌ {A = Option (FreeListHeap × ℕ)} (some (h1, p)) (some (h', null)) = sym e1 ∙ e in
    refused h h1 h' regions live l p v s.free_blocks a (cc) (cc)

-- A request whose size comes too close to `isize::MAX` to be rounded up to a node's alignment, which
-- Layout allows, makes `alloc` panic.
pub alloc-panics :
    (h : FreeListHeap) (l : Layout) → isize_limit < l.size + wide l → alloc h l ≡ none
unfolding alloc size_align align_to
alloc-panics h l k = ground (arith, k)
