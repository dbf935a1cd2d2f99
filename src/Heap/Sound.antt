-- ===== src/Heap/Sound.antt =====
-- When the free list of src/heap.rs and the blocks in use are sound, and add_free_region.
use ziran_os.Prelude.{
  ℕ, ◌+◌, ◌≤◌, ◌≡◌, refl, subst, ap, ◌∙◌, sym, none, some, List, [], ◌∷◌, All, arith,
}
use ziran_os.Heap.{
  FreeListHeap, node_align, reference, word_of, add_free_region, write_node, set_next,
}
use ziran_os.Heap.Align.{align_up_self}
use ziran_os.Heap.Owners.{Block, IsBlock, owners, owners-node}
use ziran_os.Heap.Chain.{Chain, frame}

-- The list in memory is a list of free regions. They and the blocks in use are blocks of the heap,
-- and lie apart.
pub record Sound (h : FreeListHeap) (regions live : List Block) : Type 0 where
  pub chain : Chain h.memory h.head.next regions
  pub free_blocks : All IsBlock regions
  pub live_blocks : All IsBlock live
  pub apart : (a : ℕ) → owners a regions + owners a live ≤ 1

-- Only the words of one block may have changed.
abbrev pub SameBeyond : Block → FreeListHeap → FreeListHeap → Type 0
SameBeyond block h h' = (a : ℕ) → owners a (block ∷ []) ≡ 0 → h'.memory a ≡ h.memory a

-- The head of a list of blocks of the heap is no null pointer.
reference-head :
    (h : FreeListHeap) (regions : List Block)
    → Chain h.memory h.head.next regions
    → All IsBlock regions
    → reference (word_of h.head.next) ≡ h.head.next
reference-head h [] c all = rw c refl
reference-head h ((first, size) ∷ regions) (e, n, c) (b, all) = rw e (ground (arith, b.low))

abbrev listed : FreeListHeap → ℕ → ℕ → FreeListHeap
listed h addr size =
    set_next (write_node (set_next h none none) addr (record { size = size; next = h.head.next }))
      none (some addr)

module _ (h : FreeListHeap) (addr size : ℕ) (regions live : List Block) (b : IsBlock (addr, size))
    (s : Sound h regions live)
    (apart : (a : ℕ) → owners a ((addr, size) ∷ regions) + owners a live ≤ 1) where
  add_free_region-defined : add_free_region h addr size ≡ some (listed h addr size)
  unfolding add_free_region
  add_free_region-defined = ground (
    arith,
    align_up_self addr node_align (omega arith) (omega (arith, b.high, b.holds_node)) b.on_word,
    b.holds_node,
  )

  listed-kept : SameBeyond (addr, size) h (listed h addr size)
  listed-kept a z = ground (arith, z, owners-node addr size [] b)

  listed-Sound : Sound (listed h addr size) ((addr, size) ∷ regions) live
  listed-Sound =
      let (here, link) = owners-node addr size regions b in
      let written : (listed h addr size).memory (addr + 8) ≡ word_of h.head.next = ground arith in
      let back : reference ((listed h addr size).memory (addr + 8)) ≡ h.head.next =
        ap reference written ∙ reference-head h regions s.chain s.free_blocks in
      record {
        chain = (
          refl,
          ground arith,
          subst (λ q. Chain (listed h addr size).memory q regions) (sym back)
              (frame h.memory (listed h addr size).memory h.head.next regions s.chain s.free_blocks
                λ a n. ground (arith, n, here, link, apart addr, apart (addr + 8))),
        );
        free_blocks = (b, s.free_blocks);
        live_blocks = s.live_blocks;
        apart = apart;
      }

-- A block that is put into the list keeps the heap sound, comes first, and only its own words change.
pub add_free_region-Sound :
    (h : FreeListHeap) (addr size : ℕ) (regions live : List Block)
    → IsBlock (addr, size)
    → Sound h regions live
    → ((a : ℕ) → owners a ((addr, size) ∷ regions) + owners a live ≤ 1)
    → (h' : FreeListHeap) × (add_free_region h addr size ≡ some h')
      × Sound h' ((addr, size) ∷ regions) live
      × SameBeyond (addr, size) h h'
add_free_region-Sound h addr size regions live b s apart = (
  listed h addr size,
  add_free_region-defined h addr size regions live b s apart,
  listed-Sound h addr size regions live b s apart,
  listed-kept h addr size regions live b s apart,
)
