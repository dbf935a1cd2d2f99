-- ===== src/Heap/Alloc.antt =====
-- alloc and dealloc of src/heap.rs on a sound heap.
use ziran_os.Prelude.{
  ℕ, ◌+◌, ◌-◌, ◌%◌, ◌≤◌, ◌≡◌, inl, inr, refl, ◌∙◌, Option, none, some, List, ◌∷◌, All, arith,
}
use ziran_os.Heap.{FreeListHeap, Layout, node_size, null, rounds, give_tail, serve, alloc}
use ziran_os.Heap.Align.{Servable, reserved, wide, reserved-Rounded, size_align_lem}
use ziran_os.Heap.Owners.{Block, IsBlock, Apart, owners}
use ziran_os.Heap.Find.{Unlinked, Finds, find_region-first_fit}
use ziran_os.Heap.Sound.{Sound, add_free_region-Sound}
use ziran_os.Heap.Choose.{IsRequest, Chosen, Unfit, Chooses, first_fit-Chooses, length-lt-rounds}

-- How `alloc` ends on a sound heap, for a request of so many bytes: without a block, because no
-- region serves it, and with the heap as it was; or with a block at an aligned address that is then
-- in use, where only free memory was written.
pub data Allocates (h : FreeListHeap) (regions live : List Block) (size align : ℕ)
    (h' : FreeListHeap) (p : ℕ) : Type 0 where
  out_of_memory :
      p ≡ null → h' ≡ h → All (Unfit size align) regions → Allocates h regions live size align h' p
  granted :
      (regions' : List Block)
      → Sound h' regions' ((p, size) ∷ live)
      → p % align ≡ 0
      → ((a : ℕ) → owners a regions ≡ 0 → h'.memory a ≡ h.memory a)
      → Allocates h regions live size align h' p

module _ (h : FreeListHeap) (regions live : List Block) (size align : ℕ) (s : Sound h regions live)
    (r : IsRequest size align) (first n start : ℕ) (others : List Block)
    (c : Chosen regions size align (first, n) start others) (h1 : FreeListHeap)
    (u : Unlinked h none regions first n others h1) where
  -- The region is out of the list; the block that is granted and the tail lie in it.
  abbrev tail : ℕ
  tail = first + n - (start + size)

  apart_cut :
      (a : ℕ)
      → start + size + tail ≤ first + n
      → owners a ((start + size, tail) ∷ others) + owners a ((start, size) ∷ live) ≤ 1
  apart_cut a h = ground (arith, c.kept a, s.apart a, c.fits.from_first)

  start-IsBlock : IsBlock (start, size)
  start-IsBlock = record {
    low = omega (arith, c.block.low, c.fits.from_first);
    high = omega (arith, c.block.high, c.fits.to_end);
    on_word = c.fits.start_word;
    size_words = r.1;
    holds_node = r.0;
  }

  unlinked-Sound : Sound h1 others ((start, size) ∷ live)
  unlinked-Sound = record {
    chain = u.chain;
    free_blocks = c.other_blocks;
    live_blocks = (start-IsBlock, s.live_blocks);
    apart = λ a. ground (arith, c.kept a, s.apart a, c.fits.from_first, c.fits.to_end);
  }

  tail-IsBlock : start + size + node_size ≤ first + n → IsBlock (start + size, tail)
  tail-IsBlock z = record {
    low = omega (arith, c.block.low, c.fits.from_first);
    high = omega (arith, c.block.high, z);
    on_word = omega (arith, c.fits.start_word, r.1);
    size_words = omega (arith, c.fits.start_word, r.1, c.block.on_word, c.block.size_words, z);
    holds_node = omega (arith, z);
  }

  give_tail-granted :
      (h' : FreeListHeap) × (give_tail h1 first start size ≡ some (h', start))
      × Allocates h regions live size align h' start
  unfolding give_tail
  give_tail-granted = elim c.fits.left [
    | inl z ↦ (
      h1,
      ground (arith, u.size_kept, z),
      granted others unlinked-Sound c.fits.aligned (λ a k. u.outside a k tt),
    )
    | inr z ↦
        let (h', e, sound, kept) =
          add_free_region-Sound h1 (start + size) tail others ((start, size) ∷ live)
            (tail-IsBlock z) unlinked-Sound (λ a. apart_cut a (omega (arith, z))) in
        (
          h',
          rw (u.size_kept, give_tail) (rw e (ground (arith, z))),
          granted ((start + size, tail) ∷ others) sound c.fits.aligned (λ a k.
              kept a (ground (arith, k, c.kept a, c.fits.from_first, z)) ∙ u.outside a k tt),
        )
  ]

serve-Allocates :
    (h : FreeListHeap) (regions live : List Block) (size align : ℕ)
    → Sound h regions live
    → IsRequest size align
    → (choice : Option ((Block × ℕ) × List Block)) (result : Option (FreeListHeap × Option (ℕ × ℕ)))
    → Chooses regions size align choice
    → Finds h none regions choice result
    → (h' : FreeListHeap) × (p : ℕ) × (serve result size ≡ some (h', p))
      × Allocates h regions live size align h' p
unfolding serve
serve-Allocates h regions live size align s r none result c e =
    (h, null, rw e refl, out_of_memory refl refl c)
serve-Allocates h regions live size align s r (some (((first, n), start), others)) result c
      (h1, e, u) =
    let (h', e', a) = give_tail-granted h regions live size align s r first n start others c h1 u in
    (h', start, rw e e', a)

Servable-IsRequest : (l : Layout) → Servable l → IsRequest (reserved l) (wide l)
Servable-IsRequest l v =
    let r = reserved-Rounded l v in
    (r.holds_node, r.size_words, r.align_limit, (r.eighths, r.some_eighths, r.align_lem))

-- On a sound heap `alloc` comes back for every request that Layout allows, with a block or without.
pub alloc_lem :
    (h : FreeListHeap) (regions live : List Block) (l : Layout)
    → Sound h regions live
    → Servable l
    → (h' : FreeListHeap) × (p : ℕ) × (alloc h l ≡ some (h', p))
      × Allocates h regions live (reserved l) (wide l) h' p
unfolding alloc
alloc_lem h regions live l s v =
    let apart : Apart regions = λ a. omega (arith, s.apart a) in
    let choice =
      first_fit-Chooses (reserved l) (wide l) regions s.free_blocks (Servable-IsRequest l v) in
    let found =
      find_region-first_fit rounds h none regions (reserved l) (wide l)
        (length-lt-rounds regions s.free_blocks apart) s.chain s.free_blocks apart tt in
    rw (size_align_lem l v, alloc)
      (serve-Allocates h regions live (reserved l) (wide l) s (Servable-IsRequest l v) _ _ choice
        found)
