-- ===== src/Heap/Reclaim.antt =====
-- What src/heap.rs does with a block that is given back: it is there for the next request.
use ziran_os.Prelude.{ℕ, ◌%◌, ◌≡◌, refl, subst, none, some, List, ◌∷◌, All, arith}
use ziran_os.Heap.{
  FreeListHeap, Layout, align_up, alloc_from_region, find_region, rounds, give_tail, serve, alloc,
  dealloc,
}
use ziran_os.Heap.Align.{align_up_self, Servable, reserved, wide, reserved-Rounded, size_align_lem}
use ziran_os.Heap.Owners.{Block, IsBlock, Apart, owners}
use ziran_os.Heap.Chain.{first_fit}
use ziran_os.Heap.Find.{Finds, find_region-first_fit}
use ziran_os.Heap.Sound.{Sound, SameBeyond, add_free_region-Sound}
use ziran_os.Heap.Choose.{length-lt-rounds}

-- The blocks in use are these and one more.
pub record With (block : Block) (live' live : List Block) : Type 0 where
  pub block_lem : All IsBlock live → IsBlock block × All IsBlock live'
  pub owners_lem : (a : ℕ) → owners a live ≡ owners a (block ∷ live')

-- A block that is given back is the first of the free list, and only its own words change.
pub dealloc_lem :
    (h : FreeListHeap) (regions live live' : List Block) (l : Layout) (p : ℕ)
    → Servable l
    → Sound h regions live
    → With (p, reserved l) live' live
    → (h' : FreeListHeap) × (dealloc h p l ≡ some h')
      × Sound h' ((p, reserved l) ∷ regions) live'
      × SameBeyond (p, reserved l) h h'
unfolding dealloc
dealloc_lem h regions live live' l p v s w =
    let (b, blocks) = w.block_lem s.live_blocks in
    let rest : Sound h regions live' = record {
      chain = s.chain;
      free_blocks = s.free_blocks;
      live_blocks = blocks;
      apart = λ a. ground (arith, s.apart a, w.owners_lem a);
    } in
    rw (size_align_lem l v, dealloc)
      (add_free_region-Sound h p (reserved l) regions live' b rest
        (λ a. ground (arith, s.apart a, w.owners_lem a)))

-- A block that is the first of the free list is granted to the next request of its own layout.
first_fit-exact :
    (l : Layout) (p : ℕ) (regions : List Block)
    → Servable l
    → IsBlock (p, reserved l)
    → p % wide l ≡ 0
    → first_fit (reserved l) (wide l) ((p, reserved l) ∷ regions)
      ≡ some (((p, reserved l), p), regions)
unfolding first_fit alloc_from_region
first_fit-exact l p regions v b whole =
    let r = reserved-Rounded l v in
    let start : align_up p (wide l) ≡ p =
      align_up_self p (wide l) (omega (arith, r.align_lem, r.some_eighths))
        (omega (arith, b.high, b.holds_node, r.align_limit)) whole in
    let fits : alloc_from_region p (reserved l) (reserved l) (wide l) ≡ some p =
      rw (start, alloc_from_region) (ground (arith, b.high)) in
    rw (fits, first_fit) refl

-- A region that the request fills is granted whole.
give_all : (h : FreeListHeap) (p size : ℕ) → h.memory p ≡ size → give_tail h p p size ≡ some (h, p)
unfolding give_tail
give_all h p size e = rw (e, give_tail) (ground arith)

-- A block that comes first in the free list is granted to a request of its own layout.
pub realloc_lem :
    (h : FreeListHeap) (regions live : List Block) (l : Layout) (p : ℕ)
    → Servable l
    → Sound h ((p, reserved l) ∷ regions) live
    → p % wide l ≡ 0
    → (h' : FreeListHeap) × (alloc h l ≡ some (h', p)) × Sound h' regions ((p, reserved l) ∷ live)
unfolding alloc serve
realloc_lem h regions live l p v s whole =
    let (b, blocks) = s.free_blocks in
    let apart : Apart ((p, reserved l) ∷ regions) = λ a. omega (arith, s.apart a) in
    let (h1, e, u) =
      subst
        (λ c.
          Finds h none ((p, reserved l) ∷ regions) c
            (find_region rounds h none (reserved l) (wide l)))
        (first_fit-exact l p regions v b whole)
        (find_region-first_fit rounds h none ((p, reserved l) ∷ regions) (reserved l) (wide l)
          (length-lt-rounds ((p, reserved l) ∷ regions) s.free_blocks apart) s.chain s.free_blocks
          apart tt) in
    (
      h1,
      rw (size_align_lem l v, alloc) (rw (e, serve) (give_all h1 p (reserved l) u.size_kept)),
      record {
        chain = u.chain;
        free_blocks = blocks;
        live_blocks = (b, s.live_blocks);
        apart = λ a. ground (arith, s.apart a);
      },
    )
