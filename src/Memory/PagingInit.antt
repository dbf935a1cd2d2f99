-- ===== src/Memory/PagingInit.antt =====
-- `init` of src/paging.rs finds its address space to be the identity map.
use ziran_os.Prelude.{ℕ, ◌^◌, ◌≤◌, ◌<◌, ◌≡◌, refl, ap, sym, ◌∙◌, none, some, [], ◌∷◌, lt→ltb, arith}
use ziran_os.Memory.Frames.{FrameAllocator, alloc}
use ziran_os.Memory.FrameCount.{Counts, allocate, serve-Counts}
use ziran_os.Memory.FrameSafe.{alloc-once}
use ziran_os.Memory.Paging.{identity_limit, translate_from}
use ziran_os.Memory.Mapping.{Mmu, zero_frame}
use ziran_os.Memory.MapSteps.{alloc-aligned}
use ziran_os.Memory.AddressSpace.{alloc_table, build_address_space, paging_init}
use ziran_os.Memory.IdentityMap.{Roots, built, identity, unmapped}

-- The frame allocator has these three frames to give, all in the identity map.
pub record Gives (a : FrameAllocator) (pml4 pdpt pd : ℕ) : Type 0 where
  pub first : (alloc a).0 ≡ some pml4
  pub second : (alloc (alloc a).1).0 ≡ some pdpt
  pub third : (alloc (alloc (alloc a).1).1).0 ≡ some pd
  pub first_near : pml4 < identity_limit
  pub second_near : pdpt < identity_limit
  pub third_near : pd < identity_limit

Gives-Roots :
    (a : FrameAllocator) (pml4 pdpt pd : ℕ) → Counts a → Gives a pml4 pdpt pd → Roots pml4 pdpt pd
Gives-Roots a pml4 pdpt pd c g =
    let c1 : Counts (alloc a).1 = serve-Counts a allocate c in
    record {
      pml4_near = g.first_near;
      pdpt_near = g.second_near;
      pd_near = g.third_near;
      pdpt_aligned = alloc-aligned (alloc a).1 pdpt g.second;
      pd_aligned = alloc-aligned (alloc (alloc a).1).1 pd g.third;
      pml4-ne-pdpt = λ e. alloc-once a pml4 [] c g.first tt (g.second ∙ ap some (sym e));
      pml4-ne-pd =
          λ e. alloc-once a pml4 (allocate ∷ []) c g.first (tt, tt) (g.third ∙ ap some (sym e));
      pdpt-ne-pd = λ e. alloc-once (alloc a).1 pdpt [] c1 g.second tt (g.third ∙ ap some (sym e));
    }

alloc_table-gives :
    (s : Mmu) (f : ℕ)
    → (alloc s.allocator).0 ≡ some f
    → f < identity_limit
    → alloc_table s
      ≡ some (f, record { tables = zero_frame s.tables f; allocator = (alloc s.allocator).1 })
unfolding alloc_table
alloc_table-gives s f e h = rw (e, alloc_table) (rw (lt→ltb f identity_limit h) refl)

-- With a frame allocator that counts right and has three frames below 1 GiB to give,
-- `build_address_space` comes back, the assertions of `init` hold, and in the address space that
-- `init` switches to, each address below 1 GiB is its own translation and no other of the lower
-- half is mapped.
pub paging_init-identity :
    (s : Mmu) (pml4 pdpt pd : ℕ)
    → Counts s.allocator
    → Gives s.allocator pml4 pdpt pd
    → (s' : Mmu) × (paging_init s ≡ some (pml4, s'))
      × ((w : ℕ) → w < identity_limit → translate_from s'.tables pml4 w ≡ some (some w))
      × ((w : ℕ) → identity_limit ≤ w → w < 2 ^ 47 → translate_from s'.tables pml4 w ≡ some none)
unfolding paging_init build_address_space
paging_init-identity s pml4 pdpt pd c g =
    let r = Gives-Roots s.allocator pml4 pdpt pd c g in
    let t = built s.tables pml4 pdpt pd in
    let one = alloc_table-gives s pml4 g.first g.first_near in
    let s1 : Mmu = record {
      tables = zero_frame s.tables pml4;
      allocator = (alloc s.allocator).1;
    } in
    let two = alloc_table-gives s1 pdpt g.second g.second_near in
    let s2 : Mmu = record {
      tables = zero_frame s1.tables pdpt;
      allocator = (alloc s1.allocator).1;
    } in
    let three = alloc_table-gives s2 pd g.third g.third_near in
    let low = identity s.tables pml4 pdpt pd r in
    let high = unmapped s.tables pml4 pdpt pd r in
    let vga = low 0xb8000 (omega arith) in
    let image = low 0x100000 (omega arith) in
    let top = low 0x3ffff000 (omega arith) in
    let beyond = high 0x40000000 (omega arith) (omega arith) in
    (
      record { tables = t; allocator = (alloc s2.allocator).1 },
      rw (one, paging_init) (rw two (rw three (rw (vga, image, top, beyond) refl))),
      low,
      high,
    )
