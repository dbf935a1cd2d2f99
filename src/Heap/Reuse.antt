-- ===== src/Heap/Reuse.antt =====
-- The heap of src/heap.rs reclaims: what is given back is granted again.
use ziran_os.Prelude.{ℕ, ◌≡◌, refl, some, false, ◌∷◌, ◌==◌, get_elem?, arith}
use ziran_os.Heap.{Layout, null}
use ziran_os.Heap.Reclaim.{dealloc_lem, realloc_lem}
use ziran_os.Heap.Run.{System, allocate, release, blocks, remove, granting, perform}
use ziran_os.Heap.Consistent.{Consistent, remove-With, remove-Aligned, get-Aligned}

-- On a consistent heap a block in use that is given back and asked for again, with its own layout,
-- is granted again at its address, and the heap is consistent again.
pub release-allocate :
    (s : System) (i p : ℕ) (l : Layout)
    → Consistent s
    → get_elem? s.live i ≡ some (p, l)
    → (s1 : System) × (s2 : System) × (perform s (release i) ≡ some s1)
      × (perform s1 (allocate l) ≡ some s2)
      × (s2.live ≡ (p, l) ∷ remove i s.live)
      × Consistent s2
unfolding perform granting
release-allocate s i p l c q =
    let (whole, v) = get-Aligned i s.live (p, l) q c.aligned in
    let (h1, e1, sound1, kept) =
      dealloc_lem s.heap c.regions (blocks s.live) (blocks (remove i s.live)) l p v c.sound
        (remove-With i s.live (p, l) q) in
    let (h2, e2, sound2) = realloc_lem h1 c.regions (blocks (remove i s.live)) l p v sound1 whole in
    let ne : (p == null) ≡ false = ground (arith, sound2.live_blocks.0.low) in
    (
      record { heap = h1; live = remove i s.live },
      record { heap = h2; live = (p, l) ∷ remove i s.live },
      rw (q, perform) (rw e1 refl),
      rw (e2, perform) (rw (ne, granting) refl),
      refl,
      record {
        regions = c.regions;
        sound = sound2;
        aligned = ((whole, v), remove-Aligned i s.live c.aligned);
      },
    )
