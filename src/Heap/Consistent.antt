-- ===== src/Heap/Consistent.antt =====
-- Every run of the heap of src/heap.rs is consistent, and takes no word from a block in use.
use ziran_os.Prelude.{
  ℕ, zero, suc, ◌%◌, ◌≡◌, ◌≢◌, inl, inr, refl, subst, ap, some, Option-cases, Bool-cases, List, [],
  ◌∷◌, All, false, ◌==◌, get_elem?, arith,
}
use ziran_os.Heap.{FreeListHeap, Layout, heap_base, heap_size, null, update, new, init}
use ziran_os.Heap.Align.{Servable, reserved, wide}
use ziran_os.Heap.Owners.{Block, IsBlock, owners}
use ziran_os.Heap.Chain.{frame}
use ziran_os.Heap.Sound.{Sound, add_free_region-Sound}
use ziran_os.Heap.Alloc.{Allocates, out_of_memory, granted, alloc_lem}
use ziran_os.Heap.Reclaim.{With, dealloc_lem}
use ziran_os.Heap.Run.{
  Grant, block_of, blocks, System, Request, allocate, release, store, remove, granting, perform,
  run, boot,
}

-- Every block in use is aligned as it was asked for.
abbrev pub Aligned : Grant → Type 0
Aligned g = (g.0 % wide g.1 ≡ 0) × Servable g.1

pub record Consistent (s : System) : Type 0 where
  pub regions : List Block
  pub sound : Sound s.heap regions (blocks s.live)
  pub aligned : All Aligned s.live

abbrev pub Reasonable : Request → Type 0
Reasonable (allocate l) = Servable l
Reasonable (release i) = Unit
Reasonable (store a word) = Unit

pub boot-Consistent : (memory : ℕ → ℕ) → (s : System) × (boot memory ≡ some s) × Consistent s
unfolding boot init new
boot-Consistent memory =
    let start : Sound (new memory) [] [] = record {
      chain = refl;
      free_blocks = tt;
      live_blocks = tt;
      apart = λ a. omega arith;
    } in
    let b : IsBlock (heap_base, heap_size) = record {
      low = omega arith;
      high = omega arith;
      on_word = omega arith;
      size_words = omega arith;
      holds_node = omega arith;
    } in
    let (h, e, sound, kept) =
      add_free_region-Sound (new memory) heap_base heap_size [] [] b start (λ a. ground arith) in
    (
      record { heap = h; live = [] },
      rw (e, boot) refl,
      record { regions = (heap_base, heap_size) ∷ []; sound = sound; aligned = tt },
    )

pub remove-With :
    (i : ℕ) (live : List Grant) (g : Grant)
    → get_elem? live i ≡ some g
    → With (block_of g) (blocks (remove i live)) (blocks live)
remove-With i [] g e = cc
remove-With zero (g' ∷ live) g e =
    let same : g' ≡ g = cc in
    subst (λ g. With (block_of g) (blocks live) (blocks (g' ∷ live))) same
      (record { block_lem = λ all. all; owners_lem = λ a. refl })
remove-With (suc i) (g' ∷ live) g e =
    let w = remove-With i live g e in
    record {
      block_lem = λ all. let (b, rest) = w.block_lem all.1 in (b, (all.0, rest));
      owners_lem = λ a. ground (arith, w.owners_lem a);
    }

pub remove-Aligned : (i : ℕ) (live : List Grant) → All Aligned live → All Aligned (remove i live)
remove-Aligned i [] all = tt
remove-Aligned zero (g ∷ live) (a, all) = all
remove-Aligned (suc i) (g ∷ live) (a, all) = (a, remove-Aligned i live all)

pub get-Aligned :
    (i : ℕ) (live : List Grant) (g : Grant)
    → get_elem? live i ≡ some g
    → All Aligned live
    → Aligned g
get-Aligned i [] g e all = cc
get-Aligned zero (g' ∷ live) g e (a, all) = let same : g' ≡ g = cc in subst Aligned same a
get-Aligned (suc i) (g' ∷ live) g e (a, all) = get-Aligned i live g e all

-- A request that is no store to this word.
abbrev pub NoStore : ℕ → Request → Type 0
NoStore a (store b word) = a ≢ b
NoStore a (allocate l) = Unit
NoStore a (release i) = Unit

-- The words that are in use before a request and after it keep what they hold, but for a store.
abbrev pub Keeps : System → Request → System → Type 0
Keeps s r s' =
    (a : ℕ)
    → owners a (blocks s.live) ≢ 0
    → owners a (blocks s'.live) ≢ 0
    → NoStore a r
    → s'.heap.memory a ≡ s.heap.memory a

granting-Consistent :
    (s : System) (regions : List Block) (l : Layout) (h' : FreeListHeap) (p : ℕ)
    → Sound s.heap regions (blocks s.live)
    → All Aligned s.live
    → Servable l
    → Allocates s.heap regions (blocks s.live) (reserved l) (wide l) h' p
    → Consistent (granting s.live l (h', p)) × Keeps s (allocate l) (granting s.live l (h', p))
unfolding granting
granting-Consistent s regions l h' p sound all v (out_of_memory z same unfit) =
    rw (z, granting)
      (
        record { regions = regions; sound = rw same sound; aligned = all },
        λ a _ _ _. ap (λ h. h.memory a) same,
      )
granting-Consistent s regions l h' p sound all v (granted regions' sound' whole kept) =
    let ne : (p == null) ≡ false = ground (arith, sound'.live_blocks.0.low) in
    rw (ne, granting)
      (
        record { regions = regions'; sound = sound'; aligned = ((whole, v), all) },
        λ a n _ _. kept a (omega (arith, n, sound.apart a)),
      )

-- On a consistent heap every request is done, with a layout that can be rounded to a node, leaves
-- the heap consistent, and changes no word of the blocks that stay in use, but for a store to it.
pub perform-Consistent :
    (s : System) (r : Request)
    → Consistent s
    → Reasonable r
    → (s' : System) × (perform s r ≡ some s') × Consistent s' × Keeps s r s'
unfolding perform
perform-Consistent s (allocate l) c v =
    let (h', p, e, a) = alloc_lem s.heap c.regions (blocks s.live) l c.sound v in
    let (c', keeps) = granting-Consistent s c.regions l h' p c.sound c.aligned v a in
    (granting s.live l (h', p), rw (e, perform) refl, c', keeps)
perform-Consistent s (release i) c v = elim (Option-cases (get_elem? s.live i)) [
  | inl q ↦ (s, rw (q, perform) refl, c, λ a _ _ _. refl)
  | inr ((p, l), q) ↦
      let (whole, servable) = get-Aligned i s.live (p, l) q c.aligned in
      let (h, e, sound, kept) =
        dealloc_lem s.heap c.regions (blocks s.live) (blocks (remove i s.live)) l p servable c.sound
          (remove-With i s.live (p, l) q) in
      (
        record { heap = h; live = remove i s.live },
        rw (q, perform) (rw e refl),
        record {
          regions = (p, reserved l) ∷ c.regions;
          sound = sound;
          aligned = remove-Aligned i s.live c.aligned;
        },
        λ a n n' _. kept a (
            let w = remove-With i s.live (p, l) q in
            ground (arith, w.owners_lem a, c.sound.apart a, n')),
      )
]
perform-Consistent s (store a word) c v = elim (Bool-cases (owners a (blocks s.live) == 0)) [
  | inl q ↦ (s, rw (q, perform) refl, c, λ b _ _ _. refl)
  | inr q ↦
      let h' : FreeListHeap = record s.heap { memory = update s.heap.memory a word } in
      (
        record s { heap = h' },
        rw (q, perform) refl,
        record {
          regions = c.regions;
          sound = record {
            chain =
                frame s.heap.memory h'.memory s.heap.head.next c.regions c.sound.chain
                  c.sound.free_blocks λ b n. ground (arith, c.sound.apart a, q, n);
            free_blocks = c.sound.free_blocks;
            live_blocks = c.sound.live_blocks;
            apart = c.sound.apart;
          };
          aligned = c.aligned;
        },
        λ b _ _ ne. ground (arith, ne),
      )
]

run-Consistent :
    (s : System) (rs : List Request)
    → Consistent s
    → All Reasonable rs
    → (s' : System) × (run s rs ≡ some s') × Consistent s'
unfolding run
run-Consistent s [] c all = (s, refl, c)
run-Consistent s (r ∷ rs) c (v, all) =
    let (s1, e, c1, keeps) = perform-Consistent s r c v in
    let (s', e', c') = run-Consistent s1 rs c1 all in (s', rw (e, run) e', c')

-- From the start on, on any memory, whatever is asked with a layout that can be rounded to a node,
-- given back by its layout and written to blocks in use: nothing panics, every walk ends, the free
-- list stays a list of free regions, they and the blocks in use lie apart in the heap, and every
-- block in use is aligned as it was asked for.
pub boot-run-Consistent :
    (memory : ℕ → ℕ) (rs : List Request)
    → All Reasonable rs
    → (s0 : System) × (s : System) × (boot memory ≡ some s0) × (run s0 rs ≡ some s) × Consistent s
boot-run-Consistent memory rs all =
    let (s0, e0, c0) = boot-Consistent memory in
    let (s, e, c) = run-Consistent s0 rs c0 all in (s0, s, e0, e, c)
