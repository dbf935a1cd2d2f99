-- ===== src/Memory/FrameSafe.antt =====
-- Which frames src/frame_allocator.rs hands out.
use ziran_os.Prelude.{
  ℕ, ◌+◌, ◌*◌, ◌/◌, ◌<◌, ◌≡◌, ◌≢◌, ◌⊎◌, inl, inr, subst, ap, sym, ◌∙◌, true, false, none, some,
  List, [], ◌∷◌, ◌==◌, leb, if◌then◌else◌, All, Bool-cases, arith,
}
use ziran_os.Memory.Frames.{
  frame_size, frame_count, FrameAllocator, decrement, is_used, set_free, alloc, free,
}
use ziran_os.Memory.FrameAlloc.{alloc-cases}
use ziran_os.Memory.FrameCount.{
  Demand, allocate, release, serve, serve_all, Counts, serve-Counts, after_take, after_give,
}

-- `alloc` gives nothing only where every frame is used, and then changes nothing. Otherwise it gives
-- the address of the lowest free frame, below 4 GiB, and after it just that frame is used in
-- addition to those that were.
pub alloc-Lowest :
    (a : FrameAllocator)
    → Counts a
    → ((alloc a ≡ (none, a)) × ((i : ℕ) → i < frame_count → is_used a i ≡ true))
      ⊎ ((i : ℕ) × ((alloc a).0 ≡ some (i * frame_size))
          × (i < frame_count)
          × (is_used a i ≡ false)
          × ((j : ℕ) → j < i → is_used a j ≡ true)
          × ((j : ℕ) → is_used (alloc a).1 j ≡ (if i == j then true else is_used a j)))
alloc-Lowest a c = elim (alloc-cases a c.valid) [
  | inl (q, all) ↦ inl (q, all)
  | inr (i, q, h, free_one, below) ↦ inr (
    i,
    ap (λ r. r.0) q,
    h,
    free_one,
    below,
    λ j. ap (λ r. is_used r.1 j) q ∙ after_take a c i h (decrement a.free_frames) j,
  )
]

-- A request that does not give a frame back.
abbrev pub Spares : ℕ → Demand → Type 0
Spares i allocate = Unit {0}
Spares i (release frame) = frame / frame_size ≢ i

free-used :
    (a : FrameAllocator) (i frame : ℕ)
    → Counts a
    → frame / frame_size ≢ i
    → is_used a i ≡ true
    → is_used (free a frame).1 i ≡ true
unfolding free set_free
free-used a i frame c s u =
    let index = frame / frame_size in
    elim (Bool-cases (leb frame_count index)) [
      | inl k ↦ rw (k, free) u
      | inr k ↦ elim (Bool-cases (is_used a index)) [
        | inr v ↦ rw (k, v, free) u
        | inl v ↦
            let after = after_give a c index (ground (arith, k)) (a.free_frames + 1) i in
            rw (k, v, free) (after ∙ ground (arith, s, u))
      ]
    ]

serve-used :
    (a : FrameAllocator) (i : ℕ) (r : Demand)
    → Counts a
    → Spares i r
    → is_used a i ≡ true
    → is_used (serve a r) i ≡ true
serve-used a i allocate c s u = elim (alloc-Lowest a c) [
  | inl (q, all) ↦ subst (λ r. is_used r.1 i ≡ true) (sym q) u
  | inr (j, q, h, f, b, after) ↦ after i ∙ ground (arith, u)
]
serve-used a i (release frame) c s u = free-used a i frame c s u

serve_all-used :
    (a : FrameAllocator) (i : ℕ) (rs : List Demand)
    → Counts a
    → All (Spares i) rs
    → is_used a i ≡ true
    → Counts (serve_all a rs) × (is_used (serve_all a rs) i ≡ true)
serve_all-used a i [] c s u = (c, u)
serve_all-used a i (r ∷ rs) c (s, ss) u =
    serve_all-used (serve a r) i rs (serve-Counts a r c) ss (serve-used a i r c s u)

-- A frame that `alloc` gives was free, and is used from then on.
alloc-gives :
    (a : FrameAllocator) (f : ℕ)
    → Counts a
    → (alloc a).0 ≡ some f
    → (is_used a (f / frame_size) ≡ false) × (is_used (alloc a).1 (f / frame_size) ≡ true)
alloc-gives a f c e = elim (alloc-Lowest a c) [
  | inl (q, all) ↦ absurd (ground (arith, ap (λ r. r.0) q, e))
  | inr (i, q, h, free_one, below, after) ↦
      let number : f ≡ i * frame_size = ground (arith, q, e) in
      let same_frame : f / frame_size ≡ i = omega (arith, number) in
      (
        ap (is_used a) same_frame ∙ free_one,
        ap (is_used (alloc a).1) same_frame ∙ after i ∙ ground arith,
      )
]

-- A frame that `alloc` gave is not given again before it is freed, whatever is asked in between.
pub alloc-once :
    (a : FrameAllocator) (f : ℕ) (rs : List Demand)
    → Counts a
    → (alloc a).0 ≡ some f
    → All (Spares (f / frame_size)) rs
    → (alloc (serve_all (alloc a).1 rs)).0 ≢ some f
alloc-once a f rs c e s again =
    let b = serve_all (alloc a).1 rs in
    let (c', u) =
      serve_all-used (alloc a).1 (f / frame_size) rs (serve-Counts a allocate c) s
        (alloc-gives a f c e).1 in
    ground (arith, u, (alloc-gives b f c' again).0)
