-- ===== src/Memory/FrameCount.antt =====
-- The count of free frames that src/frame_allocator.rs keeps is right.
use ziran_os.Prelude.{
  ℕ, zero, suc, ◌+◌, ◌/◌, ◌%◌, ◌^◌, ◌<◌, ◌≡◌, subst, refl, ap, sym, ◌∙◌, inl, inr, true, false,
  some, List, [], ◌∷◌, ◌==◌, leb, if◌then◌else◌, map, get_or, length, All, Bool-cases, arith,
}
use ziran_os.Memory.Bits.{bit}
use ziran_os.Memory.FrameAlloc.{bit-full, alloc-cases}
use ziran_os.Memory.FrameLoops.{init-some, carve-keeps, add_regions-keeps}
use ziran_os.Memory.Frames.{
  alloc, fill, init, full_word, frame_size, frame_count, FrameAllocator, MemoryRegion, decrement,
  is_used, set_used, set_free, reserve_frame, release_frame, free,
}
use ziran_os.Memory.Counting.{
  count_free, count_free-take, count_free-again, count_free-full, count_free-give,
}
use ziran_os.Memory.FrameLaws.{
  Valid, set_used-Valid, set_free-Valid, is_used-set_used, is_used-set_free, is_used-count,
}

pub record Counts (a : FrameAllocator) : Type 0 where
  pub valid : Valid a
  pub counted : a.free_frames ≡ count_free (is_used a) frame_count

decrement-suc : (n m : ℕ) → n ≡ suc m → decrement n ≡ m
decrement-suc zero m e = absurd (omega arith)
decrement-suc (suc n) m e = omega arith

length-map : (words : List ℕ) → length (map (λ _. full_word) words) ≡ length words
length-map [] = refl
length-map (w ∷ ws) = ap suc (length-map ws)

get_or-map :
    (words : List ℕ) (i : ℕ)
    → i < length words
    → get_or (map (λ _. full_word) words) i 0 ≡ full_word
get_or-map [] i h = absurd (omega arith)
get_or-map (w ∷ ws) zero h = refl
get_or-map (w ∷ ws) (suc i) h = get_or-map ws i (omega arith)

small_words : (words : List ℕ) → All (λ w. w < 2 ^ 64) (map (λ _. full_word) words)
small_words [] = tt
small_words (w ∷ ws) = (omega arith, small_words ws)

module _ (a : FrameAllocator) (c : Counts a) (i : ℕ) (h : i < frame_count) where
  recount-Valid : (n : ℕ) → Valid (record a { free_frames = n })
  recount-Valid n = record { size = c.valid.size; words = c.valid.words }

  pub after_take :
      (n j : ℕ)
      → is_used (set_used (record a { free_frames = n }) i) j
        ≡ (if i == j then true else is_used a j)
  after_take n j =
      is_used-set_used (record a { free_frames = n }) (recount-Valid n) i h j
      ∙ ap (λ b. if i == j then true else b) (is_used-count a n j)

  pub after_give :
      (n j : ℕ)
      → is_used (set_free (record a { free_frames = n }) i) j
        ≡ (if i == j then false else is_used a j)
  after_give n j =
      is_used-set_free (record a { free_frames = n }) (recount-Valid n) i h j
      ∙ ap (λ b. if i == j then false else b) (is_used-count a n j)

  pub take-Counts :
      is_used a i ≡ false → Counts (set_used (record a { free_frames = decrement a.free_frames }) i)
  unfolding set_used
  take-Counts k = record {
    valid =
        set_used-Valid (record a { free_frames = decrement a.free_frames }) (recount-Valid _) i h;
    counted = decrement-suc a.free_frames _ (
        c.counted
        ∙ count_free-take (is_used a) _ i (after_take (decrement a.free_frames)) frame_count h k);
  }

  pub give-Counts :
      is_used a i ≡ true → Counts (set_free (record a { free_frames = a.free_frames + 1 }) i)
  unfolding set_free
  give-Counts k = record {
    valid = set_free-Valid (record a { free_frames = a.free_frames + 1 }) (recount-Valid _) i h;
    counted = omega (
      arith,
      c.counted,
      count_free-give (is_used a) _ i (after_give (a.free_frames + 1)) frame_count h k,
    );
  }

  again-Counts : is_used a i ≡ true → Counts (set_used a i)
  unfolding set_used
  again-Counts k = record {
    valid = set_used-Valid a c.valid i h;
    counted =
        c.counted
        ∙ sym (count_free-again (is_used a) _ i (is_used-set_used a c.valid i h) frame_count k);
  }

  pub reserve_frame-Counts : Counts (reserve_frame a i)
  unfolding reserve_frame
  reserve_frame-Counts = elim (Bool-cases (is_used a i)) [
    | inl k ↦ rw (k, reserve_frame) (again-Counts k)
    | inr k ↦ rw (k, reserve_frame) (take-Counts k)
  ]

  pub release_frame-Counts : Counts (release_frame a i)
  unfolding release_frame
  release_frame-Counts = elim (Bool-cases (is_used a i)) [
    | inl k ↦ rw (k, release_frame) (give-Counts k)
    | inr k ↦ rw (k, release_frame) c
  ]

pub fill-Valid : (a : FrameAllocator) → Valid a → Valid (fill a)
unfolding fill
fill-Valid a v = record { size = length-map a.bitmap ∙ v.size; words = small_words a.bitmap }

pub fill-used :
    (a : FrameAllocator) → Valid a → (i : ℕ) → i < frame_count → is_used (fill a) i ≡ true
unfolding is_used fill
fill-used a v i h =
    ap (λ w. bit w (i % 64)) (get_or-map a.bitmap (i / 64) (omega (arith, v.size)))
    ∙ bit-full (i % 64) (omega arith)

pub fill-Counts : (a : FrameAllocator) → Valid a → Counts (fill a)
unfolding fill
fill-Counts a v = record {
  valid = fill-Valid a v;
  counted = sym (count_free-full (is_used (fill a)) frame_count (fill-used a v));
}

pub init-Counts :
    (a b : FrameAllocator) (regions : List MemoryRegion) (ks ke ms me : ℕ)
    → Valid a
    → init a (some regions) ks ke ms me ≡ some b
    → Counts b
init-Counts a b regions ks ke ms me v e = subst Counts (init-some a b regions ks ke ms me e) (
    carve-keeps Counts (λ c i q h. reserve_frame-Counts c q i h) _ ks ke ms me
      (add_regions-keeps Counts regions (λ c i q h. release_frame-Counts c q i h) (fill a)
        (fill-Counts a v)))

alloc-Counts : (a : FrameAllocator) → Counts a → Counts (alloc a).1
alloc-Counts a c = elim (alloc-cases a c.valid) [
  | inl (q, all) ↦ rw q c
  | inr (i, q, h, free_one, below) ↦ rw q (take-Counts a c i h free_one)
]

free-Counts : (a : FrameAllocator) (frame : ℕ) → Counts a → Counts (free a frame).1
unfolding free set_free
free-Counts a frame c = elim (Bool-cases (leb frame_count (frame / frame_size))) [
  | inl k ↦ rw (k, free) c
  | inr k ↦ elim (Bool-cases (is_used a (frame / frame_size))) [
    | inl u ↦ rw (k, u, free) (give-Counts a c (frame / frame_size) (ground (arith, k)) u)
    | inr u ↦ rw (k, u, free) c
  ]
]

-- What the kernel asks of the allocator.
pub data Demand : Type 0 where
  allocate : Demand
  release : ℕ → Demand

abbrev pub serve : FrameAllocator → Demand → FrameAllocator
serve a allocate = (alloc a).1
serve a (release frame) = (free a frame).1

abbrev pub serve_all : FrameAllocator → List Demand → FrameAllocator
serve_all a [] = a
serve_all a (r ∷ rs) = serve_all (serve a r) rs

pub serve-Counts : (a : FrameAllocator) (r : Demand) → Counts a → Counts (serve a r)
serve-Counts a allocate c = alloc-Counts a c
serve-Counts a (release frame) c = free-Counts a frame c

pub serve_all-Counts : (a : FrameAllocator) (rs : List Demand) → Counts a → Counts (serve_all a rs)
serve_all-Counts a [] c = c
serve_all-Counts a (r ∷ rs) c = serve_all-Counts (serve a r) rs (serve-Counts a r c)

-- After an `init` that did not panic, on a bitmap of the size that it has, and any sequence of
-- allocations and releases, double and wild releases among them, the number of free frames that the
-- allocator keeps is the number of frames below 4 GiB whose bit is clear.
pub init-serve_all-Counts :
    (a b : FrameAllocator) (regions : List MemoryRegion) (ks ke ms me : ℕ) (rs : List Demand)
    → Valid a
    → init a (some regions) ks ke ms me ≡ some b
    → (serve_all b rs).free_frames ≡ count_free (is_used (serve_all b rs)) frame_count
init-serve_all-Counts a b regions ks ke ms me rs v e =
    (serve_all-Counts b rs (init-Counts a b regions ks ke ms me v e)).counted
