-- ===== src/Memory/FrameInit.antt =====
-- Which frames `init` of src/frame_allocator.rs leaves free.
use ziran_os.Prelude.{
  ℕ, zero, suc, ◌+◌, ◌-◌, ◌*◌, ◌/◌, ◌^◌, ◌≤◌, ◌<◌, ◌≡◌, ◌⊎◌, inl, inr, subst, sym, true, false,
  some, List, [], ◌∷◌, ◌==◌, ltb, leb, if◌then◌else◌, Bool-cases, arith,
}
use ziran_os.Memory.Frames.{
  frame_size, frame_count, FrameAllocator, MemoryRegion, decrement, is_used, release_frame,
  reserve_frame, each_frame, reserve, add_region, add_regions, fill, carve, init,
}
use ziran_os.Memory.FrameLaws.{Valid, is_used-set_used}
use ziran_os.Memory.FrameLoops.{
  Inside, add_region-keeps, each_frame-keeps, reserve-keeps, init-some,
}
use ziran_os.Memory.FrameCount.{
  Counts, after_take, after_give, fill-Counts, fill-used, reserve_frame-Counts,
  release_frame-Counts,
}

module _ (a : FrameAllocator) (c : Counts a) (i : ℕ) (h : i < frame_count) where
  release_frame-free :
      (j : ℕ) → is_used (release_frame a i) j ≡ false → (i ≡ j) ⊎ (is_used a j ≡ false)
  unfolding release_frame
  release_frame-free j e = elim (Bool-cases (i == j)) [
    | inl k ↦ inl (ground (arith, k))
    | inr k ↦ elim (Bool-cases (is_used a i)) [
      | inl u ↦ inr (ground (arith, e, k, u, after_give a c i h (a.free_frames + 1) j))
      | inr u ↦ inr (ground (arith, e, u))
    ]
  ]

  reserve_frame-used :
      (j : ℕ) → is_used (reserve_frame a i) j ≡ (if i == j then true else is_used a j)
  unfolding reserve_frame
  reserve_frame-used j = elim (Bool-cases (is_used a i)) [
    | inl u ↦ rw (u, reserve_frame) (is_used-set_used a c.valid i h j)
    | inr u ↦ rw (u, reserve_frame) (after_take a c i h (decrement a.free_frames) j)
  ]

-- The frames that a region frees lie in it.
add_region-free :
    (a : FrameAllocator) (r : MemoryRegion)
    → Counts a
    → Counts (add_region a r)
      × ((j : ℕ) → is_used (add_region a r) j ≡ false → (is_used a j ≡ false) ⊎ Inside r j)
add_region-free a r c =
    add_region-keeps
      (λ b. Counts b × ((j : ℕ) → is_used b j ≡ false → (is_used a j ≡ false) ⊎ Inside r j)) r
      (λ b i p h inside. (
        release_frame-Counts b p.0 i h,
        λ j e. elim (release_frame-free b p.0 i h j e) [
          | inl here ↦ inr (subst (Inside r) here inside)
          | inr before ↦ p.1 j before
        ],
      ))
      a (c, λ j e. inl e)

abbrev pub InSome : List MemoryRegion → ℕ → Type 0
InSome [] i = ⊥
InSome (r ∷ rs) i = Inside r i ⊎ InSome rs i

add_regions-free :
    (rs : List MemoryRegion) (a : FrameAllocator)
    → Counts a
    → Counts (add_regions a rs)
      × ((j : ℕ) → is_used (add_regions a rs) j ≡ false → (is_used a j ≡ false) ⊎ InSome rs j)
unfolding add_regions
add_regions-free [] a c = (c, λ j e. inl e)
add_regions-free (r ∷ rs) a c =
    let (c', one) = add_region-free a r c in
    let (c'', all) = add_regions-free rs (add_region a r) c' in
    (
      c'',
      λ j e. elim (all j e) [
        | inl before ↦ elim (one j before) [ inl first ↦ inl first | inr here ↦ inr (inl here) ]
        | inr later ↦ inr (inr later)
      ],
    )

-- Reserving takes no frame back.
abbrev Tighter : FrameAllocator → FrameAllocator → Type 0
Tighter a b = Counts b × ((j : ℕ) → is_used b j ≡ false → is_used a j ≡ false)

reserve_frame-Tighter :
    (a b : FrameAllocator) (i : ℕ) → Tighter a b → i < frame_count → Tighter a (reserve_frame b i)
reserve_frame-Tighter a b i (c, less) h =
    (reserve_frame-Counts b c i h, λ j e. less j (ground (arith, e, reserve_frame-used b c i h j)))

kept : (a b : FrameAllocator) (j : ℕ) → Tighter a b → is_used a j ≡ true → is_used b j ≡ true
kept a b j (c, less) u = elim (Bool-cases (is_used b j)) [
  | inl v ↦ v
  | inr v ↦ absurd (ground (arith, less j v, u))
]

each_frame-covers :
    (n first : ℕ) (a : FrameAllocator)
    → Counts a
    → n ≤ frame_count - first
    → (j : ℕ) → first ≤ j
    → j < first + n
    → is_used (each_frame reserve_frame n first a) j ≡ true
unfolding each_frame
each_frame-covers zero first a c h j l z = absurd (omega arith)
each_frame-covers (suc n) first a c h j l z =
    let b = reserve_frame a first in
    let c' = reserve_frame-Counts a c first (omega arith) in
    elim (Bool-cases (first == j)) [
      | inl k ↦
          kept b (each_frame reserve_frame n (first + 1) b) j
            (each_frame-keeps (Tighter b) reserve_frame 0 frame_count
              (λ d i p w v. reserve_frame-Tighter b d i p v) n (first + 1) b (c', λ i e. e)
              (omega arith) (omega arith))
            (ground (arith, k, reserve_frame-used a c first (omega arith) j))
      | inr k ↦
          each_frame-covers n (first + 1) b c' (omega arith) j (ground (arith, k)) (omega arith)
    ]

module _ (a : FrameAllocator) (start end : ℕ) (c : Counts a) (lt : start < end)
    (top : end + frame_size ≤ 2 ^ 64) where
  covered :
      (j : ℕ)
      → j < frame_count
      → start / frame_size ≤ j
      → j < (end + frame_size - 1) / frame_size
      → is_used (reserve a start end) j ≡ true
  unfolding reserve
  covered j h l z =
      let open_range : leb end start ≡ false = ground arith in
      rw (open_range, reserve) (each_frame-covers _ _ a c (omega arith) j l (omega arith))

  outside :
      (j : ℕ)
      → j < frame_count
      → is_used (reserve a start end) j ≡ false
      → (j * frame_size + frame_size ≤ start) ⊎ (end ≤ j * frame_size)
  outside j h e = elim (Bool-cases (ltb j (start / frame_size))) [
    | inl k ↦ inl (ground (arith, k))
    | inr k ↦ elim (Bool-cases (ltb j ((end + frame_size - 1) / frame_size))) [
      | inl k' ↦ absurd (ground (arith, e, covered j h (ground (arith, k)) (ground (arith, k'))))
      | inr k' ↦ inr (ground (arith, k'))
    ]
  ]

reserve-Tighter : (a : FrameAllocator) (start end : ℕ) → Counts a → Tighter a (reserve a start end)
reserve-Tighter a start end c =
    reserve-keeps (Tighter a) (λ b i p h. reserve_frame-Tighter a b i p h) a start end (c, λ j e. e)

-- A frame away from a range of addresses.
abbrev pub Apart : ℕ → ℕ → ℕ → Type 0
Apart j start end = (j * frame_size + frame_size ≤ start) ⊎ (end ≤ j * frame_size)

-- Every frame that is free after an `init` that did not panic lies whole in a region that the memory
-- map calls usable, is not frame 0, and overlaps neither the kernel nor the structure of Multiboot2,
-- where these are not empty and end a frame's size below 2^64 at most.
pub init-InSome :
    (a b : FrameAllocator) (regions : List MemoryRegion) (ks ke ms me : ℕ)
    → Valid a
    → ks < ke
    → ke + frame_size ≤ 2 ^ 64
    → ms < me
    → me + frame_size ≤ 2 ^ 64
    → init a (some regions) ks ke ms me ≡ some b
    → (j : ℕ) → j < frame_count
    → is_used b j ≡ false
    → InSome regions j × (1 ≤ j) × Apart j ks ke × Apart j ms me
unfolding carve
init-InSome a b regions ks ke ms me v k1 k2 m1 m2 e j h free_one =
    let usable = add_regions (fill a) regions in
    let (c, from_map) = add_regions-free regions (fill a) (fill-Counts a v) in
    let one = reserve usable 0 frame_size in
    let two = reserve one ks ke in
    let (c1, less1) = reserve-Tighter usable 0 frame_size c in
    let (c2, less2) = reserve-Tighter one ks ke c1 in
    let (c3, less3) = reserve-Tighter two ms me c2 in
    let f3 : is_used (reserve two ms me) j ≡ false =
      subst (λ d. is_used d j ≡ false) (sym (init-some a b regions ks ke ms me e)) free_one in
    let f2 = less3 j f3 in
    let f1 = less2 j f2 in
    let f0 = less1 j f1 in
    (
      elim (from_map j f0) [
        | inl early ↦ absurd (ground (arith, early, fill-used a v j h))
        | inr inside ↦ inside
      ],
      elim (outside usable 0 frame_size c (omega arith) (omega arith) j h f1) [
        | inl low ↦ absurd (omega arith)
        | inr high ↦ omega arith
      ],
      outside one ks ke c1 k1 k2 j h f2,
      outside two ms me c2 m1 m2 j h f3,
    )
