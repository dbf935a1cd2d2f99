-- ===== src/Memory/FrameLoops.antt =====
-- The loops of src/frame_allocator.rs over the frames of a region.
use ziran_os.Prelude.{
  ℕ, zero, suc, ◌+◌, ◌-◌, ◌*◌, ◌/◌, ◌≤◌, ◌<◌, ◌≡◌, inl, inr, true, some, List, [], ◌∷◌, leb, min,
  Bool-cases, arith,
}
use ziran_os.Memory.Frames.{
  frame_size, frame_count, max_address, FrameAllocator, MemoryRegion, is_usable, region_end,
  reserve_frame, release_frame, each_frame, reserve, add_region, add_regions, fill, carve, init,
}

-- The frame lies in a region of usable memory, whole.
pub record Inside (r : MemoryRegion) (i : ℕ) : Type 0 where
  pub usable : is_usable r ≡ true
  pub above : r.base ≤ i * frame_size
  pub below : i * frame_size + frame_size ≤ r.base + r.length

module _ (P : FrameAllocator → Type 0) where
  -- What the round for each frame from `low` to `high` keeps, the loop keeps.
  pub each_frame-keeps :
      (f : FrameAllocator → ℕ → FrameAllocator) (low high : ℕ)
      → ((a : FrameAllocator) (i : ℕ) → P a → low ≤ i → i < high → P (f a i))
      → (n first : ℕ) (a : FrameAllocator) → P a
      → low ≤ first
      → n ≤ high - first
      → P (each_frame f n first a)
  unfolding each_frame
  each_frame-keeps f low high step zero first a p l h = p
  each_frame-keeps f low high step (suc n) first a p l h =
      each_frame-keeps f low high step n (first + 1) (f a first) (step a first p l (omega arith))
        (omega arith) (omega arith)

  pub reserve-keeps :
      ((a : FrameAllocator) (i : ℕ) → P a → i < frame_count → P (reserve_frame a i))
      → (a : FrameAllocator) (start end : ℕ) → P a
      → P (reserve a start end)
  unfolding reserve
  reserve-keeps step a start end p = elim (Bool-cases (leb end start)) [
    | inl k ↦ rw (k, reserve) p
    | inr k ↦
        rw (k, reserve)
          (each_frame-keeps reserve_frame 0 frame_count (λ b i q l z. step b i q z) _ _ a p
            (omega arith) (omega arith))
  ]

  pub add_region-keeps :
      (r : MemoryRegion)
      → ((a : FrameAllocator) (i : ℕ) → P a → i < frame_count → Inside r i → P (release_frame a i))
      → (a : FrameAllocator) → P a
      → P (add_region a r)
  unfolding add_region
  add_region-keeps r step a p = elim (Bool-cases (is_usable r)) [
    | inr k ↦ rw (k, add_region) p
    | inl k ↦ elim (Bool-cases (leb max_address r.base)) [
      | inl high ↦ rw (k, high, add_region) p
      | inr low ↦
          let first = (r.base + frame_size - 1) / frame_size in
          let last = min (region_end r) max_address / frame_size in
          elim (Bool-cases (leb last first)) [
            | inl none_left ↦ rw (k, low, none_left, add_region) p
            | inr some_left ↦
                rw (k, low, some_left, add_region)
                  (each_frame-keeps release_frame first last
                    (λ b i q l z.
                      step b i q (omega arith)
                        (record { usable = k; above = omega arith; below = omega arith }))
                    (last - first) first a p (omega arith) (omega arith))
          ]
    ]
  ]

  pub add_regions-keeps :
      (rs : List MemoryRegion)
      → ((a : FrameAllocator) (i : ℕ) → P a → i < frame_count → P (release_frame a i))
      → (a : FrameAllocator) → P a
      → P (add_regions a rs)
  unfolding add_regions
  add_regions-keeps [] step a p = p
  add_regions-keeps (r ∷ rs) step a p =
      add_regions-keeps rs step (add_region a r)
        (add_region-keeps r (λ b i q z w. step b i q z) a p)

  pub carve-keeps :
      ((a : FrameAllocator) (i : ℕ) → P a → i < frame_count → P (reserve_frame a i))
      → (a : FrameAllocator) (ks ke ms me : ℕ) → P a
      → P (carve a ks ke ms me)
  unfolding carve
  carve-keeps step a ks ke ms me p =
      reserve-keeps step _ ms me (reserve-keeps step _ ks ke (reserve-keeps step a 0 frame_size p))

-- `init` that does not panic.
pub init-some :
    (a b : FrameAllocator) (regions : List MemoryRegion) (ks ke ms me : ℕ)
    → init a (some regions) ks ke ms me ≡ some b
    → carve (add_regions (fill a) regions) ks ke ms me ≡ b
unfolding init
init-some a b regions ks ke ms me e = ground (arith, e)
