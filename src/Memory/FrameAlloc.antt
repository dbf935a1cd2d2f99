-- ===== src/Memory/FrameAlloc.antt =====
-- The search of `alloc` of src/frame_allocator.rs: the lowest free frame.
use ziran_os.Prelude.{
  ℕ, suc, ◌+◌, ◌-◌, ◌*◌, ◌/◌, ◌%◌, ◌^◌, ◌≤◌, ◌<◌, ◌≡◌, ◌⊎◌, inl, inr, refl, ap, ap₂, ◌∙◌, Bool,
  true, false, none, some, List, [], ◌∷◌, ◌==◌, ==_iff, ltb, get_or, length, All, all_below,
  all_below-holds, Bool-cases, arith,
}
use ziran_os.Memory.Bits.{bit, trailing_ones, bit-trailing_ones}
use ziran_os.Memory.Frames.{
  frame_size, frame_count, full_word, FrameAllocator, decrement, is_used, set_used, find_free,
  alloc,
}
use ziran_os.Memory.FrameLaws.{Valid}

-- Whether the bit of a frame is set among some words.
abbrev pub marked : List ℕ → ℕ → Bool
marked words i = bit (get_or words (i / 64) 0) (i % 64)

full_table : all_below 64 (bit full_word) ≡ true
unfolding all_below bit
full_table = refl

pub bit-full : (i : ℕ) → i < 64 → bit full_word i ≡ true
bit-full i h = all_below-holds 64 (bit full_word) i full_table h

module _ (word : ℕ) (words : List ℕ) where
  marked-head : (i : ℕ) → i < 64 → marked (word ∷ words) i ≡ bit word i
  marked-head i h =
      let q : i / 64 ≡ 0 = omega arith in
      let r : i % 64 ≡ i = omega arith in ap₂ (λ k l. bit (get_or (word ∷ words) k 0) l) q r

  marked-tail : (i : ℕ) → 64 ≤ i → marked (word ∷ words) i ≡ marked words (i - 64)
  marked-tail i h =
      let q : i / 64 ≡ suc ((i - 64) / 64) = omega arith in
      let r : i % 64 ≡ (i - 64) % 64 = omega arith in
      ap₂ (λ k l. bit (get_or (word ∷ words) k 0) l) q r

-- What the search comes to.
abbrev pub Nothing : List ℕ → Type 0
Nothing words = (i : ℕ) → i < length words * 64 → marked words i ≡ true

pub record Lowest (words : List ℕ) (i : ℕ) : Type 0 where
  pub inside : i < length words * 64
  pub clear : marked words i ≡ false
  pub below : (j : ℕ) → j < i → marked words j ≡ true

marked-full :
    (word : ℕ) (words : List ℕ) (bound : ℕ)
    → word ≡ full_word
    → ((i : ℕ) → i < bound → marked words i ≡ true)
    → (i : ℕ) → i < 64 + bound
    → marked (word ∷ words) i ≡ true
marked-full word words bound e rest i h = elim (Bool-cases (ltb i 64)) [
  | inl k ↦
      marked-head word words i (ground (arith, k))
      ∙ ap (λ w. bit w i) e
      ∙ bit-full i (ground (arith, k))
  | inr k ↦ marked-tail word words i (ground (arith, k)) ∙ rest (i - 64) (ground (arith, k))
]

find_free-cases :
    (words : List ℕ) (from : ℕ)
    → All (λ w. w < 2 ^ 64) words
    → ((find_free words from ≡ none) × Nothing words)
      ⊎ ((i : ℕ) × (find_free words from ≡ some (from * 64 + i)) × Lowest words i)
unfolding find_free
find_free-cases [] from v = inl (refl, λ i h. absurd (omega arith))
find_free-cases (word ∷ words) from (h, v) = elim (Bool-cases (word == full_word)) [
  | inl k ↦
      let e = (==_iff word full_word).0 k in
      elim (find_free-cases words (from + 1) v) [
        | inl (q, all) ↦
            inl (rw (k, find_free) q, λ i z. marked-full word words _ e all i (omega arith))
        | inr (i, q, low) ↦
            let number : (from + 1) * 64 + i ≡ from * 64 + (64 + i) = omega arith in
            let back : 64 + i - 64 ≡ i = omega arith in
            inr (
              64 + i,
              rw (k, find_free) (q ∙ ap some number),
              record {
                inside = omega (arith, low.inside);
                clear =
                    marked-tail word words (64 + i) (omega arith)
                    ∙ ap (marked words) back
                    ∙ low.clear;
                below = marked-full word words i e low.below;
              },
            )
      ]
  | inr k ↦
      let (small, clear, below) = bit-trailing_ones 64 word h (ground (arith, k)) in
      inr (
        trailing_ones 64 word,
        rw (k, find_free) refl,
        record {
          inside = omega (arith, small);
          clear = marked-head word words _ small ∙ clear;
          below = λ j z. marked-head word words j (omega (arith, small)) ∙ below j z;
        },
      )
]

-- What `alloc` comes to: nothing where every frame is used, or the lowest free frame.
pub alloc-cases :
    (a : FrameAllocator)
    → Valid a
    → ((alloc a ≡ (none, a)) × ((i : ℕ) → i < frame_count → is_used a i ≡ true))
      ⊎ ((i : ℕ) × (alloc a ≡ (
        some (i * frame_size),
        set_used (record a { free_frames = decrement a.free_frames }) i,
      ))
          × (i < frame_count)
          × (is_used a i ≡ false)
          × ((j : ℕ) → j < i → is_used a j ≡ true))
unfolding alloc is_used
alloc-cases a v = elim (find_free-cases a.bitmap 0 v.words) [
  | inl (q, all) ↦ inl (rw (q, alloc) refl, λ i h. all i (omega (arith, v.size)))
  | inr (i, q, low) ↦
      let e : 0 * 64 + i ≡ i = omega arith in
      inr (i, rw (q, e, alloc) refl, omega (arith, v.size, low.inside), low.clear, low.below)
]
