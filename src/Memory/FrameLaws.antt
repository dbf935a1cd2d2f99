-- ===== src/Memory/FrameLaws.antt =====
-- What the operations of src/frame_allocator.rs do to the set of used frames.
use ziran_os.Prelude.{
  ℕ, zero, suc, ◌/◌, ◌%◌, ◌^◌, ◌<◌, ◌≡◌, ◌≢◌, refl, ap, sym, ◌∙◌, inl, inr, true, false, List, [],
  ◌∷◌, ◌==◌, ==_iff, if◌then◌else◌, set, get_or, length, All, length-set, get_or-set_self,
  get_or-set_ne, Bool-cases, arith,
}
use ziran_os.Memory.Bits.{
  bit, set_bit, clear_bit, bit-set_bit, bit-clear_bit, set_bit-lt, clear_bit-le,
}
use ziran_os.Memory.Frames.{frame_count, bitmap_words, FrameAllocator, is_used, set_used, set_free}

pub record Valid (a : FrameAllocator) : Type 0 where
  pub size : length a.bitmap ≡ bitmap_words
  pub words : All (λ w. w < 2 ^ 64) a.bitmap

All-set {ℓ} :
    {A : Type ℓ} (P : A → Type 0) (xs : List A) (i : ℕ) (v : A)
    → All P xs
    → P v
    → All P (set xs i v)
All-set P [] i v a p = a
All-set P (x ∷ xs) zero v (q, a) p = (p, a)
All-set P (x ∷ xs) (suc i) v (q, a) p = (q, All-set P xs i v a p)

All-get_or {ℓ} :
    {A : Type ℓ} (P : A → Type 0) (xs : List A) (i : ℕ) (d : A) → All P xs → P d → P (get_or xs i d)
All-get_or P [] i d a p = p
All-get_or P (x ∷ xs) zero d (q, a) p = q
All-get_or P (x ∷ xs) (suc i) d (q, a) p = All-get_or P xs i d a p

-- The count of free frames is not what says which are used.
pub is_used-count :
    (a : FrameAllocator) (n j : ℕ) → is_used (record a { free_frames = n }) j ≡ is_used a j
unfolding is_used
is_used-count a n j = refl

module _ (a : FrameAllocator) (v : Valid a) (i : ℕ) (h : i < frame_count) where
  pub set_used-Valid : Valid (set_used a i)
  unfolding set_used
  set_used-Valid = record {
    size = length-set a.bitmap _ _ ∙ v.size;
    words = All-set _ a.bitmap _ _ v.words (
        set_bit-lt 64 _ (i % 64) (All-get_or _ a.bitmap (i / 64) 0 v.words (omega arith))
          (omega arith));
  }

  pub set_free-Valid : Valid (set_free a i)
  unfolding set_free
  set_free-Valid = record {
    size = length-set a.bitmap _ _ ∙ v.size;
    words = All-set _ a.bitmap _ _ v.words (
        omega (
          arith,
          clear_bit-le (get_or a.bitmap (i / 64) 0) (i % 64),
          All-get_or (λ w. w < 2 ^ 64) a.bitmap (i / 64) 0 v.words (omega arith),
        ));
  }

  written : (w j : ℕ) → i / 64 ≡ j / 64 → get_or (set a.bitmap (i / 64) w) (j / 64) 0 ≡ w
  written w j e =
      ap (λ k. get_or (set a.bitmap (i / 64) w) k 0) (sym e)
      ∙ get_or-set_self a.bitmap (i / 64) w 0 (omega (arith, v.size))

  pub is_used-set_used : (j : ℕ) → is_used (set_used a i) j ≡ (if i == j then true else is_used a j)
  unfolding is_used set_used
  is_used-set_used j = elim (Bool-cases (i / 64 == j / 64)) [
    | inl q ↦
        let e : i / 64 ≡ j / 64 = (==_iff (i / 64) (j / 64)).0 q in
        ground (
          arith,
          ap (λ k. bit k (j % 64)) (written (set_bit (get_or a.bitmap (i / 64) 0) (i % 64)) j e),
          bit-set_bit (get_or a.bitmap (i / 64) 0) (i % 64) (j % 64),
          ap (λ k. bit (get_or a.bitmap k 0) (j % 64)) e,
        )
    | inr q ↦
        let d : i / 64 ≢ j / 64 = ground (arith, q) in
        ground (
          arith,
          q,
          ap (λ k. bit k (j % 64))
              (get_or-set_ne a.bitmap {j = j / 64} (set_bit (get_or a.bitmap (i / 64) 0) (i % 64)) 0
                d),
        )
  ]

  pub is_used-set_free :
      (j : ℕ) → is_used (set_free a i) j ≡ (if i == j then false else is_used a j)
  unfolding is_used set_free
  is_used-set_free j = elim (Bool-cases (i / 64 == j / 64)) [
    | inl q ↦
        let e : i / 64 ≡ j / 64 = (==_iff (i / 64) (j / 64)).0 q in
        ground (
          arith,
          ap (λ k. bit k (j % 64)) (written (clear_bit (get_or a.bitmap (i / 64) 0) (i % 64)) j e),
          bit-clear_bit (get_or a.bitmap (i / 64) 0) (i % 64) (j % 64),
          ap (λ k. bit (get_or a.bitmap k 0) (j % 64)) e,
        )
    | inr q ↦
        let d : i / 64 ≢ j / 64 = ground (arith, q) in
        ground (
          arith,
          q,
          ap (λ k. bit k (j % 64))
              (get_or-set_ne a.bitmap {j = j / 64} (clear_bit (get_or a.bitmap (i / 64) 0) (i % 64))
                0 d),
        )
  ]
