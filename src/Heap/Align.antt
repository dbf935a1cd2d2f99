-- ===== src/Heap/Align.antt =====
-- Rounding in src/heap.rs: align_up and size_align.
use native.Mathlib.Nat.{
  mul_assoc, mod-lt, div-eq_of_lt, div-add-mod', two-pow-succ, add-mul-div_right, mul-mod_left,
}
use ziran_os.Prelude.{
  ℕ, zero, suc, ◌+◌, ◌-◌, ◌*◌, ◌/◌, ◌%◌, ◌^◌, ◌≤◌, ◌<◌, max, ◌≡◌, ◌⊎◌, inl, inr, refl, sym, ap, ◌∙◌,
  some, arith,
}
use ziran_os.Heap.{
  node_size, node_align, word_limit, isize_limit, align_up, Layout, align_to, pad_to_align,
  size_align,
}

pub align_up_bounds :
    (addr align : ℕ)
    → 0 < align
    → addr + align ≤ word_limit
    → (addr ≤ align_up addr align)
      × (align_up addr align < addr + align)
      × (align_up addr align % align ≡ 0)
unfolding align_up
align_up_bounds addr align h k =
    let x = (addr + align - 1) % word_limit in
    let e : x ≡ addr + align - 1 = omega arith in
    let split = div-add-mod' x align in
    let small = mod-lt x h in
    (omega (arith, e, split, small), omega (arith, e, split, small), mul-mod_left (x / align) align)

pub align_up_self :
    (addr align : ℕ)
    → 0 < align
    → addr + align ≤ word_limit
    → addr % align ≡ 0
    → align_up addr align ≡ addr
unfolding align_up
align_up_self addr align h k z =
    let q = addr / align in
    let e : (addr + align - 1) % word_limit ≡ align - 1 + q * align =
      omega (arith, div-add-mod' addr align) in
    let quotient : (addr + align - 1) % word_limit / align ≡ q =
      ap (λ x. x / align) e
      ∙ add-mul-div_right (align - 1) q h
      ∙ omega (arith, div-eq_of_lt {n = align - 1} {m = align} (omega arith)) in
    ap (λ x. x * align) quotient ∙ omega (arith, div-add-mod' addr align)

-- What `Layout` guarantees, less sizes so close to `isize::MAX` that rounding to a node fails.
abbrev pub Servable : Layout → Type 0
Servable l = (k : ℕ) × (l.align ≡ 2 ^ k) × (l.size + max l.align node_align ≤ isize_limit)

-- A power of two divides 8 or is a multiple of it.
power_cases :
    (k : ℕ) → (2 ^ k ≡ 1) ⊎ ((2 ^ k ≡ 2) ⊎ ((2 ^ k ≡ 4) ⊎ ((q : ℕ) × (0 < q) × (2 ^ k ≡ q * 8))))
power_cases zero = inl refl
power_cases (suc k) = elim (power_cases k) [
  | inl e ↦ inr (inl (omega (arith, two-pow-succ k, e)))
  | inr (inl e) ↦ inr (inr (inl (omega (arith, two-pow-succ k, e))))
  | inr (inr (inl e)) ↦ inr (inr (inr (1, omega arith, omega (arith, two-pow-succ k, e))))
  | inr (inr (inr (q, pos, e))) ↦
      inr (inr (inr (q + q, omega arith, omega (arith, two-pow-succ k, e))))
]

-- The size and alignment that a request is rounded up to.
pub record Rounded (l : Layout) (size align : ℕ) : Type 0 where
  pub eighths : ℕ
  pub some_eighths : 0 < eighths
  pub align_lem : align ≡ eighths * 8
  pub align_limit : align ≤ isize_limit
  pub size_words : size % node_align ≡ 0
  pub holds_node : node_size ≤ size
  pub holds : l.size ≤ size
  pub finer : (n : ℕ) → n % align ≡ 0 → n % l.align ≡ 0

-- Both alignments in one: a power of two not below 8 is used as it is, one below is raised to 8.
align_cases :
    (l : Layout)
    → Servable l
    → (q : ℕ) × (0 < q)
      × (max l.align node_align ≡ q * 8)
      × ((n : ℕ) → n % (q * 8) ≡ 0 → n % l.align ≡ 0)
align_cases l (k, e, h) = elim (power_cases k) [
  | inl p ↦
      let z : l.align ≡ 1 = e ∙ p in
      (1, omega arith, omega (arith, z), λ n z'. rw z (omega (arith, z')))
  | inr (inl p) ↦
      let z : l.align ≡ 2 = e ∙ p in
      (1, omega arith, omega (arith, z), λ n z'. rw z (omega (arith, z')))
  | inr (inr (inl p)) ↦
      let z : l.align ≡ 4 = e ∙ p in
      (1, omega arith, omega (arith, z), λ n z'. rw z (omega (arith, z')))
  | inr (inr (inr (q, pos, p))) ↦
      let z : l.align ≡ q * 8 = e ∙ p in (q, pos, omega (arith, z), λ n z'. rw z z')
]

pub words_of_multiple : (n q : ℕ) → n % (q * 8) ≡ 0 → n % 8 ≡ 0
words_of_multiple n q z =
    let parts = div-add-mod' n (q * 8) in
    let regroup = mul_assoc (n / (q * 8)) q 8 in omega (arith, parts, regroup, z)

-- The alignment and the bytes that a request is rounded up to.
abbrev pub wide : Layout → ℕ
wide l = max l.align node_align

abbrev pub reserved : Layout → ℕ
reserved l = max (align_up l.size (wide l)) node_size

module _ (l : Layout) (s : Servable l) where
  pub reserved-Rounded : Rounded l (reserved l) (wide l)
  reserved-Rounded =
      let (q, pos, e, finer) = align_cases l s in
      let (above, below, whole) =
        align_up_bounds l.size (wide l) (omega (arith, e)) (omega (arith, s.2)) in
      let words =
        words_of_multiple (align_up l.size (wide l)) q
          (ap (λ a. align_up l.size (wide l) % a) (sym e) ∙ whole) in
      record {
        eighths = q;
        some_eighths = pos;
        align_lem = e;
        align_limit = omega (arith, s.2);
        size_words = omega (arith, words);
        holds_node = omega arith;
        holds = omega (arith, above);
        finer = λ n z. finer n (ap (λ a. n % a) (sym e) ∙ z);
      }

  pub size_align_lem : size_align l ≡ some (reserved l, wide l)
  unfolding size_align align_to pad_to_align
  size_align_lem = ground (arith, s.2)
