-- ===== src/Heap/Choose.antt =====
-- Which region of the free list of src/heap.rs serves a request.
use ziran_os.Prelude.{
  ℕ, ◌+◌, ◌*◌, ◌%◌, ◌≤◌, ◌<◌, ◌≡◌, ◌⊎◌, inl, inr, refl, ap, ◌∙◌, sym, Option, none, some,
  Option-cases, Bool-cases, List, [], ◌∷◌, All, ◌==◌, length, arith,
}
use ziran_os.Heap.{node_align, node_size, isize_limit, align_up, alloc_from_region, rounds}
use ziran_os.Heap.Align.{align_up_bounds, words_of_multiple}
use ziran_os.Heap.Owners.{Block, IsBlock, Apart, owners, total-le, length-le}
use ziran_os.Heap.Chain.{passing, first_fit}

-- A request as `size_align` rounds it.
abbrev pub IsRequest : ℕ → ℕ → Type 0
IsRequest size align =
    (node_size ≤ size)
    × (size % node_align ≡ 0)
    × (align ≤ isize_limit)
    × ((q : ℕ) × (0 < q) × (align ≡ q * 8))

-- The part of a region that serves a request, and what is left after it.
pub record Fits (first n size align start : ℕ) : Type 0 where
  pub from_first : first ≤ start
  pub to_end : start + size ≤ first + n
  pub aligned : start % align ≡ 0
  pub start_word : start % node_align ≡ 0
  pub left : (start + size ≡ first + n) ⊎ (start + size + node_size ≤ first + n)

alloc_from_region-Fits :
    (first n size align start : ℕ)
    → IsBlock (first, n)
    → IsRequest size align
    → alloc_from_region first n size align ≡ some start
    → Fits first n size align start
unfolding alloc_from_region
alloc_from_region-Fits first n size align start b (node, words, limit, (q, pos, e)) h =
    let (above, below, whole) =
      align_up_bounds first align (omega (arith, e)) (omega (arith, b.high, b.holds_node)) in
    let start_lem : start ≡ align_up first align = ground (arith, h) in
    let aligned : start % align ≡ 0 = ap (λ x. x % align) start_lem ∙ whole in
    record {
      from_first = omega (arith, start_lem, above);
      to_end = ground (arith, h);
      aligned = aligned;
      start_word = words_of_multiple start q (ap (λ a. start % a) (sym e) ∙ aligned);
      left = elim (Bool-cases (start + size == first + n)) [
        | inl z ↦ inl (ground (arith, z))
        | inr z ↦ inr (ground (arith, h, z))
      ];
    }

-- What the first fit is: a region of the list that serves the request, with the others kept.
pub record Chosen (regions : List Block) (size align : ℕ) (found : Block) (start : ℕ)
    (others : List Block) : Type 0 where
  pub block : IsBlock found
  pub fits : Fits found.0 found.1 size align start
  pub other_blocks : All IsBlock others
  pub kept : (a : ℕ) → owners a regions ≡ owners a (found ∷ others)

-- A region that cannot serve the request: no aligned start in it leaves nothing or a whole node.
abbrev pub Unfit : ℕ → ℕ → Block → Type 0
Unfit size align block = alloc_from_region block.0 block.1 size align ≡ none

abbrev pub Chooses : List Block → ℕ → ℕ → Option ((Block × ℕ) × List Block) → Type 0
Chooses regions size align none = All (Unfit size align) regions
Chooses regions size align (some ((found, start), others)) =
    Chosen regions size align found start others

Chooses-passing :
    (block : Block) (regions : List Block) (size align : ℕ)
    (found : Option ((Block × ℕ) × List Block))
    → IsBlock block
    → Unfit size align block
    → Chooses regions size align found
    → Chooses (block ∷ regions) size align (passing block found)
Chooses-passing block regions size align none b u all = (u, all)
Chooses-passing block regions size align (some ((found, start), others)) b u c = record {
  block = c.block;
  fits = c.fits;
  other_blocks = (b, c.other_blocks);
  kept = λ a. ground (arith, c.kept a);
}

pub first_fit-Chooses :
    (size align : ℕ) (regions : List Block)
    → All IsBlock regions
    → IsRequest size align
    → Chooses regions size align (first_fit size align regions)
unfolding first_fit
first_fit-Chooses size align [] all r = tt
first_fit-Chooses size align ((f, m) ∷ regions) (b, all) r =
    elim (Option-cases (alloc_from_region f m size align)) [
      | inr (s, q) ↦
          rw (q, first_fit)
            (record {
              block = b;
              fits = alloc_from_region-Fits f m size align s b r q;
              other_blocks = all;
              kept = λ a. refl;
            })
      | inl q ↦
          rw (q, first_fit)
            (Chooses-passing (f, m) regions size align (first_fit size align regions) b q
              (first_fit-Chooses size align regions all r))
    ]

-- A walk has enough rounds for a list of regions that lie apart.
pub length-lt-rounds :
    (regions : List Block) → All IsBlock regions → Apart regions → length regions < rounds
unfolding rounds
length-lt-rounds regions all apart =
    omega (arith, length-le regions all, total-le regions all apart)
