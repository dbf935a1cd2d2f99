-- ===== src/Heap/Chain.antt =====
-- The free list of src/heap.rs in memory, against the list of regions that it stands for, and the
-- first region of that list that serves a request.
use ziran_os.Prelude.{ℕ, ◌+◌, ◌≡◌, ◌≢◌, ◌∙◌, Option, none, some, List, [], ◌∷◌, All, arith}
use ziran_os.Heap.{reference, alloc_from_region}
use ziran_os.Heap.Owners.{Block, IsBlock, owners, owners-node, owners-cons}

-- From a pointer the nodes in memory are just these regions, in order.
abbrev pub Chain : (ℕ → ℕ) → Option ℕ → List Block → Type 0
Chain memory p [] = p ≡ none
Chain memory p ((first, size) ∷ regions) =
    (p ≡ some first) × (memory first ≡ size) × Chain memory (reference (memory (first + 8))) regions

-- Writes outside the regions leave the list as it is.
pub frame :
    (memory memory' : ℕ → ℕ) (p : Option ℕ) (regions : List Block)
    → Chain memory p regions
    → All IsBlock regions
    → ((a : ℕ) → owners a regions ≢ 0 → memory' a ≡ memory a)
    → Chain memory' p regions
frame memory memory' p [] c all same = c
frame memory memory' p ((first, size) ∷ regions) (e, s, c) (b, all) same =
    let (here, link) = owners-node first size regions b in
    let link_kept : memory' (first + 8) ≡ memory (first + 8) =
      same (first + 8) (λ z. absurd (omega (arith, z, link))) in
    (
      e,
      same first (λ z. absurd (omega (arith, z, here))) ∙ s,
      rw link_kept (
          frame memory memory' (reference (memory (first + 8))) regions c all
            λ a n. same a (λ z. n (omega (arith, z, owners-cons a (first, size) regions)))),
    )

-- A region that is passed stays before those that are left.
abbrev pub passing : Block → Option ((Block × ℕ) × List Block) → Option ((Block × ℕ) × List Block)
passing block none = none
passing block (some (found, others)) = some (found, block ∷ others)

-- The region that serves a request, the aligned start in it, and the regions without it.
unfoldable pub first_fit : ℕ → ℕ → List Block → Option ((Block × ℕ) × List Block)
first_fit size align [] = none
first_fit size align ((first, region_size) ∷ regions) =
    elim (alloc_from_region first region_size size align) [
      | some alloc_start ↦ some (((first, region_size), alloc_start), regions)
      | none ↦ passing (first, region_size) (first_fit size align regions)
    ]
