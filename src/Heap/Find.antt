-- ===== src/Heap/Find.antt =====
-- find_region of src/heap.rs against the first region of the list that serves the request.
use ziran_os.Prelude.{
  ℕ, zero, suc, ◌+◌, ◌<◌, ◌≡◌, ◌≢◌, inl, inr, refl, subst, ap, ◌∙◌, sym, Option, none, some, List,
  [], ◌∷◌, All, length, Option-cases, arith,
}
use ziran_os.Heap.{
  FreeListHeap, reference, word_of, alloc_from_region, next_of, set_next, find_region,
}
use ziran_os.Heap.Owners.{Block, IsBlock, Apart, owners, owners-node, owners-cons}
use ziran_os.Heap.Chain.{Chain, frame, passing, first_fit}

-- An address that the `next` field of the current node does not take.
abbrev pub Spares : Option ℕ → ℕ → Type 0
Spares none a = Unit {0}
Spares (some p) a = a ≢ p + 8

-- The current node lies outside the regions after it.
abbrev pub Outside : Option ℕ → List Block → Type 0
Outside none regions = Unit {0}
Outside (some p) regions = owners (p + 8) regions ≡ 0

-- Past the first node the search leaves the dummy head alone.
abbrev pub SameHead : Option ℕ → FreeListHeap → FreeListHeap → Type 0
SameHead none h h' = h'.head.size ≡ h.head.size
SameHead (some p) h h' = h'.head ≡ h.head

-- The heap after a region has been taken out of the list behind the current node.
pub record Unlinked (h : FreeListHeap) (current : Option ℕ) (regions : List Block) (first size : ℕ)
    (others : List Block) (h' : FreeListHeap) : Type 0 where
  pub chain : Chain h'.memory (next_of h' current) others
  pub size_kept : h'.memory first ≡ size
  pub outside : (a : ℕ) → owners a regions ≡ 0 → Spares current a → h'.memory a ≡ h.memory a
  pub same_head : SameHead current h h'

reference-word_of : (w : ℕ) → reference (word_of (reference w)) ≡ reference w
reference-word_of w = ground arith

-- `next = region.next.take()`, then `current.next = next`.
abbrev taken : FreeListHeap → ℕ → Option ℕ → FreeListHeap
taken h first current = set_next (set_next h (some first) none) current (next_of h (some first))

module _ (h : FreeListHeap) (first size : ℕ) (regions : List Block) where
  taken-Unlinked :
      (current : Option ℕ)
      → Chain h.memory (next_of h current) ((first, size) ∷ regions)
      → All IsBlock ((first, size) ∷ regions)
      → Apart ((first, size) ∷ regions)
      → Outside current ((first, size) ∷ regions)
      → Unlinked h current ((first, size) ∷ regions) first size regions (taken h first current)
  taken-Unlinked none (e, s, c) (b, all) apart out =
      let (here, link) = owners-node first size regions b in
      record {
        chain =
            frame h.memory (taken h first none).memory (next_of h (some first)) regions c all
              λ a n. ground (arith, n, link, apart (first + 8));
        size_kept = ground (arith, s);
        outside = λ a z _. ground (arith, z, link);
        same_head = refl;
      }
  taken-Unlinked (some p) (e, s, c) (b, all) apart out =
      let (here, link) = owners-node first size regions b in
      let back : next_of (taken h first (some p)) (some p) ≡ next_of h (some first) =
        ground arith in
      record {
        chain =
            subst (λ q. Chain (taken h first (some p)).memory q regions) (sym back)
              (frame h.memory (taken h first (some p)).memory (next_of h (some first)) regions c all
                λ a n. ground (
                  arith,
                  n,
                  link,
                  apart (first + 8),
                  out,
                  owners-cons (p + 8) (first, size) regions,
                ));
        size_kept = ground (arith, s, out, here);
        outside = λ a z ne. ground (arith, z, link, ne);
        same_head = refl;
      }

-- What a search says of the regions behind the current node.
abbrev pub Finds :
    FreeListHeap
    → Option ℕ
    → List Block
    → Option ((Block × ℕ) × List Block)
    → Option (FreeListHeap × Option (ℕ × ℕ))
    → Type 0
Finds h current regions none result = result ≡ some (h, none)
Finds h current regions (some (((first, size), alloc_start), others)) result =
    (h' : FreeListHeap) × (result ≡ some (h', some (first, alloc_start)))
    × Unlinked h current regions first size others h'

-- A search that passed the first region changed nothing that leads to it.
module _ (h : FreeListHeap) (first size : ℕ) (regions : List Block) where
  step_over :
      (current : Option ℕ) (f n : ℕ) (others : List Block) (h' : FreeListHeap)
      → Chain h.memory (next_of h current) ((first, size) ∷ regions)
      → IsBlock (first, size)
      → Apart ((first, size) ∷ regions)
      → Outside current ((first, size) ∷ regions)
      → Unlinked h (some first) regions f n others h'
      → Unlinked h current ((first, size) ∷ regions) f n ((first, size) ∷ others) h'
  step_over none f n others h' (e, s, c) b apart out u =
      let (here, link) = owners-node first size regions b in
      let spared : h'.memory first ≡ h.memory first =
        u.outside first (omega (arith, here, apart first)) (λ z. omega (arith, z)) in
      record {
        chain = (ap (λ n. n.next) u.same_head ∙ e, spared ∙ s, u.chain);
        size_kept = u.size_kept;
        outside = λ a z _.
            u.outside a (omega (arith, z, owners-cons a (first, size) regions))
              λ q. absurd (ground (arith, z, q, link));
        same_head = ap (λ n. n.size) u.same_head;
      }
  step_over (some p) f n others h' (e, s, c) b apart out u =
      let (here, link) = owners-node first size regions b in
      let spared : h'.memory first ≡ h.memory first =
        u.outside first (omega (arith, here, apart first)) (λ z. omega (arith, z)) in
      let linked : h'.memory (p + 8) ≡ h.memory (p + 8) =
        u.outside (p + 8) (omega (arith, out, owners-cons (p + 8) (first, size) regions))
          λ q. absurd (ground (arith, out, q, link)) in
      record {
        chain = (ap reference linked ∙ e, spared ∙ s, u.chain);
        size_kept = u.size_kept;
        outside = λ a z _.
            u.outside a (omega (arith, z, owners-cons a (first, size) regions))
              λ q. absurd (ground (arith, z, q, link));
        same_head = u.same_head;
      }

  Finds-passing :
      (current : Option ℕ) (found : Option ((Block × ℕ) × List Block))
      (result : Option (FreeListHeap × Option (ℕ × ℕ)))
      → Chain h.memory (next_of h current) ((first, size) ∷ regions)
      → IsBlock (first, size)
      → Apart ((first, size) ∷ regions)
      → Outside current ((first, size) ∷ regions)
      → Finds h (some first) regions found result
      → Finds h current ((first, size) ∷ regions) (passing (first, size) found) result
  Finds-passing current none result c b apart out e = e
  Finds-passing current (some (((f, n), alloc_start), others)) result c b apart out (h', e, u) =
      (h', e, step_over current f n others h' c b apart out u)

-- Where the regions behind the current node are blocks of the heap that lie apart from each other
-- and from its link, and there is a round for each and one more: the search takes the first region
-- that serves the request out of the list, with the others left in order and no word changed
-- outside the regions but that link, and changes nothing where there is none.
pub find_region-first_fit :
    (fuel : ℕ) (h : FreeListHeap) (current : Option ℕ) (regions : List Block) (size align : ℕ)
    → length regions < fuel
    → Chain h.memory (next_of h current) regions
    → All IsBlock regions
    → Apart regions
    → Outside current regions
    → Finds h current regions (first_fit size align regions) (find_region fuel h current size align)
unfolding find_region first_fit
find_region-first_fit zero h current regions size align lt c all apart out = absurd (omega arith)
find_region-first_fit (suc fuel) h current [] size align lt c all apart out =
    rw (c, find_region) refl
find_region-first_fit (suc fuel) h current ((first, n) ∷ regions) size align lt (e, s, c) (b, all)
      apart out =
    elim (Option-cases (alloc_from_region first n size align)) [
      | inr (alloc_start, q) ↦
          rw (e, find_region)
            (rw s (
              rw (q, first_fit)
                (
                  taken h first current,
                  refl,
                  taken-Unlinked h first n regions current (e, s, c) (b, all) apart out,
                )))
      | inl q ↦
          rw (e, find_region)
            (rw s (
              rw (q, first_fit)
                (Finds-passing h first n regions current (first_fit size align regions)
                  (find_region fuel h (some first) size align) (e, s, c) b apart out
                  (find_region-first_fit fuel h (some first) regions size align (omega arith) c all
                    (λ a. omega (arith, apart a, owners-cons a (first, n) regions))
                    (omega (arith, apart (first + 8), (owners-node first n regions b).1))))))
    ]
