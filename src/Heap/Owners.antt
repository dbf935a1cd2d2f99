-- ===== src/Heap/Owners.antt =====
-- Blocks of the heap of src/heap.rs, and how many of a list of blocks hold an address. Blocks lie
-- apart where no address has two owners.
use ziran_os.Prelude.{
  ℕ, zero, suc, ◌+◌, ◌-◌, ◌*◌, ◌%◌, ◌≤◌, ◌≡◌, min, refl, Bool, List, [], ◌∷◌, ltb, leb, ◌&&◌,
  if◌then◌else◌, count_if, length, All, arith,
}
use ziran_os.Heap.{heap_base, heap_size, node_size, node_align}

-- The first address and the size.
abbrev pub Block : Type 0
Block = ℕ × ℕ

abbrev pub covers : ℕ → Block → Bool
covers a (first, size) = leb first a && ltb a (first + size)

abbrev pub owners : ℕ → List Block → ℕ
owners a blocks = count_if (covers a) blocks

-- A block can hold a node: it lies in the heap, on whole words, and is large enough.
pub record IsBlock (b : Block) : Type 0 where
  pub low : heap_base ≤ b.0
  pub high : b.0 + b.1 ≤ heap_base + heap_size
  pub on_word : b.0 % node_align ≡ 0
  pub size_words : b.1 % node_align ≡ 0
  pub holds_node : node_size ≤ b.1

abbrev pub Apart : List Block → Type 0
Apart blocks = (a : ℕ) → owners a blocks ≤ 1

abbrev pub total : List Block → ℕ
total [] = 0
total ((first, size) ∷ blocks) = size + total blocks

sum_below : ℕ → (ℕ → ℕ) → ℕ
sum_below zero f = 0
sum_below (suc n) f = sum_below n f + f (heap_base + n)

sum_below-le : (n : ℕ) (f : ℕ → ℕ) → ((a : ℕ) → f a ≤ 1) → sum_below n f ≤ n
unfolding sum_below
sum_below-le zero f h = omega arith
sum_below-le (suc n) f h = omega (arith, sum_below-le n f h, h (heap_base + n))

sum_below-zero : (n : ℕ) → sum_below n (λ a. 0) ≡ 0
unfolding sum_below
sum_below-zero zero = refl
sum_below-zero (suc n) = omega (arith, sum_below-zero n)

-- One block is counted once for each of its addresses.
sum_below-covers :
    (n first size : ℕ) (f : ℕ → ℕ)
    → heap_base ≤ first
    → sum_below n (λ a. if covers a (first, size) then suc (f a) else f a)
      ≡ (min n (first + size - heap_base) - min n (first - heap_base)) + sum_below n f
unfolding sum_below
sum_below-covers zero first size f h = omega arith
sum_below-covers (suc n) first size f h = ground (arith, sum_below-covers n first size f)

sum_below-owners :
    (blocks : List Block)
    → All IsBlock blocks
    → sum_below heap_size (λ a. owners a blocks) ≡ total blocks
sum_below-owners [] all = sum_below-zero heap_size
sum_below-owners ((first, size) ∷ blocks) (b, all) = omega (
  arith,
  sum_below-covers heap_size first size (λ a. owners a blocks) b.low,
  sum_below-owners blocks all,
  b.high,
  b.low,
)

-- Blocks that lie apart are not larger together than the heap.
pub total-le : (blocks : List Block) → All IsBlock blocks → Apart blocks → total blocks ≤ heap_size
total-le blocks all apart =
    omega (arith, sum_below-owners blocks all, sum_below-le heap_size (λ a. owners a blocks) apart)

-- Nor more than fit by size.
pub length-le :
    (blocks : List Block) → All IsBlock blocks → length blocks * node_size ≤ total blocks
length-le [] all = omega arith
length-le ((first, size) ∷ blocks) (b, all) = omega (arith, length-le blocks all, b.holds_node)

-- Both words of a node belong to its block.
pub owners-node :
    (first size : ℕ) (blocks : List Block)
    → IsBlock (first, size)
    → (owners first ((first, size) ∷ blocks) ≡ suc (owners first blocks))
      × (owners (first + 8) ((first, size) ∷ blocks) ≡ suc (owners (first + 8) blocks))
owners-node first size blocks b = (ground (arith, b.holds_node), ground (arith, b.holds_node))

pub owners-cons :
    (a : ℕ) (block : Block) (blocks : List Block) → owners a blocks ≤ owners a (block ∷ blocks)
owners-cons a block blocks = ground arith
