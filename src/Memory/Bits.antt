-- ===== src/Memory/Bits.antt =====
-- The bits of a machine word, digit by digit: what src/frame_allocator.rs does with `1 << i`.
use native.Mathlib.Nat.{two-pow-succ}
use ziran_os.Prelude.{
  ℕ, zero, suc, ◌+◌, ◌-◌, ◌*◌, ◌/◌, ◌%◌, ◌^◌, ◌≤◌, ◌<◌, ◌≡◌, ◌≢◌, ap, Bool, true, false, ◌==◌,
  if◌then◌else◌, inl, inr, Bool-cases, arith,
}

-- `word & (1 << i) != 0`
unfoldable pub bit : ℕ → ℕ → Bool
bit word zero = word % 2 == 1
bit word (suc i) = bit (word / 2) i

-- `word | (1 << i)`
unfoldable pub set_bit : ℕ → ℕ → ℕ
set_bit word zero = word / 2 * 2 + 1
set_bit word (suc i) = set_bit (word / 2) i * 2 + word % 2

-- `word & !(1 << i)`
unfoldable pub clear_bit : ℕ → ℕ → ℕ
clear_bit word zero = word / 2 * 2
clear_bit word (suc i) = clear_bit (word / 2) i * 2 + word % 2

-- `word.trailing_ones()`, for a word of `n` bits.
unfoldable pub trailing_ones : ℕ → ℕ → ℕ
trailing_ones zero word = 0
trailing_ones (suc n) word =
    let rest = trailing_ones n (word / 2) in if word % 2 == 1 then suc rest else 0

half : (a b : ℕ) → (a * 2 + b % 2) / 2 ≡ a
half a b = omega arith

pub bit-set_bit : (word i j : ℕ) → bit (set_bit word i) j ≡ (if i == j then true else bit word j)
unfolding bit set_bit
bit-set_bit word zero zero = ground arith
bit-set_bit word zero (suc j) =
    let e : (word / 2 * 2 + 1) / 2 ≡ word / 2 = omega arith in ground (arith, ap (λ w. bit w j) e)
bit-set_bit word (suc i) zero = ground arith
bit-set_bit word (suc i) (suc j) =
    ground (arith, ap (λ w. bit w j) (half (set_bit (word / 2) i) word), bit-set_bit (word / 2) i j)

pub bit-clear_bit :
    (word i j : ℕ) → bit (clear_bit word i) j ≡ (if i == j then false else bit word j)
unfolding bit clear_bit
bit-clear_bit word zero zero = ground arith
bit-clear_bit word zero (suc j) =
    let e : word / 2 * 2 / 2 ≡ word / 2 = omega arith in ground (arith, ap (λ w. bit w j) e)
bit-clear_bit word (suc i) zero = ground arith
bit-clear_bit word (suc i) (suc j) =
    ground
      (arith, ap (λ w. bit w j) (half (clear_bit (word / 2) i) word), bit-clear_bit (word / 2) i j)

bit_below :
    (word n : ℕ)
    → (word % 2 == 1) ≡ true
    → ((j : ℕ) → j < n → bit (word / 2) j ≡ true)
    → (j : ℕ) → j < suc n
    → bit word j ≡ true
unfolding bit
bit_below word n e below zero h = e
bit_below word n e below (suc j) h = below j (omega arith)

-- The first clear bit of a word that has one.
pub bit-trailing_ones :
    (n word : ℕ)
    → word < 2 ^ n
    → word ≢ 2 ^ n - 1
    → (trailing_ones n word < n)
      × (bit word (trailing_ones n word) ≡ false)
      × ((j : ℕ) → j < trailing_ones n word → bit word j ≡ true)
unfolding bit trailing_ones
bit-trailing_ones zero word h k = absurd (k (omega arith))
bit-trailing_ones (suc n) word h k = elim (Bool-cases (word % 2 == 1)) [
  | inl e ↦
      let (small, clear, below) =
        bit-trailing_ones n (word / 2) (omega (arith, two-pow-succ n))
          (λ q. k (ground (arith, two-pow-succ n, e, q))) in
      rw (e, trailing_ones) (omega arith, clear, bit_below word _ e below)
  | inr e ↦ rw (e, trailing_ones) (omega arith, e, λ j z. absurd (omega arith))
]

pub set_bit-lt : (n word i : ℕ) → word < 2 ^ n → i < n → set_bit word i < 2 ^ n
unfolding set_bit
set_bit-lt zero word i h k = absurd (omega arith)
set_bit-lt (suc n) word zero h k = omega (arith, two-pow-succ n)
set_bit-lt (suc n) word (suc i) h k =
    omega (
      arith,
      two-pow-succ n,
      set_bit-lt n (word / 2) i (omega (arith, two-pow-succ n)) (omega arith),
    )

pub clear_bit-le : (word i : ℕ) → clear_bit word i ≤ word
unfolding clear_bit
clear_bit-le word zero = omega arith
clear_bit-le word (suc i) = omega (arith, clear_bit-le (word / 2) i)
