-- ===== src/Keyboard/Layout.antt =====
-- The layout of src/keyboard.rs as a whole.
use ziran_os.Prelude.{
  ℕ, zero, suc, ◌+◌, ◌-◌, ◌<◌, ◌≤◌, ◌≡◌, refl, Bool, true, false, ◌||◌, none, some, ◌==◌, all_below,
  all_below-holds, Bool-cases, inl, inr, subst, arith,
}
use ziran_os.Keyboard.{handle_interrupt}

-- Whether an event with this code and Shift types the character.
types : ℕ → Bool → ℕ → Bool
types c shift code = elim (handle_interrupt code shift).1 [ none ↦ false | some d ↦ d == c ]

find_below : ℕ → (ℕ → Bool) → Bool
find_below zero p = false
find_below (suc n) p = p n || find_below n p

find_below-finds : (n : ℕ) (p : ℕ → Bool) → find_below n p ≡ true → (x : ℕ) × (x < n) × (p x ≡ true)
unfolding find_below
find_below-finds zero p h = absurd (ground arith)
find_below-finds (suc n) p h = elim (Bool-cases (p n)) [
  | inl here ↦ (n, omega arith, here)
  | inr other ↦ let (x, lt, e) = find_below-finds n p (ground arith) in (x, omega arith, e)
]

typed_by : ℕ → Bool
typed_by c = find_below 128 (types c false) || find_below 128 (types c true)

printable_table : all_below 95 (λ n. typed_by (n + 32)) ≡ true
unfolding all_below typed_by find_below types handle_interrupt
printable_table = refl

types-some :
    (c code : ℕ) (shift : Bool)
    → types c shift code ≡ true
    → (handle_interrupt code shift).1 ≡ some c
unfolding types
types-some c code shift h = ground arith

-- Every printable ASCII character can be typed: some make code, with Shift held or not, gives it.
pub handle_interrupt-printable :
    (c : ℕ)
    → 32 ≤ c
    → c < 127
    → (code : ℕ) × (shift : Bool) × (code < 128) × ((handle_interrupt code shift).1 ≡ some c)
unfolding typed_by
handle_interrupt-printable c lo hi =
    let e : (c - 32) + 32 ≡ c = omega arith in
    let reached : typed_by c ≡ true =
      subst (λ k. typed_by k ≡ true) e
        (all_below-holds 95 (λ n. typed_by (n + 32)) (c - 32) printable_table (omega arith)) in
    elim (Bool-cases (find_below 128 (types c false))) [
      | inl low ↦
          let (code, lt, t) = find_below-finds 128 (types c false) low in
          (code, false, lt, types-some c code false t)
      | inr not_low ↦
          let high : find_below 128 (types c true) ≡ true = ground arith in
          let (code, lt, t) = find_below-finds 128 (types c true) high in
          (code, true, lt, types-some c code true t)
    ]
