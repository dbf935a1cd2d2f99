-- ===== src/Memory/Counting.antt =====
-- How many frames are free, counted one by one.
use ziran_os.Prelude.{
  ℕ, zero, suc, ◌+◌, ◌≤◌, ◌<◌, ◌≡◌, Bool, true, false, ◌==◌, if◌then◌else◌, arith,
}

-- How many of the first `n` are not used.
unfoldable pub count_free : (ℕ → Bool) → ℕ → ℕ
count_free used zero = 0
count_free used (suc n) = (if used n then 0 else 1) + count_free used n

module _ (used used' : ℕ → Bool) (i : ℕ)
    (agree : (j : ℕ) → used' j ≡ (if i == j then true else used j)) where
  count_free-outside : (n : ℕ) → n ≤ i → count_free used' n ≡ count_free used n
  unfolding count_free
  count_free-outside zero h = omega arith
  count_free-outside (suc n) h = ground (arith, agree n, count_free-outside n)

  pub count_free-take :
      (n : ℕ) → i < n → used i ≡ false → count_free used n ≡ suc (count_free used' n)
  unfolding count_free
  count_free-take zero h k = absurd (omega arith)
  count_free-take (suc n) h k = ground (arith, agree n, count_free-outside n, count_free-take n)

  -- Where the one that is taken was taken already, nothing changes.
  pub count_free-again : (n : ℕ) → used i ≡ true → count_free used' n ≡ count_free used n
  unfolding count_free
  count_free-again zero k = omega arith
  count_free-again (suc n) k = ground (arith, agree n, count_free-again n k)

module _ (used used' : ℕ → Bool) (i : ℕ)
    (agree : (j : ℕ) → used' j ≡ (if i == j then false else used j)) where
  pub count_free-give :
      (n : ℕ) → i < n → used i ≡ true → count_free used' n ≡ suc (count_free used n)
  count_free-give n h k =
      count_free-take used' used i (λ j. ground (arith, agree j)) n h (ground (arith, agree i))

pub count_free-full :
    (used : ℕ → Bool) (n : ℕ) → ((j : ℕ) → j < n → used j ≡ true) → count_free used n ≡ 0
unfolding count_free
count_free-full used zero h = omega arith
count_free-full used (suc n) h =
    ground (arith, h n, count_free-full used n (λ j k. h j (omega arith)))
