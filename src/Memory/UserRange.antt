-- ===== src/Memory/UserRange.antt =====
-- `user_range_ok` of src/paging.rs against what the MMU lets ring 3 read.
use ziran_os.Prelude.{
  ℕ, zero, suc, ◌+◌, ◌-◌, ◌*◌, ◌/◌, ◌%◌, ◌^◌, ◌≤◌, ◌<◌, ◌≡◌, inl, inr, ◌==◌, ltb, leb, Bool-cases,
  arith,
}
use ziran_os.Memory.Paging.{
  page_size, user_addr_limit, RangeCheck, allowed, denied, halted, unfinished, page_user_accessible,
  check_pages, user_range_ok,
}
use ziran_os.Memory.UserWalk.{UserWalk, Wild, user_level-Answers, UserWalk-page, Wild-page}

module _ (entries : ℕ → ℕ → ℕ) (root : ℕ) where
  -- What ring 3 may read: a byte of the lower half that a walk comes to.
  abbrev pub Readable : ℕ → Type 0
  Readable addr = (addr < user_addr_limit) × UserWalk entries 3 root addr

  -- What a verdict says of the pages from one to another.
  abbrev Pages : ℕ → ℕ → RangeCheck → Type 0
  Pages page last allowed =
      (v : ℕ)
      → page / page_size ≤ v / page_size
      → v / page_size ≤ last / page_size
      → UserWalk entries 3 root v
  Pages page last denied =
      (v : ℕ) × (page / page_size ≤ v / page_size)
      × (v / page_size ≤ last / page_size)
      × (UserWalk entries 3 root v → ⊥)
  Pages page last halted =
      (v : ℕ) × (page / page_size ≤ v / page_size)
      × (v / page_size ≤ last / page_size)
      × Wild entries 3 root v
  Pages page last unfinished = ⊥

  one_more :
      (page last : ℕ)
      → page % page_size ≡ 0
      → UserWalk entries 3 root page
      → (verdict : RangeCheck) → Pages (page + page_size) last verdict
      → Pages page last verdict
  one_more page last a walk allowed rest = λ v lo hi.
      elim (Bool-cases (page / page_size == v / page_size)) [
        | inl k ↦ UserWalk-page entries 3 root page v (omega arith) (ground (arith, k)) walk
        | inr k ↦ rest v (ground (arith, k)) hi
      ]
  one_more page last a walk denied (v, lo, hi, w) = (v, omega arith, hi, w)
  one_more page last a walk halted (v, lo, hi, w) = (v, omega arith, hi, w)
  one_more page last a walk unfinished rest = rest

  check_pages-Pages :
      (fuel page last : ℕ)
      → page % page_size ≡ 0
      → last % page_size ≡ 0
      → page ≤ last
      → last / page_size - page / page_size < fuel
      → Pages page last (check_pages entries root fuel page last)
  unfolding check_pages page_user_accessible
  check_pages-Pages zero page last a b le f = absurd (omega arith)
  check_pages-Pages (suc fuel) page last a b le f = elim (user_level-Answers entries 3 root page) [
    | inr (inl (e, closed)) ↦
        rw (e, check_pages, page_user_accessible) (page, omega arith, omega arith, closed)
    | inr (inr (e, wild)) ↦
        rw (e, check_pages, page_user_accessible) (page, omega arith, omega arith, wild)
    | inl (e, walk) ↦ elim (Bool-cases (page == last)) [
      | inl k ↦
          rw (e, k, check_pages, page_user_accessible)
            (λ v lo hi. UserWalk-page entries 3 root page v (omega arith) (ground (arith, k)) walk)
      | inr k ↦
          rw (e, k, check_pages, page_user_accessible)
            (one_more page last a walk _ (
              check_pages-Pages fuel (page + page_size) last (omega arith) b (ground (arith, k))
                (ground (arith, k))))
    ]
  ]

  byte_of :
      (uaddr len v : ℕ)
      → 0 < len
      → uaddr / page_size ≤ v / page_size
      → v / page_size ≤ (uaddr + len - 1) / page_size
      → (i : ℕ) × (i < len) × ((uaddr + i) / page_size ≡ v / page_size)
  byte_of uaddr len v h lo hi = elim (Bool-cases (ltb (v / page_size * page_size) uaddr)) [
    | inl k ↦ (0, h, ground (arith, k))
    | inr k ↦ (v / page_size * page_size - uaddr, ground (arith, k), ground (arith, k))
  ]

  -- What a verdict says of the bytes of a range.
  abbrev pub Bytes : ℕ → ℕ → RangeCheck → Type 0
  Bytes uaddr len allowed = (i : ℕ) → i < len → Readable (uaddr + i)
  Bytes uaddr len denied = (i : ℕ) × (i < len) × (Readable (uaddr + i) → ⊥)
  Bytes uaddr len halted = (i : ℕ) × (i < len) × Wild entries 3 root (uaddr + i)
  Bytes uaddr len unfinished = ⊥

  per_byte :
      (uaddr len : ℕ)
      → 0 < len
      → uaddr + len ≤ user_addr_limit
      → (verdict : RangeCheck)
      → Pages (uaddr / page_size * page_size) ((uaddr + len - 1) / page_size * page_size) verdict
      → Bytes uaddr len verdict
  per_byte uaddr len h top allowed all =
      λ i k. (omega arith, all (uaddr + i) (omega arith) (omega arith))
  per_byte uaddr len h top denied (v, lo, hi, closed) =
      let (i, k, e) = byte_of uaddr len v h (omega arith) (omega arith) in
      (i, k, λ r. closed (UserWalk-page entries 3 root (uaddr + i) v (omega arith) e r.1))
  per_byte uaddr len h top halted (v, lo, hi, wild) =
      let (i, k, e) = byte_of uaddr len v h (omega arith) (omega arith) in
      (i, k, Wild-page entries 3 root v (uaddr + i) (omega arith) (omega (arith, e)) wild)
  per_byte uaddr len h top unfinished no_fuel = no_fuel

  -- `user_range_ok` always comes to an end, the fuel of one round for each byte being enough. If it
  -- allows a range, ring 3 may read every byte of it: each is below 2^47, and the walk of the MMU
  -- finds present entries open to the user all the way. If it denies the range, there is a byte of
  -- it that ring 3 may not read. It panics only if the walk for a byte of the range comes to a
  -- table outside the identity map.
  pub user_range_ok-Bytes : (uaddr len : ℕ) → Bytes uaddr len (user_range_ok entries root uaddr len)
  unfolding user_range_ok
  user_range_ok-Bytes uaddr len = elim (Bool-cases (len == 0)) [
    | inl k ↦ rw (k, user_range_ok) (λ i h. absurd (ground (arith, k, h)))
    | inr k ↦ elim (Bool-cases (leb (2 ^ 64) (uaddr + len))) [
      | inl over ↦
          rw (k, over, user_range_ok) (len - 1, ground (arith, k), λ r. ground (arith, over, r.0))
      | inr fits ↦ elim (Bool-cases (ltb user_addr_limit (uaddr + len))) [
        | inl high ↦
            rw (k, fits, high, user_range_ok)
              (len - 1, ground (arith, k), λ r. ground (arith, high, r.0))
        | inr low ↦
            rw (k, fits, low, user_range_ok)
              (per_byte uaddr len (ground (arith, k)) (ground (arith, low)) _ (
                check_pages-Pages len _ _ (omega arith) (omega arith) (ground (arith, k))
                  (ground (arith, k))))
      ]
    ]
  ]
