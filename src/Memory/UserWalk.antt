-- ===== src/Memory/UserWalk.antt =====
-- The walk of the MMU for a read in ring 3, and `page_user_accessible` of src/paging.rs.
use ziran_os.Prelude.{
  ℕ, zero, suc, ◌/◌, ◌≤◌, ◌≡◌, ◌⊎◌, inl, inr, subst, true, false, ◌&&◌, none, some, ltb, leb,
  Bool-cases, arith,
}
use ziran_os.Memory.Paging.{
  page_size, identity_limit, present, user, huge, address, table_index, read_entry, user_level,
}

module _ (entries : ℕ → ℕ → ℕ) where
  -- The walk of the MMU, for a read in ring 3: each entry on the way is present and open to the user,
  -- down to a huge page, which is not at the top level, or to a page.
  abbrev pub UserWalk : ℕ → ℕ → ℕ → Type 0
  UserWalk zero table virt =
      let entry = entries table (table_index virt 0) in (present entry ≡ true) × (user entry ≡ true)
  UserWalk (suc l) table virt =
      let entry = entries table (table_index virt (suc l)) in
      (present entry ≡ true)
      × (user entry ≡ true)
      × (((leb (suc l) 2 && huge entry) ≡ true)
          ⊎ (((leb (suc l) 2 && huge entry) ≡ false) × UserWalk l (address entry) virt))

  -- A walk that comes to a table outside the identity map.
  abbrev pub Wild : ℕ → ℕ → ℕ → Type 0
  Wild zero table virt = identity_limit ≤ table
  Wild (suc l) table virt =
      (identity_limit ≤ table) ⊎ Wild l (address (entries table (table_index virt (suc l)))) virt

  abbrev pub Answers : ℕ → ℕ → ℕ → Type 0
  Answers l table virt =
      ((user_level entries l table virt ≡ some true) × UserWalk l table virt)
      ⊎ ((user_level entries l table virt ≡ some false) × (UserWalk l table virt → ⊥))
      ⊎ ((user_level entries l table virt ≡ none) × Wild l table virt)

  pub user_level-Answers : (l table virt : ℕ) → Answers l table virt
  unfolding user_level read_entry
  user_level-Answers zero table virt = elim (Bool-cases (ltb table identity_limit)) [
    | inr far ↦ inr (inr (ground (arith, far), ground (arith, far)))
    | inl near ↦
        let entry = entries table (table_index virt 0) in
        elim (Bool-cases (present entry && user entry)) [
          | inl k ↦ inl (ground (arith, near, k), (ground (arith, k), ground (arith, k)))
          | inr k ↦ inr (inl (ground (arith, near, k), λ w. ground (arith, k, w.0, w.1)))
        ]
  ]
  user_level-Answers (suc l) table virt = elim (Bool-cases (ltb table identity_limit)) [
    | inr far ↦ inr (inr (ground (arith, far), inl (ground (arith, far))))
    | inl near ↦
        let entry = entries table (table_index virt (suc l)) in
        elim (Bool-cases (present entry && user entry)) [
          | inr k ↦ inr (inl (ground (arith, near, k), λ w. ground (arith, k, w.0, w.1)))
          | inl k ↦ elim (Bool-cases (leb (suc l) 2 && huge entry)) [
            | inl big ↦
                inl (ground (arith, near, k, big), (ground (arith, k), ground (arith, k), inl big))
            | inr small ↦ elim (user_level-Answers l (address entry) virt) [
              | inl (e, w) ↦ inl (
                ground (arith, near, k, small, e),
                (ground (arith, k), ground (arith, k), inr (small, w)),
              )
              | inr (inl (e, closed)) ↦ inr (
                  inl (
                    ground (arith, near, k, small, e),
                    λ w. elim w.2 [
                      | inl big ↦ absurd (ground (arith, big, small))
                      | inr deeper ↦ closed deeper.1
                    ],
                  ))
              | inr (inr (e, wild)) ↦ inr (inr (ground (arith, near, k, small, e), inr wild))
            ]
          ]
        ]
  ]

  pub table_index-page :
      (l v w : ℕ) → l ≤ 3 → v / page_size ≡ w / page_size → table_index v l ≡ table_index w l
  unfolding table_index
  table_index-page zero v w h e = omega (arith, e)
  table_index-page (suc zero) v w h e = omega (arith, e)
  table_index-page (suc (suc zero)) v w h e = omega (arith, e)
  table_index-page (suc (suc (suc zero))) v w h e = omega (arith, e)
  table_index-page (suc (suc (suc (suc l)))) v w h e = absurd (omega arith)

  -- The bytes of a page share their walk.
  pub UserWalk-page :
      (l table v w : ℕ)
      → l ≤ 3
      → v / page_size ≡ w / page_size
      → UserWalk l table v
      → UserWalk l table w
  UserWalk-page zero table v w h e walk =
      subst (λ i. (present (entries table i) ≡ true) × (user (entries table i) ≡ true))
        (table_index-page 0 v w h e) walk
  UserWalk-page (suc l) table v w h e (p, u, further) =
      let same = table_index-page (suc l) v w h e in
      let at = λ (i : ℕ). entries table i in
      (
        subst (λ i. present (entries table i) ≡ true) same p,
        subst (λ i. user (entries table i) ≡ true) same u,
        elim further [
          | inl big ↦ inl (subst (λ i. (leb (suc l) 2 && huge (entries table i)) ≡ true) same big)
          | inr (small, deeper) ↦ inr (
            subst (λ i. (leb (suc l) 2 && huge (entries table i)) ≡ false) same small,
            subst (λ i. UserWalk l (address (entries table i)) w) same
                (UserWalk-page l _ v w (omega arith) e deeper),
          )
        ],
      )

  pub Wild-page :
      (l table v w : ℕ) → l ≤ 3 → v / page_size ≡ w / page_size → Wild l table v → Wild l table w
  Wild-page zero table v w h e far = far
  Wild-page (suc l) table v w h e (inl far) = inl far
  Wild-page (suc l) table v w h e (inr deeper) = inr (
      subst (λ i. Wild l (address (entries table i)) w) (table_index-page (suc l) v w h e)
        (Wild-page l _ v w (omega arith) e deeper))
