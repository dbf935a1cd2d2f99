-- ===== src/Memory/MapSteps.antt =====
-- What one round of `map_inner` of src/paging.rs does, and what the walks make of it.
use ziran_os.Prelude.{
  ℕ, suc, ◌+◌, ◌*◌, ◌%◌, ◌≤◌, ◌≡◌, ◌≢◌, inl, inr, refl, ap, ◌∙◌, Bool, true, false, not, ◌&&◌, some,
  ltb, leb, Bool-cases, Option-cases, arith,
}
use ziran_os.Memory.Frames.{FrameAllocator, frame_size, alloc, find_free}
use ziran_os.Memory.Paging.{
  page_size, identity_limit, present, user, huge, address, table_index, read_entry, translate_level,
}
use ziran_os.Memory.Mapping.{
  Mmu, Level, next, write_entry, zero_frame, flag_bits, follow, link_new, one_level,
}

pub alloc-aligned : (a : FrameAllocator) (f : ℕ) → (alloc a).0 ≡ some f → f % page_size ≡ 0
unfolding alloc
alloc-aligned a f e = elim (Option-cases (find_free a.bitmap 0)) [
  | inl q ↦ absurd (ground (arith, q, e))
  | inr (i, q) ↦ let number : f ≡ i * frame_size = ground (arith, q, e) in omega (arith, number)
]

-- The steps of the walk, at an entry that is known.
module _ (tables : ℕ → ℕ → ℕ) (table w i : ℕ) (near : ltb table identity_limit ≡ true) where
  pub translate-leaf :
      table_index w 0 ≡ i
      → present (tables table i) ≡ true
      → translate_level tables 0 table w ≡ some (some (address (tables table i) + w % page_size))
  unfolding translate_level read_entry
  translate-leaf e p = rw (near, e, p, translate_level, read_entry) refl

  pub translate-step :
      (l : ℕ)
      → table_index w (suc l) ≡ i
      → present (tables table i) ≡ true
      → (leb (suc l) 2 && huge (tables table i)) ≡ false
      → translate_level tables (suc l) table w
        ≡ translate_level tables l (address (tables table i)) w
  unfolding translate_level read_entry
  translate-step l e p small =
      let p' = ap (λ k. present (tables table k)) e ∙ p in
      let small' = ap (λ k. leb (suc l) 2 && huge (tables table k)) e ∙ small in
      rw (near, p', small', translate_level, read_entry)
        (ap (λ k. translate_level tables l (address (tables table k)) w) e)

pub flag_bits-odd : (writable user_too : Bool) → flag_bits writable user_too % 2 ≡ 1
flag_bits-odd writable user_too = ground arith

pub flag_bits-le : (writable user_too : Bool) → flag_bits writable user_too ≤ 7
flag_bits-le writable user_too = ground arith

module _ (virt : ℕ) (user_too : Bool) where
  -- A round that goes on: the entry leads to the next table, and only the two tables changed.
  pub record Stepped (level table : ℕ) (s : Mmu) (t : ℕ) (s' : Mmu) : Type 0 where
    pub near : ltb table identity_limit ≡ true
    pub is_present : present (s'.tables table (table_index virt level)) ≡ true
    pub is_small : (leb level 2 && huge (s'.tables table (table_index virt level))) ≡ false
    pub leads : address (s'.tables table (table_index virt level)) ≡ t
    pub others : (u i : ℕ) → u ≢ table → u ≢ t → s'.tables u i ≡ s.tables u i

  abbrev pub Ok : ℕ → ℕ → Mmu → Level → Type 0
  Ok level table s (next t s') = Stepped level table s t s'
  Ok level table s _ = Unit {0}

  follow-Ok :
      (level table : ℕ) (s : Mmu)
      → ltb table identity_limit ≡ true
      → present (s.tables table (table_index virt level)) ≡ true
      → Ok level table s
          (follow virt user_too level table (s.tables table (table_index virt level)) s)
  unfolding follow write_entry
  follow-Ok level table s near p =
      let entry = s.tables table (table_index virt level) in
      elim (Bool-cases (leb level 2 && huge entry)) [
        | inl big ↦ rw (big, follow) tt
        | inr small ↦ elim (Bool-cases (user_too && not (user entry))) [
          | inr as_is ↦
              rw (small, as_is, follow)
                (record {
                  near = near;
                  is_present = p;
                  is_small = small;
                  leads = refl;
                  others = λ u i a b. refl;
                })
          | inl shut ↦
              rw (small, shut, follow)
                (record {
                  near = near;
                  is_present = ground (arith, p, shut);
                  is_small = ground (arith, small, shut);
                  leads = ground (arith, shut);
                  others = λ u i a b. ground (arith, a);
                })
        ]
      ]

  link_new-Ok :
      (level table : ℕ) (s : Mmu)
      → ltb table identity_limit ≡ true
      → Ok level table s (link_new virt user_too level table s)
  unfolding link_new write_entry zero_frame
  link_new-Ok level table s near = elim (Option-cases (alloc s.allocator).0) [
    | inl e ↦ rw (e, link_new) tt
    | inr (f, e) ↦
        let aligned = alloc-aligned s.allocator f e in
        elim (Bool-cases (ltb f identity_limit)) [
          | inr far ↦ rw (e, far, link_new) tt
          | inl low ↦
              rw (e, low, link_new)
                (record {
                  near = near;
                  is_present = ground (arith, aligned);
                  is_small = ground (arith, aligned);
                  leads = ground (arith, aligned, low);
                  others = λ u i a b. ground (arith, a, b);
                })
        ]
  ]

  pub one_level-Ok :
      (level table : ℕ) (s : Mmu) → Ok level table s (one_level virt user_too level table s)
  unfolding one_level read_entry
  one_level-Ok level table s = elim (Bool-cases (ltb table identity_limit)) [
    | inr far ↦ rw (far, one_level, read_entry) tt
    | inl near ↦ elim (Bool-cases (present (s.tables table (table_index virt level)))) [
      | inl p ↦ rw (near, p, one_level, read_entry) (follow-Ok level table s near p)
      | inr p ↦ rw (near, p, one_level, read_entry) (link_new-Ok level table s near)
    ]
  ]
