-- ===== src/Memory/MapWalk.antt =====
-- The walks of src/multiboot.rs come to an end, inside the structure.
use native.Mathlib.Nat.{suc-mul, zero-mul}
use ziran_os.Prelude.{
  ◌∙◌, ℕ, zero, suc, ◌+◌, ◌-◌, ◌*◌, ◌/◌, ◌≤◌, ◌<◌, ◌≡◌, ◌⊎◌, inl, inr, refl, ap, List, [], ◌∷◌,
  ◌==◌, ltb, leb, Bool-cases, arith,
}
use ziran_os.Memory.Frames.{MemoryRegion}
use ziran_os.Memory.Multiboot.{
  tag_type_memory_map, tag_type_end, tag_header_size, entry_record_size, MemoryMapIter, Walked,
  found, missing, unfinished, read_u32, new, find_tag, memory_map, region_at, collect, regions,
}

module _ (read : ℕ → ℕ) where
  -- The `n` regions from an address on, one at every `stride` bytes.
  abbrev pub table : ℕ → ℕ → ℕ → List MemoryRegion
  table zero a stride = []
  table (suc n) a stride = region_at read a ∷ table n (a + stride) stride

  -- Where an iterator over the map may go.
  record Good (low high : ℕ) (it : MemoryMapIter) : Type 0 where
    starts : low + 16 ≤ it.next
    stops : it.end ≤ high
    strides : entry_record_size ≤ it.entry_size

  abbrev Tag : ℕ → ℕ → Walked MemoryMapIter → Type 0
  Tag low high (found it) = Good low high it
  Tag low high missing = Unit {0}
  Tag low high unfinished = ⊥

  find_tag-Tag :
      (fuel tag end low : ℕ)
      → low ≤ tag
      → end - tag < fuel
      → Tag low end (find_tag read fuel tag end)
  unfolding find_tag
  find_tag-Tag zero tag end low h f = absurd (omega arith)
  find_tag-Tag (suc fuel) tag end low h f =
      let size = read_u32 read (tag + 4) in
      let stride = read_u32 read (tag + 8) in
      elim (Bool-cases (leb (tag + tag_header_size) end)) [
        | inr past ↦ rw (past, find_tag) tt
        | inl here ↦ elim (Bool-cases (ltb size tag_header_size)) [
          | inl small ↦ rw (here, small, find_tag) tt
          | inr whole ↦ elim (Bool-cases (read_u32 read tag == tag_type_end)) [
            | inl last ↦ rw (here, whole, last, find_tag) tt
            | inr more ↦ elim (Bool-cases (read_u32 read tag == tag_type_memory_map)) [
              | inl map ↦ elim (Bool-cases (ltb stride entry_record_size)) [
                | inl narrow ↦ rw (here, whole, more, map, narrow, find_tag) tt
                | inr wide ↦
                    rw (here, whole, more, map, wide, find_tag)
                      (record {
                        starts = omega arith;
                        stops = omega arith;
                        strides = ground (arith, wide);
                      })
              ]
              | inr other ↦
                  rw (here, whole, more, other, find_tag)
                    (find_tag-Tag fuel (tag + (size + 7) / 8 * 8) end low (omega arith)
                      (ground (arith, here, whole)))
            ]
          ]
        ]
      ]

  -- What the walk over the entries gives: a table that ends inside.
  abbrev Entries : MemoryMapIter → Walked (List MemoryRegion) → Type 0
  Entries it (found rs) =
      (n : ℕ) × (rs ≡ table n it.next it.entry_size)
      × ((n ≡ 0) ⊎ (it.next + n * it.entry_size ≤ it.end))
      × (it.end < it.next + n * it.entry_size + it.entry_size)
  Entries it missing = ⊥
  Entries it unfinished = ⊥

  one_more :
      (it : MemoryMapIter) (rest : Walked (List MemoryRegion))
      → it.next + it.entry_size ≤ it.end
      → Entries (record it { next = it.next + it.entry_size }) rest
      → Entries it (elim rest [
        | found rs ↦ found (region_at read it.next ∷ rs)
        | missing ↦ missing
        | unfinished ↦ unfinished
      ])
  one_more it (found rs) h (n, e, inside, over) =
      let step : suc n * it.entry_size ≡ n * it.entry_size + it.entry_size =
        suc-mul n it.entry_size in
      (
        suc n,
        ap (◌∷◌ (region_at read it.next)) e,
        elim inside [
          | inl z ↦
              let none_left : n * it.entry_size ≡ 0 =
                ap (λ k. k * it.entry_size) z ∙ zero-mul it.entry_size in
              inr (omega (arith, step, none_left))
          | inr far ↦ inr (omega (arith, step, far))
        ],
        omega (arith, step, over),
      )
  one_more it missing h none_left = none_left
  one_more it unfinished h none_left = none_left

  collect-Entries :
      (fuel : ℕ) (it : MemoryMapIter)
      → 1 ≤ it.entry_size
      → it.end - it.next < fuel
      → Entries it (collect read fuel it)
  unfolding collect
  collect-Entries zero it w f = absurd (omega arith)
  collect-Entries (suc fuel) it w f = elim (Bool-cases (ltb it.end (it.next + it.entry_size))) [
    | inl k ↦ rw (k, collect) (0, refl, inl refl, ground (arith, k))
    | inr k ↦
        rw (k, collect)
          (one_more it (collect read fuel (record it { next = it.next + it.entry_size }))
            (ground (arith, k))
            (collect-Entries fuel (record it { next = it.next + it.entry_size }) w
              (ground (arith, k))))
  ]

  -- What the two walks give together.
  abbrev pub Regions : ℕ → ℕ → Walked (List MemoryRegion) → Type 0
  Regions low high (found rs) =
      (n : ℕ) × (first : ℕ) × (stride : ℕ) × (rs ≡ table n first stride)
      × (low + 16 ≤ first)
      × (entry_record_size ≤ stride)
      × ((n ≡ 0) ⊎ (first + n * stride ≤ high))
  Regions low high missing = Unit {0}
  Regions low high unfinished = ⊥

  widen :
      (low high : ℕ) (it : MemoryMapIter)
      → Good low high it
      → (walked : Walked (List MemoryRegion)) → Entries it walked
      → Regions low high walked
  widen low high it g (found rs) (n, e, inside, over) = (
    n,
    it.next,
    it.entry_size,
    e,
    g.starts,
    g.strides,
    elim inside [ inl z ↦ inl z | inr far ↦ inr (omega (arith, far, g.stops)) ],
  )
  widen low high it g missing none_left = tt
  widen low high it g unfinished none_left = none_left

  then_collect :
      (low high fuel : ℕ) (walked : Walked MemoryMapIter)
      → high - low < fuel
      → Tag low high walked
      → Regions low high (elim walked [
        | found it ↦ collect read fuel it
        | missing ↦ missing
        | unfinished ↦ unfinished
      ])
  then_collect low high fuel missing f t = tt
  then_collect low high fuel unfinished f t = t
  then_collect low high fuel (found it) f g =
      widen low high it g (collect read fuel it)
        (collect-Entries fuel it (omega (arith, g.strides)) (omega (arith, g.starts, g.stops)))

  -- Whatever bytes the structure holds, the walk to the memory map and the one over its entries come
  -- to an end, with one round of fuel for each byte of the structure. Where a map is found, the
  -- regions are those of a table with one entry at every so many bytes, at least the 24 of an entry,
  -- that starts at least 24 bytes into the structure and, unless it is empty, ends inside it.
  pub regions-Regions :
      (addr : ℕ) → Regions (addr + 8) (addr + read_u32 read addr) (regions read addr)
  unfolding regions memory_map new
  regions-Regions addr =
      then_collect (addr + 8) (addr + read_u32 read addr) (read_u32 read addr + 1) _ (omega arith) (
        find_tag-Tag (read_u32 read addr + 1) (addr + 8) (addr + read_u32 read addr) (addr + 8)
          (omega arith) (omega arith))
