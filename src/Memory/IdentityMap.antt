-- ===== src/Memory/IdentityMap.antt =====
-- The first address space of src/paging.rs is the identity on the first GiB.
use ziran_os.Prelude.{
  ℕ, zero, suc, ◌+◌, ◌*◌, ◌/◌, ◌%◌, ◌^◌, ◌≤◌, ◌<◌, ◌≡◌, ◌≢◌, inl, inr, refl, ap, ◌∙◌, true, false,
  ◌&&◌, none, some, ◌==◌, ltb, leb, if◌then◌else◌, Bool-cases, arith,
}
use ziran_os.Memory.Paging.{
  identity_limit, present, huge, address, table_index, read_entry, translate_level, translate_from,
}
use ziran_os.Memory.Mapping.{write_entry, zero_frame, flag_bits}
use ziran_os.Memory.AddressSpace.{huge_stride, huge_flags, fill_pd}

fill_pd_lem :
    (pd n : ℕ) (tables : ℕ → ℕ → ℕ) (t i : ℕ)
    → fill_pd pd n tables t i ≡ (
        if t == pd
        then (if ltb i n then i * huge_stride + huge_flags else tables t i)
        else tables t i)
unfolding fill_pd write_entry
fill_pd_lem pd zero tables t i = ground arith
fill_pd_lem pd (suc n) tables t i = ground (arith, fill_pd_lem pd n tables t i)

-- The steps of the walk, at an entry that is known.
module _ (tables : ℕ → ℕ → ℕ) (table w entry : ℕ) (near : ltb table identity_limit ≡ true) where
  translate-huge :
      tables table (table_index w 1) ≡ entry
      → present entry ≡ true
      → huge entry ≡ true
      → translate_level tables 1 table w
        ≡ some (some (address entry / 2 ^ 21 * 2 ^ 21 + w % 2 ^ 21))
  unfolding translate_level read_entry
  translate-huge e p h = rw (near, e, p, e, h, e, translate_level, read_entry) refl

  translate-next :
      (l : ℕ)
      → tables table (table_index w (suc l)) ≡ entry
      → present entry ≡ true
      → (leb (suc l) 2 && huge entry) ≡ false
      → translate_level tables (suc l) table w ≡ translate_level tables l (address entry) w
  unfolding translate_level read_entry
  translate-next l e p h = rw (near, e, p, e, h, e, translate_level, read_entry) refl

  translate-absent :
      (l : ℕ)
      → tables table (table_index w (suc l)) ≡ entry
      → present entry ≡ false
      → translate_level tables (suc l) table w ≡ some none
  unfolding translate_level read_entry
  translate-absent l e p = rw (near, e, p, translate_level, read_entry) refl

-- Three tables in the identity map, each in its own frame.
pub record Roots (pml4 pdpt pd : ℕ) : Type 0 where
  pub pml4_near : pml4 < identity_limit
  pub pdpt_near : pdpt < identity_limit
  pub pd_near : pd < identity_limit
  pub pdpt_aligned : pdpt % 4096 ≡ 0
  pub pd_aligned : pd % 4096 ≡ 0
  pub pml4-ne-pdpt : pml4 ≢ pdpt
  pub pml4-ne-pd : pml4 ≢ pd
  pub pdpt-ne-pd : pdpt ≢ pd

-- The entries that `build_address_space` writes, over tables that it zeroed.
abbrev pub built : (ℕ → ℕ → ℕ) → ℕ → ℕ → ℕ → ℕ → ℕ → ℕ
built tables pml4 pdpt pd =
    write_entry
      (write_entry (fill_pd pd 512 (zero_frame (zero_frame (zero_frame tables pml4) pdpt) pd)) pdpt
        0 (pd + flag_bits true false))
      pml4 0 (pdpt + flag_bits true false)

module _ (tables : ℕ → ℕ → ℕ) (pml4 pdpt pd : ℕ) (r : Roots pml4 pdpt pd) where
  built-pml4 : (i : ℕ) → built tables pml4 pdpt pd pml4 i ≡ (if i == 0 then pdpt + 3 else 0)
  unfolding write_entry zero_frame
  built-pml4 i = ground (
    arith,
    fill_pd_lem pd 512 (zero_frame (zero_frame (zero_frame tables pml4) pdpt) pd) pml4 i,
    r.pml4-ne-pdpt,
    r.pml4-ne-pd,
  )

  built-pdpt : (i : ℕ) → built tables pml4 pdpt pd pdpt i ≡ (if i == 0 then pd + 3 else 0)
  unfolding write_entry zero_frame
  built-pdpt i = ground (
    arith,
    fill_pd_lem pd 512 (zero_frame (zero_frame (zero_frame tables pml4) pdpt) pd) pdpt i,
    r.pml4-ne-pdpt,
    r.pdpt-ne-pd,
  )

  built-pd : (i : ℕ) → i < 512 → built tables pml4 pdpt pd pd i ≡ i * huge_stride + huge_flags
  unfolding write_entry zero_frame
  built-pd i h = ground (
    arith,
    fill_pd_lem pd 512 (zero_frame (zero_frame (zero_frame tables pml4) pdpt) pd) pd i,
    r.pml4-ne-pd,
    r.pdpt-ne-pd,
    h,
  )

  -- Below 1 GiB each address is its own translation.
  pub identity :
      (w : ℕ)
      → w < identity_limit
      → translate_from (built tables pml4 pdpt pd) pml4 w ≡ some (some w)
  unfolding translate_from table_index
  identity w h =
      let t = built tables pml4 pdpt pd in
      let i = w / 2 ^ 21 % 512 in
      let first : table_index w 3 ≡ 0 = omega arith in
      let second : table_index w 2 ≡ 0 = omega arith in
      let third : table_index w 1 ≡ i = refl in
      let to_pdpt : address (pdpt + 3) ≡ pdpt = omega (arith, r.pdpt_near, r.pdpt_aligned) in
      let to_pd : address (pd + 3) ≡ pd = omega (arith, r.pd_near, r.pd_aligned) in
      translate-next t pml4 w (pdpt + 3) (ground (arith, r.pml4_near)) 2
        (ap (λ k. t pml4 k) first ∙ built-pml4 0) (ground (arith, r.pdpt_aligned)) refl
      ∙ ap (λ k. translate_level t 2 k w) to_pdpt
      ∙ translate-next t pdpt w (pd + 3) (ground (arith, r.pdpt_near)) 1
          (ap (λ k. t pdpt k) second ∙ built-pdpt 0) (ground (arith, r.pd_aligned))
          (ground (arith, r.pd_aligned))
      ∙ ap (λ k. translate_level t 1 k w) to_pd
      ∙ translate-huge t pd w (i * huge_stride + huge_flags) (ground (arith, r.pd_near))
          (built-pd i (omega arith)) (ground arith) (ground arith)
      ∙ ap (λ p. some (some p)) (omega (arith, h))

  -- From there to the end of the lower half nothing is mapped.
  pub unmapped :
      (w : ℕ)
      → identity_limit ≤ w
      → w < 2 ^ 47
      → translate_from (built tables pml4 pdpt pd) pml4 w ≡ some none
  unfolding translate_from table_index
  unmapped w low high =
      let t = built tables pml4 pdpt pd in
      elim (Bool-cases (table_index w 3 == 0)) [
        | inr far ↦
            translate-absent t pml4 w 0 (ground (arith, r.pml4_near)) 2
              (built-pml4 (table_index w 3) ∙ ground (arith, far)) refl
        | inl near ↦
            let first : table_index w 3 ≡ 0 = ground (arith, near) in
            let to_pdpt : address (pdpt + 3) ≡ pdpt = omega (arith, r.pdpt_near, r.pdpt_aligned) in
            translate-next t pml4 w (pdpt + 3) (ground (arith, r.pml4_near)) 2
              (ap (λ k. t pml4 k) first ∙ built-pml4 0) (ground (arith, r.pdpt_aligned)) refl
            ∙ ap (λ k. translate_level t 2 k w) to_pdpt
            ∙ translate-absent t pdpt w 0 (ground (arith, r.pdpt_near)) 1
                (built-pdpt (table_index w 2) ∙ ground (arith, first, low, high)) refl
      ]
