-- ===== src/Memory/Unmap.antt =====
-- `unmap_page` of src/paging.rs undoes a mapping.
use ziran_os.Prelude.{
  ℕ, zero, suc, ◌*◌, ◌/◌, ◌^◌, ◌≤◌, ◌<◌, ◌≡◌, ◌≢◌, refl, ap, sym, subst, ◌∙◌, Bool, true, false,
  ◌&&◌, none, some, List, [], ◌∷◌, leb, All, arith,
}
use ziran_os.Memory.Paging.{
  page_size, present, huge, address, table_index, read_entry, translate_level, translate_from,
}
use ziran_os.Memory.UserWalk.{table_index-page}
use ziran_os.Memory.Mapping.{Mmu, mapped, write_entry, map_inner, answered, unmap_level, unmap_page}
use ziran_os.Memory.MapSteps.{translate-step}
use ziran_os.Memory.MapTranslate.{Leads, way, visited, Distinct, map_inner-Leads}

-- No table comes twice.
abbrev Different : List ℕ → Type 0
Different [] = Unit {0}
Different (t ∷ ts) = All (λ u. t ≢ u) ts × Different ts

module _ (virt : ℕ) where
  -- What unmapping comes to from a level down: the answer true, with no page there, and no other
  -- table changed.
  record Cleared (l table : ℕ) (tables : ℕ → ℕ → ℕ) (tables' : ℕ → ℕ → ℕ) : Type 0 where
    answer : unmap_level virt l table tables ≡ answered true tables'
    others : (u i : ℕ) → All (λ t. u ≢ t) (way tables virt l table) → tables' u i ≡ tables u i
    gone :
        (w : ℕ) → w / page_size ≡ virt / page_size → translate_level tables' l table w ≡ some none

  leaf-Cleared :
      (table : ℕ) (tables : ℕ → ℕ → ℕ)
      → Leads tables virt 0 table
      → Cleared 0 table tables (write_entry tables table (table_index virt 0) 0)
  unfolding unmap_level read_entry write_entry translate_level
  leaf-Cleared table tables (near, p) = record {
    answer = rw (near, p, unmap_level, read_entry) refl;
    others = λ u i f. ground (arith, f.0);
    gone = λ w e.
        let same = table_index-page tables 0 w virt (omega arith) e in
        let zeroed : write_entry tables table (table_index virt 0) 0 table (table_index w 0) ≡ 0 =
          ground (arith, same) in
        rw (near, zeroed, translate_level, read_entry) refl;
  }

  step-Cleared :
      (l table : ℕ) (tables tables' : ℕ → ℕ → ℕ)
      → suc l ≤ 3
      → Leads tables virt (suc l) table
      → huge (tables table (table_index virt (suc l))) ≡ false
      → Different (way tables virt (suc l) table)
      → Cleared l (address (tables table (table_index virt (suc l)))) tables tables'
      → Cleared (suc l) table tables tables'
  unfolding unmap_level read_entry
  step-Cleared l table tables tables' h (near, p, small, rest) not_huge (fresh, different) c =
      let i = table_index virt (suc l) in
      let row = c.others table i fresh in
      record {
        answer = rw (near, p, not_huge, unmap_level, read_entry) c.answer;
        others = λ u j f. c.others u j f.1;
        gone = λ w e.
            translate-step tables' table w i near l (table_index-page tables (suc l) w virt h e)
              (ap present row ∙ p) (ap (λ entry. leb (suc l) 2 && huge entry) row ∙ small)
            ∙ ap (λ a. translate_level tables' l (address a) w) row
            ∙ c.gone w e;
      }

  Leads-Cleared :
      (l table : ℕ) (tables : ℕ → ℕ → ℕ)
      → l ≤ 2
      → Leads tables virt l table
      → Different (way tables virt l table)
      → (tables' : ℕ → ℕ → ℕ) × Cleared l table tables tables'
  Leads-Cleared zero table tables h k d =
      (write_entry tables table (table_index virt 0) 0, leaf-Cleared table tables k)
  Leads-Cleared (suc l) table tables h k d =
      let (tables', c) =
        Leads-Cleared l (address (tables table (table_index virt (suc l)))) tables (omega arith) k.3
          d.1 in
      let low : leb (suc l) 2 ≡ true = ground (arith, h) in
      let not_huge : huge (tables table (table_index virt (suc l))) ≡ false =
        ground (arith, k.2, low) in
      (tables', step-Cleared l table tables tables' (omega arith) k not_huge d c)

-- A page that was mapped can be unmapped: where `map_inner` succeeded and went through four
-- different tables, and the reserved bit of the entry in the PML4 is clear, `unmap_page` answers
-- true, and no byte of the page translates any more, while the tables that the mapping did not go
-- through are as they were.
pub map_inner-unmap_page :
    (root virt phys : ℕ) (writable user_too : Bool) (s s' : Mmu)
    → phys < 2 ^ 52
    → map_inner root virt phys writable user_too s ≡ mapped s'
    → Distinct
        (virt / page_size * page_size)
        user_too
        (visited (virt / page_size * page_size) user_too 3 root s)
    → huge (s'.tables root (table_index (virt / page_size * page_size) 3)) ≡ false
    → (tables : ℕ → ℕ → ℕ) × (unmap_page root virt s'.tables ≡ answered true tables)
      × ((w : ℕ) → w / page_size ≡ virt / page_size → translate_from tables root w ≡ some none)
      × ((u i : ℕ)
          → All (λ t. u ≢ t) (visited (virt / page_size * page_size) user_too 3 root s)
          → tables u i ≡ s'.tables u i)
unfolding unmap_page translate_from
map_inner-unmap_page root virt phys writable user_too s s' small e distinct not_huge =
    let page = virt / page_size * page_size in
    let (k, same) = map_inner-Leads root virt phys writable user_too s s' small e distinct in
    let different : Different (way s'.tables page 3 root) =
      subst (Distinct page user_too) (sym same) distinct in
    let (tables, below) =
      Leads-Cleared page 2 (address (s'.tables root (table_index page 3))) s'.tables (omega arith)
        k.3 different.1 in
    let c = step-Cleared page 2 root s'.tables tables (omega arith) k not_huge different below in
    (
      tables,
      c.answer,
      λ w h. c.gone w (omega (arith, h)),
      λ u i f. c.others u i (subst (All (λ t. u ≢ t)) (sym same) f),
    )
