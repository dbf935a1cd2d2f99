-- ===== src/Memory/MapTranslate.antt =====
-- A page that src/paging.rs maps translates to its frame.
use ziran_os.Prelude.{
  ℕ, zero, suc, ◌+◌, ◌*◌, ◌/◌, ◌%◌, ◌^◌, ◌≤◌, ◌<◌, ◌≡◌, ◌≢◌, inl, inr, refl, ap, sym, subst, ◌∙◌,
  Bool, true, false, ◌&&◌, some, List, [], ◌∷◌, ==_iff, ltb, leb, All, Bool-cases, arith,
}
use ziran_os.Memory.Paging.{
  page_size, identity_limit, present, huge, address, table_index, translate_level, translate_from,
}
use ziran_os.Memory.UserWalk.{table_index-page}
use ziran_os.Memory.Mapping.{
  Mmu, Level, next, no_level, wild, Mapped, mapped, failed, stopped, write_entry, flag_bits,
  one_level, map_level, map_inner,
}
use ziran_os.Memory.MapSteps.{
  translate-leaf, translate-step, flag_bits-odd, flag_bits-le, Stepped, Ok, one_level-Ok,
}

-- From a level down the entries for an address lead to a page of 4 KiB, through these tables.
abbrev pub Leads : (ℕ → ℕ → ℕ) → ℕ → ℕ → ℕ → Type 0
Leads tables virt zero table =
    (ltb table identity_limit ≡ true) × (present (tables table (table_index virt 0)) ≡ true)
Leads tables virt (suc l) table =
    let entry = tables table (table_index virt (suc l)) in
    (ltb table identity_limit ≡ true)
    × (present entry ≡ true)
    × ((leb (suc l) 2 && huge entry) ≡ false)
    × Leads tables virt l (address entry)

abbrev pub way : (ℕ → ℕ → ℕ) → ℕ → ℕ → ℕ → List ℕ
way tables virt zero table = table ∷ []
way tables virt (suc l) table =
    table ∷ way tables virt l (address (tables table (table_index virt (suc l))))

module _ (virt : ℕ) (user_too : Bool) where
  -- The tables that the rounds go through.
  unfoldable pub visited : ℕ → ℕ → Mmu → List ℕ
  visited zero table s = table ∷ []
  visited (suc l) table s = table ∷ elim (one_level virt user_too (suc l) table s) [
    | next t s' ↦ visited l t s'
    | no_level e s' ↦ []
    | wild ↦ []
  ]

  abbrev Fresh : ℕ → List ℕ → Type 0
  Fresh u = All (λ t. u ≢ t)

  abbrev pub Distinct : List ℕ → Type 0
  Distinct [] = Unit {0}
  Distinct (t ∷ ts) = Fresh t ts × Distinct ts

  Fresh-head : (u l t : ℕ) (s : Mmu) → Fresh u (visited l t s) → u ≢ t
  unfolding visited
  Fresh-head u zero t s f = f.0
  Fresh-head u (suc l) t s f = f.0

  module _ (writable : Bool) (phys : ℕ) (small : phys < 2 ^ 52) where
    -- A mapping that succeeds, from a level down.
    record Done (l table : ℕ) (s : Mmu) (tables : ℕ → ℕ → ℕ) : Type 0 where
      others : (u i : ℕ) → Fresh u (visited l table s) → tables u i ≡ s.tables u i
      leads : Distinct (visited l table s) → Leads tables virt l table
      same_way : Distinct (visited l table s) → way tables virt l table ≡ visited l table s
      translates :
          (w : ℕ)
          → w / page_size ≡ virt / page_size
          → Distinct (visited l table s)
          → translate_level tables l table w
            ≡ some (some (phys / page_size * page_size + w % page_size))

    abbrev Ends : ℕ → ℕ → Mmu → Mapped → Type 0
    Ends l table s (mapped s') = Done l table s s'.tables
    Ends l table s _ = Unit {0}

    leaf-Ends :
        (table : ℕ) (s : Mmu)
        → Ends zero table s (map_level virt user_too writable phys zero table s)
    unfolding map_level visited write_entry
    leaf-Ends table s = elim (Bool-cases (ltb table identity_limit)) [
      | inr far ↦ rw (far, map_level) tt
      | inl near ↦
          rw (near, map_level)
            (record {
              others = λ u i f. ground (arith, f.0);
              leads = λ d.
                  let k = flag_bits writable user_too in
                  let leaf = phys / page_size * page_size + k in
                  let here : write_entry s.tables table (table_index virt 0) leaf table
                        (table_index virt 0)
                      ≡ leaf =
                    ground arith in
                  let odd = flag_bits-odd writable user_too in
                  (near, ap present here ∙ (==_iff (leaf % 2) 1).1 (omega (arith, odd)));
              same_way = λ d. refl;
              translates = λ w e d.
                  let i = table_index virt 0 in
                  let k = flag_bits writable user_too in
                  let leaf = phys / page_size * page_size + k in
                  let T = write_entry s.tables table i leaf in
                  let here : T table i ≡ leaf = ground arith in
                  let odd = flag_bits-odd writable user_too in
                  let le = flag_bits-le writable user_too in
                  let p : present leaf ≡ true = (==_iff (leaf % 2) 1).1 (omega (arith, odd)) in
                  let frame : address leaf ≡ phys / page_size * page_size =
                    omega (arith, le, small) in
                  translate-leaf T table w i near (table_index-page T 0 w virt (omega arith) e)
                    (ap present here ∙ p)
                  ∙ ap (λ n. some (some (n + w % page_size))) (ap address here ∙ frame);
            })
    ]

    -- What one round and the rest come to together.
    one_more :
        (l table : ℕ) (s : Mmu) (t : ℕ) (s' : Mmu) (tables : ℕ → ℕ → ℕ)
        → suc l ≤ 3
        → one_level virt user_too (suc l) table s ≡ next t s'
        → Stepped virt user_too (suc l) table s t s'
        → Done l t s' tables
        → Done (suc l) table s tables
    unfolding visited
    one_more l table s t s' tables h q o d =
        let path : visited (suc l) table s ≡ table ∷ visited l t s' = rw (q, visited) refl in
        record {
          leads = λ distinct.
              let (fresh, rest) = subst Distinct path distinct in
              let row = d.others table (table_index virt (suc l)) fresh in
              (
                o.near,
                ap present row ∙ o.is_present,
                ap (λ entry. leb (suc l) 2 && huge entry) row ∙ o.is_small,
                subst (Leads tables virt l) (sym (ap address row ∙ o.leads)) (d.leads rest),
              );
          same_way = λ distinct.
              let (fresh, rest) = subst Distinct path distinct in
              let row = d.others table (table_index virt (suc l)) fresh in
              ap (◌∷◌ table) (ap (way tables virt l) (ap address row ∙ o.leads) ∙ d.same_way rest)
              ∙ sym path;
          others = λ u i f.
              let (apart, fresh) = subst (Fresh u) path f in
              d.others u i fresh ∙ o.others u i apart (Fresh-head u l t s' fresh);
          translates = λ w e distinct.
              let (fresh, rest) = subst Distinct path distinct in
              let i = table_index virt (suc l) in
              let row = d.others table i fresh in
              translate-step tables table w i o.near l (table_index-page tables (suc l) w virt h e)
                (ap present row ∙ o.is_present)
                (ap (λ entry. leb (suc l) 2 && huge entry) row ∙ o.is_small)
              ∙ ap (λ a. translate_level tables l a w) (ap address row ∙ o.leads)
              ∙ d.translates w e rest;
        }

    by_mapped :
        (l table : ℕ) (s : Mmu) (t : ℕ) (s' : Mmu)
        → suc l ≤ 3
        → one_level virt user_too (suc l) table s ≡ next t s'
        → Stepped virt user_too (suc l) table s t s'
        → (m : Mapped) → Ends l t s' m
        → Ends (suc l) table s m
    by_mapped l table s t s' h q o (mapped s'') d = one_more l table s t s' s''.tables h q o d
    by_mapped l table s t s' h q o (failed e s'') d = tt
    by_mapped l table s t s' h q o stopped d = tt

    by_level :
        (l table : ℕ) (s : Mmu)
        → suc l ≤ 3
        → ((t : ℕ) (s' : Mmu) → Ends l t s' (map_level virt user_too writable phys l t s'))
        → (level : Level) → one_level virt user_too (suc l) table s ≡ level
        → Ok virt user_too (suc l) table s level
        → Ends (suc l) table s (elim level [
          | next t s' ↦ map_level virt user_too writable phys l t s'
          | no_level e s' ↦ failed e s'
          | wild ↦ stopped
        ])
    by_level l table s h rest (next t s') q o =
        by_mapped l table s t s' h q o (map_level virt user_too writable phys l t s') (rest t s')
    by_level l table s h rest (no_level e s') q o = tt
    by_level l table s h rest wild q o = tt

    map_level-Ends :
        (l table : ℕ) (s : Mmu)
        → l ≤ 3
        → Ends l table s (map_level virt user_too writable phys l table s)
    unfolding map_level
    map_level-Ends zero table s h = leaf-Ends table s
    map_level-Ends (suc l) table s h =
        by_level l table s h (λ t s'. map_level-Ends l t s' (omega arith))
          (one_level virt user_too (suc l) table s) refl
          (one_level-Ok virt user_too (suc l) table s)

-- Where `map_inner` succeeds and the tables that it goes through are four different ones, every byte
-- of the page of `virt` translates to the byte at the same place of the frame of `phys`, which lies
-- below 2^52. The tables that are missing may come from the allocator, and entries on the way that
-- were closed to the user may be opened.
pub map_inner-translate_from :
    (root virt phys : ℕ) (writable user_too : Bool) (s s' : Mmu)
    → phys < 2 ^ 52
    → map_inner root virt phys writable user_too s ≡ mapped s'
    → Distinct
        (virt / page_size * page_size)
        user_too
        (visited (virt / page_size * page_size) user_too 3 root s)
    → (w : ℕ) → w / page_size ≡ virt / page_size
    → translate_from s'.tables root w ≡ some (some (phys / page_size * page_size + w % page_size))
unfolding map_inner translate_from
map_inner-translate_from root virt phys writable user_too s s' small e distinct w here =
    let page = virt / page_size * page_size in
    let whole : Ends page user_too writable phys small 3 root s (mapped s') =
      subst (Ends page user_too writable phys small 3 root s) e
        (map_level-Ends page user_too writable phys small 3 root s (omega arith)) in
    whole.translates w (omega (arith, here)) distinct

-- The tables then lead to that page, and are the ones that the mapping went through.
pub map_inner-Leads :
    (root virt phys : ℕ) (writable user_too : Bool) (s s' : Mmu)
    → phys < 2 ^ 52
    → map_inner root virt phys writable user_too s ≡ mapped s'
    → Distinct
        (virt / page_size * page_size)
        user_too
        (visited (virt / page_size * page_size) user_too 3 root s)
    → Leads s'.tables (virt / page_size * page_size) 3 root
      × (way s'.tables (virt / page_size * page_size) 3 root
          ≡ visited (virt / page_size * page_size) user_too 3 root s)
unfolding map_inner
map_inner-Leads root virt phys writable user_too s s' small e distinct =
    let page = virt / page_size * page_size in
    let whole : Ends page user_too writable phys small 3 root s (mapped s') =
      subst (Ends page user_too writable phys small 3 root s) e
        (map_level-Ends page user_too writable phys small 3 root s (omega arith)) in
    (whole.leads distinct, whole.same_way distinct)
