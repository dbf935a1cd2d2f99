-- ===== src/FwCfg/Directory.antt =====
-- read_file of src/fw_cfg.rs against the directory that the device publishes.
use ziran_os.Prelude.{
  ℕ, zero, suc, ◌-◌, ◌/◌, ◌%◌, ◌≤◌, ◌<◌, ◌≡◌, ◌≢◌, refl, sym, ap, ◌∙◌, Option, none, some, List, [],
  ◌∷◌, ◌++◌, length, All, same, take, drop, subst, take-append-drop, replicate, min, if◌then◌else◌,
  length-append, length-replicate, length-take, Bool-cases, inl, inr, arith,
}
use ziran_os.FwCfg.{
  dir_name_len, file_dir, max_entries, max_item_bytes, Ports, before_nul, data_bytes, be_u32,
  be_u16, read_entries, read_file,
}
use ziran_os.FwCfg.Device.{Documented, next_byte, data_bytes_lem}

-- An entry of the directory: the size of an item, its selector and its name.
pub record Entry : Type 0 where
  pub size : ℕ
  pub sel : ℕ
  pub name : List ℕ

abbrev pub be32 : ℕ → List ℕ
be32 n = n / 0x1000000 ∷ n / 0x10000 % 0x100 ∷ n / 0x100 % 0x100 ∷ n % 0x100 ∷ []

abbrev pub be16 : ℕ → List ℕ
be16 n = n / 0x100 ∷ n % 0x100 ∷ []

abbrev pub padded : List ℕ → List ℕ
padded name = name ++ replicate (dir_name_len - length name) 0

-- The 64 bytes of an entry, before what follows it, and the directory: a count and the entries.
unfoldable pub print_entry : Entry → List ℕ → List ℕ
print_entry e rest = be32 e.size ++ (be16 e.sel ++ (be16 0 ++ (padded e.name ++ rest)))

unfoldable pub print_entries : List Entry → List ℕ
print_entries [] = []
print_entries (e ∷ es) = print_entry e (print_entries es)

unfoldable pub print_dir : List Entry → List ℕ
unfolding print_entries
print_dir es = be32 (length es) ++ print_entries es

-- What an item's bytes and its entry satisfy: the fields fit, the name has no NUL, and the size is
-- the item's.
pub record IsEntry (items : ℕ → List ℕ) (e : Entry) : Type 0 where
  pub size_lem : e.size ≡ length (items e.sel)
  pub size_limit : e.size < 0x100000000
  pub sel_limit : e.sel < 0x10000
  pub name_limit : length e.name ≤ dir_name_len
  pub no_nul : All (λ c. c ≢ 0) e.name

-- The item of the first entry with a name, up to the cap on its size.
unfoldable pub item_named : (ℕ → List ℕ) → List ℕ → List Entry → Option (List ℕ)
item_named items name [] = none
item_named items name (e ∷ es) =
    if same e.name name then some (take max_item_bytes (items e.sel)) else item_named items name es

before_nul-padded :
    (name : List ℕ) (n : ℕ) → All (λ c. c ≢ 0) name → before_nul (name ++ replicate n 0) ≡ name
unfolding before_nul
before_nul-padded [] zero all = refl
before_nul-padded [] (suc n) all = refl
before_nul-padded (c ∷ name) n (ne, all) = ground (arith, before_nul-padded name n all, ne)

length-padded : (name : List ℕ) → length name ≤ dir_name_len → length (padded name) ≡ dir_name_len
length-padded name h = omega (
  arith,
  length-append name (replicate (dir_name_len - length name) 0),
  length-replicate {A = ℕ} (dir_name_len - length name) 0,
)

module _ {S : Type 0} (ports : Ports S) (items : ℕ → List ℕ) (d : Documented ports items) where
  be_u32_lem :
      (n : ℕ) (rest : List ℕ) (s : S)
      → n < 0x100000000
      → d.remaining s ≡ be32 n ++ rest
      → ((be_u32 ports s).0 ≡ n) × (d.remaining (be_u32 ports s).1 ≡ rest)
  unfolding be_u32
  be_u32_lem n rest s h e =
      let s1 = (ports.data_byte s).1 in
      let s2 = (ports.data_byte s1).1 in
      let s3 = (ports.data_byte s2).1 in
      let (a0, e0) = next_byte ports items d s (n / 0x1000000) _ e in
      let (a1, e1) = next_byte ports items d s1 (n / 0x10000 % 0x100) _ e0 in
      let (a2, e2) = next_byte ports items d s2 (n / 0x100 % 0x100) _ e1 in
      let (a3, e3) = next_byte ports items d s3 (n % 0x100) rest e2 in
      (omega (arith, a0, a1, a2, a3), e3)

  be_u16_lem :
      (n : ℕ) (rest : List ℕ) (s : S)
      → d.remaining s ≡ be16 n ++ rest
      → ((be_u16 ports s).0 ≡ n) × (d.remaining (be_u16 ports s).1 ≡ rest)
  unfolding be_u16
  be_u16_lem n rest s e =
      let s1 = (ports.data_byte s).1 in
      let (a0, e0) = next_byte ports items d s (n / 0x100) _ e in
      let (a1, e1) = next_byte ports items d s1 (n % 0x100) rest e0 in (omega (arith, a0, a1), e1)

  -- Of an item no more is read than it holds.
  item_lem :
      (e : Entry) (s : S)
      → IsEntry items e
      → (data_bytes ports (min e.size max_item_bytes) (ports.select e.sel s)).0
        ≡ take max_item_bytes (items e.sel)
  item_lem e s i =
      let item = items e.sel in
      let bs = take max_item_bytes item in
      let start = ports.select e.sel s in
      let all : d.remaining start ≡ bs ++ drop max_item_bytes item =
        d.remaining-select e.sel s ∙ sym (take-append-drop max_item_bytes item) in
      let count : length bs ≡ min e.size max_item_bytes =
        omega (arith, length-take max_item_bytes item, i.size_lem) in
      subst (λ n. (data_bytes ports n start).0 ≡ bs) count
        (data_bytes_lem ports items d bs (drop max_item_bytes item) start all).0

  read_entries-item_named :
      (name : List ℕ) (es : List Entry) (s : S)
      → All (IsEntry items) es
      → d.remaining s ≡ print_entries es
      → (read_entries ports (length es) name s).0 ≡ item_named items name es
  unfolding read_entries item_named print_entries print_entry
  read_entries-item_named name [] s all e = refl
  read_entries-item_named name (x ∷ es) s (i, all) e =
      let (size, left) = be_u32_lem x.size _ s i.size_limit e in
      let s1 = (be_u32 ports s).1 in
      let (sel, left1) = be_u16_lem x.sel _ s1 left in
      let s2 = (be_u16 ports s1).1 in
      let (reserved, left2) = be_u16_lem 0 _ s2 left1 in
      let s3 = (be_u16 ports s2).1 in
      let s4 = (data_bytes ports dir_name_len s3).1 in
      let (raw, left3) =
        subst
          (λ n.
            ((data_bytes ports n s3).0 ≡ padded x.name)
            × (d.remaining (data_bytes ports n s3).1 ≡ print_entries es))
          (length-padded x.name i.name_limit)
          (data_bytes_lem ports items d (padded x.name) (print_entries es) s3 left2) in
      let named : before_nul (data_bytes ports dir_name_len s3).0 ≡ x.name =
        ap before_nul raw ∙ before_nul-padded x.name (dir_name_len - length x.name) i.no_nul in
      elim (Bool-cases (same x.name name)) [
        | inl t ↦ rw (named, t) (ap some (rw (size, sel) (item_lem x s4 i)))
        | inr f ↦ rw (named, f) (read_entries-item_named name es s4 all left3)
      ]

-- Where the device publishes a directory of at most 4096 entries, each with the size of its item,
-- reading a name gives the item of the first entry with that name, up to 64 KiB, and nothing where
-- there is none.
pub read_file-item_named :
    {S : Type 0} (ports : Ports S) (items : ℕ → List ℕ) (es : List Entry) (name : List ℕ) (s : S)
    → Documented ports items
    → items file_dir ≡ print_dir es
    → length es ≤ max_entries
    → All (IsEntry items) es
    → (read_file ports name s).0 ≡ item_named items name es
unfolding read_file print_dir max_entries
read_file-item_named ports items es name s d dir few all =
    let start = ports.select file_dir s in
    let (count, left) =
      be_u32_lem ports items d (length es) (print_entries es) start (omega (arith, few))
        (d.remaining-select file_dir s ∙ dir) in
    let bounded : min (be_u32 ports start).0 max_entries ≡ length es = omega (arith, count, few) in
    rw (bounded, read_file)
      (read_entries-item_named ports items d name es (be_u32 ports start).1 all left)
