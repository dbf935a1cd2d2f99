-- ===== src/Fs/Layers.antt =====
-- The three readers of src/fs.rs compared.
use ziran_os.Prelude.{
  ℕ, zero, suc, ◌+◌, ◌/◌, ◌≤◌, ◌≡◌, inl, inr, true, false, List, length, max, arith,
}
use ziran_os.Fs.Image.{
  Outcome, ok, Outcome-cases, superblock_len, dirent_len, max_depth, read_u32_le, checked_add,
  ◌>>=◌, slice, checked_mul, ent_offset, ent_length, ent_kind,
}
use ziran_os.Fs.Mount.{
  Fs, Superblock, check_superblock, validate_entry, validate_entries, validate_dir, mount_inner,
  mount, mount_loose, mount_tier2,
}
use ziran_os.Fs.Mounted.{check_superblock-ok, reads}

-- A chain that succeeds has a first step that succeeds.
pub bind-ok {ℓ ℓ'} :
    {A : Type ℓ} {B : Type ℓ'} (m : Outcome A) (f : A → Outcome B) (b : B)
    → (m >>= f) ≡ ok b
    → (a : A) × (m ≡ ok a) × (f a ≡ ok b)
bind-ok m f b e = elim (Outcome-cases m) [
  | inl (a, one) ↦ (a, one, ground (arith, one))
  | inr (inl (x, one)) ↦ absurd (ground (arith, one))
  | inr (inr one) ↦ absurd (ground (arith, one))
]

module _ (image : List ℕ) (low high : ℕ) (le : low ≤ high) where
  -- Whatever a reader lets pass, one with a higher ceiling lets pass.
  abbrev Passes : (ℕ → ℕ → ℕ → Outcome ℕ) → (ℕ → ℕ → ℕ → Outcome ℕ) → Type 0
  Passes strict loose =
      (off len mark mark' : ℕ) → strict off len mark ≡ ok mark' → loose off len mark ≡ ok mark'

  entry-Passes :
      (strict loose : ℕ → ℕ → ℕ → Outcome ℕ)
      → Passes strict loose
      → (base mark mark' : ℕ) → validate_entry image low strict base mark ≡ ok mark'
      → validate_entry image high loose base mark ≡ ok mark'
  unfolding validate_entry checked_add
  entry-Passes strict loose p base mark mark' e =
      let (c_off, one, e1) = bind-ok (read_u32_le image (base + ent_offset)) _ mark' e in
      let (c_len, two, e2) = bind-ok (read_u32_le image (base + ent_length)) _ mark' e1 in
      elim (Outcome-cases (read_u32_le image (base + ent_kind))) [
        | inl (kind, three) ↦ ground (arith, one, two, three, p c_off c_len mark mark')
        | inr (inl (x, three)) ↦ absurd (ground (arith, one, two, three))
        | inr (inr three) ↦ absurd (ground (arith, one, two, three))
      ]

  entries-Passes :
      (strict loose : ℕ → ℕ → ℕ → Outcome ℕ)
      → Passes strict loose
      → (n base mark mark' : ℕ) → validate_entries image low strict n base mark ≡ ok mark'
      → validate_entries image high loose n base mark ≡ ok mark'
  unfolding validate_entries
  entries-Passes strict loose p zero base mark mark' e = e
  entries-Passes strict loose p (suc n) base mark mark' e =
      let (m, one, rest) = bind-ok (validate_entry image low strict base mark) _ mark' e in
      ground (
        arith,
        entry-Passes strict loose p base mark m one,
        entries-Passes strict loose p n (base + dirent_len) m mark' rest,
      )

  dir-Passes : (left : ℕ) → Passes (validate_dir image low left) (validate_dir image high left)
  unfolding validate_dir checked_add
  dir-Passes zero off len mark mark' e = absurd (ground (arith, e))
  dir-Passes (suc left) off len mark mark' e = ground (
    arith,
    entries-Passes (validate_dir image low left) (validate_dir image high left) (dir-Passes left)
        (len / dirent_len) off (max mark (off + len)) mark',
  )

trusting :
    (image : List ℕ) (sb : Superblock)
    → check_superblock image false ≡ ok sb
    → check_superblock image true ≡ ok sb
unfolding check_superblock slice checked_add checked_mul
trusting image sb e = ground (arith, reads image)

-- An image that the strict reader mounts, the reader without confinement and the tier-2 reader
-- mount as the same file system.
pub mount-layers :
    (image : List ℕ) (fs : Fs)
    → mount image ≡ ok fs
    → (mount_loose image ≡ ok fs) × (mount_tier2 image ≡ ok fs)
unfolding mount mount_loose mount_tier2 mount_inner
mount-layers image fs e =
    let (sb, one, e1) = bind-ok (check_superblock image false) _ fs e in
    let facts = check_superblock-ok image false sb one in
    let (mark, two, e2) =
      bind-ok
        (validate_dir image sb.data_end (suc max_depth) superblock_len sb.dir_bytes superblock_len)
        _ fs e1 in
    let passes =
      dir-Passes image sb.data_end (length image) (ground (arith, facts)) (suc max_depth)
        superblock_len sb.dir_bytes superblock_len mark two in
    ground (arith, one, trusting image sb one, passes, e2)
