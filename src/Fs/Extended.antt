-- ===== src/Fs/Extended.antt =====
-- `mount_tier2` of src/fs.rs on an image with more bytes behind it.
use ziran_os.Prelude.{
  ℕ, zero, suc, ◌+◌, ◌/◌, ◌≤◌, ◌≡◌, refl, ap, inl, inr, true, List, [], ◌∷◌, ◌++◌, take, length,
  length-append, max, arith,
}
use ziran_os.Fs.Image.{
  Outcome, ok, Outcome-cases, byte_at, superblock_len, dirent_len, max_depth, read_u16_le,
  read_u32_le, checked_add, slice, checked_mul, ent_offset, ent_length, ent_kind,
}
use ziran_os.Fs.Mount.{
  Fs, Superblock, check_superblock, validate_entry, validate_entries, validate_dir, mount_inner,
  mount_tier2,
}
use ziran_os.Fs.Mounted.{reads}
use ziran_os.Fs.Layers.{bind-ok}

byte_at-append : (xs ys : List ℕ) (i b : ℕ) → byte_at xs i ≡ ok b → byte_at (xs ++ ys) i ≡ ok b
unfolding byte_at
byte_at-append [] ys i b e = absurd (ground arith)
byte_at-append (x ∷ xs) ys zero b e = e
byte_at-append (x ∷ xs) ys (suc i) b e = byte_at-append xs ys i b e

pub take-append : (xs ys : List ℕ) (n : ℕ) → n ≤ length xs → take n (xs ++ ys) ≡ take n xs
take-append xs ys zero h = refl
take-append [] ys (suc n) h = absurd (omega arith)
take-append (x ∷ xs) ys (suc n) h = ap (◌∷◌ x) (take-append xs ys n (omega arith))

module _ (image rest : List ℕ) where
  read_u16_le-append :
      (off v : ℕ) → read_u16_le image off ≡ ok v → read_u16_le (image ++ rest) off ≡ ok v
  unfolding read_u16_le
  read_u16_le-append off v e =
      let (a, one, e1) = bind-ok (byte_at image off) _ v e in
      let (b, two, e2) = bind-ok (byte_at image (off + 1)) _ v e1 in
      rw (byte_at-append image rest off a one) (rw (byte_at-append image rest (off + 1) b two) e2)

  read_u32_le-append :
      (off v : ℕ) → read_u32_le image off ≡ ok v → read_u32_le (image ++ rest) off ≡ ok v
  unfolding read_u32_le
  read_u32_le-append off v e =
      let (a, one, e1) = bind-ok (byte_at image off) _ v e in
      let (b, two, e2) = bind-ok (byte_at image (off + 1)) _ v e1 in
      let (c, three, e3) = bind-ok (byte_at image (off + 2)) _ v e2 in
      let (d, four, e4) = bind-ok (byte_at image (off + 3)) _ v e3 in
      rw (byte_at-append image rest off a one) (
        rw (byte_at-append image rest (off + 1) b two) (
          rw (byte_at-append image rest (off + 2) c three)
            (rw (byte_at-append image rest (off + 3) d four) e4)))

  longer : length image ≤ length (image ++ rest)
  longer = omega (arith, length-append image rest)

  -- Whatever a reader lets pass in the image, it lets pass in the longer one.
  abbrev Passes : (ℕ → ℕ → ℕ → Outcome ℕ) → (ℕ → ℕ → ℕ → Outcome ℕ) → Type 0
  Passes short long =
      (off len mark mark' : ℕ) → short off len mark ≡ ok mark' → long off len mark ≡ ok mark'

  module _ (short long : ℕ → ℕ → ℕ → Outcome ℕ) (p : Passes short long) where
    entry-Passes :
        (base mark mark' : ℕ)
        → validate_entry image (length image) short base mark ≡ ok mark'
        → validate_entry (image ++ rest) (length (image ++ rest)) long base mark ≡ ok mark'
    unfolding validate_entry checked_add
    entry-Passes base mark mark' e =
        let (c_off, one, e1) = bind-ok (read_u32_le image (base + ent_offset)) _ mark' e in
        let (c_len, two, e2) = bind-ok (read_u32_le image (base + ent_length)) _ mark' e1 in
        elim (Outcome-cases (read_u32_le image (base + ent_kind))) [
          | inl (kind, three) ↦
              let off' = read_u32_le-append (base + ent_offset) c_off one in
              let len' = read_u32_le-append (base + ent_length) c_len two in
              let kind' = read_u32_le-append (base + ent_kind) kind three in
              ground (arith, longer, three, off', len', kind', p c_off c_len mark mark')
          | inr (inl (x, three)) ↦ absurd (ground (arith, three))
          | inr (inr three) ↦ absurd (ground (arith, three))
        ]

    entries-Passes :
        (n base mark mark' : ℕ)
        → validate_entries image (length image) short n base mark ≡ ok mark'
        → validate_entries (image ++ rest) (length (image ++ rest)) long n base mark ≡ ok mark'
    unfolding validate_entries
    entries-Passes zero base mark mark' e = e
    entries-Passes (suc n) base mark mark' e =
        let (m, one, left) =
          bind-ok (validate_entry image (length image) short base mark) _ mark' e in
        ground
          (arith, entry-Passes base mark m one, entries-Passes n (base + dirent_len) m mark' left)

  dir-Passes :
      (left : ℕ)
      → Passes
          (validate_dir image (length image) left)
          (validate_dir (image ++ rest) (length (image ++ rest)) left)
  unfolding validate_dir checked_add
  dir-Passes zero off len mark mark' e = absurd (ground (arith, e))
  dir-Passes (suc left) off len mark mark' e = ground (
    arith,
    longer,
    entries-Passes (validate_dir image (length image) left)
        (validate_dir (image ++ rest) (length (image ++ rest)) left) (dir-Passes left)
        (len / dirent_len) off (max mark (off + len)) mark',
  )

  check_superblock-append :
      (sb : Superblock)
      → check_superblock image true ≡ ok sb
      → check_superblock (image ++ rest) true ≡ ok sb
  unfolding check_superblock slice checked_add checked_mul
  check_superblock-append sb e =
      let room : superblock_len ≤ length image = ground (arith, reads image) in
      let (v, declared, data_end, count) = reads image room in
      ground (
        arith,
        longer,
        v,
        declared,
        data_end,
        count,
        read_u16_le-append 4 _ v,
        read_u32_le-append 8 _ declared,
        read_u32_le-append 12 _ data_end,
        read_u16_le-append 6 _ count,
        take-append image rest 4 (omega (arith, room)),
      )

  -- An image that the tier-2 reader mounts, it mounts with any bytes behind it too.
  pub mount_tier2-append :
      (fs : Fs)
      → mount_tier2 image ≡ ok fs
      → mount_tier2 (image ++ rest) ≡ ok (record fs { image = image ++ rest })
  unfolding mount_tier2 mount_inner
  mount_tier2-append fs e =
      let (sb, one, e1) = bind-ok (check_superblock image true) _ fs e in
      let (mark, two, e2) =
        bind-ok
          (validate_dir image (length image) (suc max_depth) superblock_len sb.dir_bytes
            superblock_len)
          _ fs e1 in
      let passes = dir-Passes (suc max_depth) superblock_len sb.dir_bytes superblock_len mark two in
      ground (arith, check_superblock-append sb one, passes, e2)
