-- ===== src/Fs/Mounted.antt =====
-- What a mount checks, and that it never panics.
use ziran_os.Prelude.{
  ℕ, suc, ◌+◌, ◌*◌, ◌≤◌, ◌≡◌, ◌≢◌, inl, inr, refl, ap, subst, Bool, List, if◌then◌else◌, length,
  get_or, suc, arith,
}
use mathlib.Core.Path.{subst₂}
use ziran_os.Fs.Image.{
  ok, panic, Outcome-cases, superblock_len, dirent_len, max_depth, slice, read_u16_le, read_u32_le,
  checked_add, checked_mul, u32_at, read_u32_le-ok, read_u16_le-ok,
}
use ziran_os.Fs.Mount.{Fs, validate_dir, Superblock, check_superblock, mount_inner}
use ziran_os.Fs.Checked.{DirOk, dir-Sound}

abbrev pub data_end_of : List ℕ → ℕ
data_end_of image = u32_at image 0x0c

-- The ceiling on extents that a reader enforces.
abbrev pub ceiling_of : Bool → List ℕ → ℕ
ceiling_of confine image = if confine then data_end_of image else length image

-- What a mount that succeeds has checked.
pub record Mounted (confine : Bool) (fs : Fs) : Type 0 where
  pub range : (superblock_len ≤ data_end_of fs.image) × (data_end_of fs.image ≤ length fs.image)
  pub tree :
      DirOk fs.image
        (ceiling_of confine fs.image)
        (suc max_depth)
        superblock_len
        (fs.file_count * dirent_len)

abbrev count_at : List ℕ → ℕ
count_at image = get_or image 6 0 + 256 * get_or image 7 0

-- The reads of the superblock, where there is one.
pub reads :
    (image : List ℕ)
    → superblock_len ≤ length image
    → (read_u16_le image 0x04 ≡ ok (get_or image 4 0 + 256 * get_or image 5 0))
      × (read_u32_le image 0x08 ≡ ok (u32_at image 0x08))
      × (read_u32_le image 0x0c ≡ ok (u32_at image 0x0c))
      × (read_u16_le image 0x06 ≡ ok (count_at image))
reads image h = (
  read_u16_le-ok image 4 (omega arith),
  read_u32_le-ok image 8 (omega arith),
  read_u32_le-ok image 12 (omega arith),
  read_u16_le-ok image 6 (omega arith),
)

check_superblock-ne-panic : (image : List ℕ) (trust : Bool) → check_superblock image trust ≢ panic
unfolding check_superblock slice checked_add checked_mul
check_superblock-ne-panic image trust e = ground (arith, reads image)

pub check_superblock-ok :
    (image : List ℕ) (trust : Bool) (sb : Superblock)
    → check_superblock image trust ≡ ok sb
    → (superblock_len ≤ data_end_of image)
      × (data_end_of image ≤ length image)
      × (sb.data_end ≡ data_end_of image)
      × (sb.dir_bytes ≡ sb.file_count * dirent_len)
unfolding check_superblock slice checked_add checked_mul
check_superblock-ok image trust sb e = ground (arith, reads image)

-- No image, however malformed, makes any of the three readers panic.
pub mount_inner-ne-panic :
    (image : List ℕ) (confine trust : Bool) → mount_inner image confine trust ≢ panic
unfolding mount_inner
mount_inner-ne-panic image confine trust e = elim (Outcome-cases (check_superblock image trust)) [
  | inl (sb, one) ↦
      let ceiling = if confine then sb.data_end else length image in
      ground (
        arith,
        one,
        (dir-Sound image ceiling (suc max_depth)).quiet superblock_len sb.dir_bytes superblock_len,
      )
  | inr (inl (x, one)) ↦ ground (arith, one)
  | inr (inr one) ↦ check_superblock-ne-panic image trust one
]

module _ (image : List ℕ) (confine trust : Bool) (sb : Superblock) where
  Mounted-tree :
      (mark : ℕ)
      → check_superblock image trust ≡ ok sb
      → validate_dir image
          (if confine then sb.data_end else length image)
          (suc max_depth)
          superblock_len
          sb.dir_bytes
          superblock_len
        ≡ ok mark
      → Mounted confine (record { image = image; file_count = sb.file_count })
  Mounted-tree mark one two =
      let facts = check_superblock-ok image trust sb one in
      let ceiling = if confine then sb.data_end else length image in
      let s = dir-Sound image ceiling (suc max_depth) in
      let passed = s.holds superblock_len sb.dir_bytes superblock_len mark two in
      record {
        range = (facts.0, facts.1);
        tree =
            subst₂ (λ top bytes. DirOk image top (suc max_depth) superblock_len bytes)
              (ap (λ (n : ℕ). if confine then n else length image) facts.2) facts.3 passed;
      }

-- What every reader has checked of an image that it mounts.
pub mount_inner-Mounted :
    (image : List ℕ) (confine trust : Bool) (fs : Fs)
    → mount_inner image confine trust ≡ ok fs
    → Mounted confine fs × (fs.image ≡ image)
unfolding mount_inner
mount_inner-Mounted image confine trust fs e = elim (Outcome-cases (check_superblock image trust)) [
  | inl (sb, one) ↦
      elim (Outcome-cases (
        validate_dir image (if confine then sb.data_end else length image) (suc max_depth)
          superblock_len sb.dir_bytes superblock_len)) [
            | inl (mark, two) ↦
                let mounted : Fs = record { image = image; file_count = sb.file_count } in
                let same : mounted ≡ fs = ground (arith, one, two) in
                subst (λ f. Mounted confine f × (f.image ≡ image)) same
                  (Mounted-tree image confine trust sb mark one two, refl)
            | inr (inl (x, two)) ↦ absurd (ground (arith, one, two))
            | inr (inr two) ↦ absurd (ground (arith, one, two))
          ]
  | inr (inl (x, one)) ↦ absurd (ground (arith, one))
  | inr (inr one) ↦ absurd (ground (arith, one))
]
