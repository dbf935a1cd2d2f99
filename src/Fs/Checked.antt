-- ===== src/Fs/Checked.antt =====
-- What the validation of src/fs.rs establishes, and that it never panics.
use ziran_os.Prelude.{
  ℕ, zero, suc, ◌+◌, ◌*◌, ◌/◌, ◌%◌, ◌≤◌, ◌≡◌, ◌≢◌, ◌⊎◌, inl, inr, List, length, max, arith,
}
use ziran_os.Fs.Image.{
  Outcome, ok, panic, Outcome-cases, dirent_len, ent_offset, ent_length, ent_kind, kind_file,
  kind_dir, read_u32_le, checked_add, u32_at, read_u32_le-ok,
}
use ziran_os.Fs.Mount.{validate_entry, validate_entries, validate_dir}

module _ (image : List ℕ) where
  abbrev pub entry_off : ℕ → ℕ
  entry_off base = u32_at image (base + ent_offset)

  abbrev pub entry_len : ℕ → ℕ
  entry_len base = u32_at image (base + ent_length)

  abbrev pub entry_kind : ℕ → ℕ
  entry_kind base = u32_at image (base + ent_kind)

module _ (image : List ℕ) (ceiling : ℕ) where
  -- An entry that passed: its extent lies in the image and below the ceiling, and it is a file or a
  -- directory that passed.
  abbrev pub EntryOk : (ℕ → ℕ → Type 0) → ℕ → Type 0
  EntryOk DirOk base =
      (entry_off image base + entry_len image base ≤ length image)
      × (entry_off image base + entry_len image base ≤ ceiling)
      × ((entry_kind image base ≡ kind_file)
          ⊎ ((entry_kind image base ≡ kind_dir)
              × DirOk (entry_off image base) (entry_len image base)))

  abbrev pub EntriesOk : (ℕ → ℕ → Type 0) → ℕ → ℕ → Type 0
  EntriesOk DirOk zero base = Unit {0}
  EntriesOk DirOk (suc n) base = EntryOk DirOk base × EntriesOk DirOk n (base + dirent_len)

  -- A directory region that passed with so many levels left.
  abbrev pub DirOk : ℕ → ℕ → ℕ → Type 0
  DirOk zero off len = ⊥
  DirOk (suc left) off len =
      (off + len ≤ length image)
      × (len % dirent_len ≡ 0)
      × EntriesOk (DirOk left) (len / dirent_len) off

  -- No panic, and a success means that the region passed.
  pub record Sound (D : ℕ → ℕ → Type 0) (child : ℕ → ℕ → ℕ → Outcome ℕ) : Type 0 where
    pub quiet : (off len mark : ℕ) → child off len mark ≢ panic
    pub holds : (off len mark mark' : ℕ) → child off len mark ≡ ok mark' → D off len

  module _ (D : ℕ → ℕ → Type 0) (child : ℕ → ℕ → ℕ → Outcome ℕ) (s : Sound D child) where
    reads :
        (base : ℕ)
        → base + dirent_len ≤ length image
        → (read_u32_le image (base + ent_offset) ≡ ok (entry_off image base))
          × (read_u32_le image (base + ent_length) ≡ ok (entry_len image base))
          × (read_u32_le image (base + ent_kind) ≡ ok (entry_kind image base))
    reads base h = (
      read_u32_le-ok image (base + ent_offset) (omega arith),
      read_u32_le-ok image (base + ent_length) (omega arith),
      read_u32_le-ok image (base + ent_kind) (omega arith),
    )

    entry-quiet :
        (base mark : ℕ)
        → base + dirent_len ≤ length image
        → validate_entry image ceiling child base mark ≢ panic
    unfolding validate_entry checked_add
    entry-quiet base mark h e =
        ground (arith, reads base h, s.quiet (entry_off image base) (entry_len image base) mark)

    entry-EntryOk :
        (base mark mark' : ℕ)
        → base + dirent_len ≤ length image
        → validate_entry image ceiling child base mark ≡ ok mark'
        → EntryOk D base
    unfolding validate_entry checked_add
    entry-EntryOk base mark mark' h e =
        ground
          (arith, reads base h, s.holds (entry_off image base) (entry_len image base) mark mark')

    entries-quiet :
        (n base mark : ℕ)
        → base + n * dirent_len ≤ length image
        → validate_entries image ceiling child n base mark ≢ panic
    unfolding validate_entries
    entries-quiet zero base mark h e = cc
    entries-quiet (suc n) base mark h e =
        elim (Outcome-cases (validate_entry image ceiling child base mark)) [
          | inl (mark', one) ↦
              entries-quiet n (base + dirent_len) mark' (omega arith) (ground (arith, one))
          | inr (inl (x, one)) ↦ ground (arith, one)
          | inr (inr one) ↦ entry-quiet base mark (omega arith) one
        ]

    entries-EntriesOk :
        (n base mark mark' : ℕ)
        → base + n * dirent_len ≤ length image
        → validate_entries image ceiling child n base mark ≡ ok mark'
        → EntriesOk D n base
    unfolding validate_entries
    entries-EntriesOk zero base mark mark' h e = tt
    entries-EntriesOk (suc n) base mark mark' h e =
        elim (Outcome-cases (validate_entry image ceiling child base mark)) [
          | inl (mid, one) ↦ (
            entry-EntryOk base mark mid (omega arith) one,
            entries-EntriesOk n (base + dirent_len) mid mark' (omega arith) (ground (arith, one)),
          )
          | inr (inl (x, one)) ↦ absurd (ground (arith, one))
          | inr (inr one) ↦ absurd (ground (arith, one))
        ]

  pub dir-Sound : (left : ℕ) → Sound (DirOk left) (validate_dir image ceiling left)
  unfolding validate_dir checked_add
  dir-Sound zero = record { quiet = λ off len mark e. cc; holds = λ off len mark mark' e. cc }
  dir-Sound (suc left) =
      let s = dir-Sound left in
      record {
        quiet = λ off len mark e. ground (
          arith,
          entries-quiet (DirOk left) (validate_dir image ceiling left) s (len / dirent_len) off
              (max mark (off + len)),
        );
        holds = λ off len mark mark' e. ground (
          arith,
          entries-EntriesOk (DirOk left) (validate_dir image ceiling left) s (len / dirent_len) off
              (max mark (off + len)) mark',
        );
      }
