-- ===== src/Fs/Safe.antt =====
-- After a successful mount, no path makes the file system panic, and no file reaches past the
-- ceiling of the reader.
use ziran_os.Prelude.{
  ℕ, zero, suc, ◌+◌, ◌-◌, ◌*◌, ◌/◌, ◌≤◌, ◌≡◌, ◌⊎◌, inl, inr, refl, ap, Bool, Option, none, some,
  List, [], ◌∷◌, ◌==◌, same, length, take, drop, All, Bool-cases, arith,
}
use ziran_os.Fs.Image.{
  FsError, not_found, not_a_directory, is_a_directory, Outcome, ok, err, dirent_len, name_len,
  ent_offset, ent_length, ent_kind, kind_dir, max_depth, slice, read_u32_le-ok,
}
use ziran_os.Fs.Mount.{Fs, mount_inner}
use ziran_os.Fs.Checked.{DirOk, EntriesOk, EntryOk, entry_off, entry_len, entry_kind}
use ziran_os.Fs.Mounted.{ceiling_of, mount_inner-Mounted}
use ziran_os.Fs.Resolve.{
  Node, file, dir, DirEntry, entry_name, node_at, find_child_from, find_child, descend,
  resolve_from, root, resolve, entry_at, entries_from, list_node, list_dir, read_node, read_path,
  split_path,
}

-- A call that returns a value with a property, or an `Err`, and so does not panic.
abbrev pub Returns {ℓ} : {A : Type ℓ} → (A → Type 0) → Outcome A → Type ℓ
Returns {A} P r = ((a : A) × (r ≡ ok a) × P a) ⊎ ((e : FsError) × (r ≡ err e))

module _ (decode : List ℕ → List ℕ) (fs : Fs) (ceiling : ℕ) where
  -- Where a node of a mounted image may lie.
  abbrev pub NodeOk : Node → Type 0
  NodeOk (file off len) = (off + len ≤ length fs.image) × (off + len ≤ ceiling)
  NodeOk (dir off len) = (left : ℕ) × DirOk fs.image ceiling left off len

  entry-NodeOk :
      (left base : ℕ)
      → base + dirent_len ≤ length fs.image
      → EntryOk fs.image ceiling (DirOk fs.image ceiling left) base
      → (node : Node) × (node_at decode fs base ≡ ok (some node)) × NodeOk node
  unfolding node_at
  entry-NodeOk left base h (a, b, inl f) = (
    file (entry_off fs.image base) (entry_len fs.image base),
    ground (
      arith,
      read_u32_le-ok fs.image (base + ent_offset),
      read_u32_le-ok fs.image (base + ent_length),
      read_u32_le-ok fs.image (base + ent_kind),
    ),
    (a, b),
  )
  entry-NodeOk left base h (a, b, inr (k, d)) = (
    dir (entry_off fs.image base) (entry_len fs.image base),
    ground (
      arith,
      read_u32_le-ok fs.image (base + ent_offset),
      read_u32_le-ok fs.image (base + ent_length),
      read_u32_le-ok fs.image (base + ent_kind),
    ),
    (left, d),
  )

  -- What a search comes to: nothing, or a node where it may lie.
  abbrev Found : Outcome (Option Node) → Type 0
  Found r = (r ≡ ok none) ⊎ ((node : Node) × (r ≡ ok (some node)) × NodeOk node)

  slice-name :
      (base : ℕ)
      → base + dirent_len ≤ length fs.image
      → slice fs.image base (base + name_len)
        ≡ ok (take (base + name_len - base) (drop base fs.image))
  unfolding slice
  slice-name base h = ground arith

  find_child_from-Found :
      (left n base : ℕ) (name : List ℕ)
      → base + n * dirent_len ≤ length fs.image
      → EntriesOk fs.image ceiling (DirOk fs.image ceiling left) n base
      → Found (find_child_from decode fs n base name)
  unfolding find_child_from
  find_child_from-Found left zero base name h ok_all = inl refl
  find_child_from-Found left (suc n) base name h ok_all =
      let raw = take (base + name_len - base) (drop base fs.image) in
      let cut = slice-name base (omega arith) in
      elim (Bool-cases (same (entry_name decode fs raw) name)) [
        | inl here ↦
            let step : find_child_from decode fs (suc n) base name ≡ node_at decode fs base =
              ground (arith, cut, here) in
            rw step (inr (entry-NodeOk left base (omega arith) ok_all.0))
        | inr other ↦
            let step : find_child_from decode fs (suc n) base name
                ≡ find_child_from decode fs n (base + dirent_len) name =
              ground (arith, cut, other) in
            rw step (find_child_from-Found left n (base + dirent_len) name (omega arith) ok_all.1)
      ]

  descend-Returns :
      (node : Node) (comp : List ℕ) → NodeOk node → Returns NodeOk (descend decode fs node comp)
  unfolding descend find_child
  descend-Returns (file off len) comp k = inr (not_a_directory, refl)
  descend-Returns (dir off len) comp (zero, d) = absurd d
  descend-Returns (dir off len) comp (suc left, d) =
      elim (find_child_from-Found left (len / dirent_len) off comp (omega (arith, d.0, d.1)) d.2) [
        | inl e ↦ inr (not_found, rw e)
        | inr (node, e, k) ↦ inl (node, rw e, k)
      ]

  resolve_from-Returns :
      (node : Node) (comps : List (List ℕ))
      → NodeOk node
      → Returns NodeOk (resolve_from decode fs node comps)
  unfolding resolve_from
  resolve_from-Returns node [] k = inl (node, refl, k)
  resolve_from-Returns node ([] ∷ comps) k = resolve_from-Returns node comps k
  resolve_from-Returns node ((b ∷ bs) ∷ comps) k = elim (descend-Returns node (b ∷ bs) k) [
    | inl (next, e, k') ↦ rw (e, resolve_from) (resolve_from-Returns next comps k')
    | inr (x, e) ↦ inr (x, rw (e, resolve_from))
  ]

  -- A file's content is a slice of the image below the ceiling.
  abbrev pub Inside : List ℕ → Type 0
  Inside d =
      (off : ℕ) × (len : ℕ) × (d ≡ take len (drop off fs.image))
      × (off + len ≤ length fs.image)
      × (off + len ≤ ceiling)

  slice-file :
      (off len : ℕ)
      → off + len ≤ length fs.image
      → slice fs.image off (off + len) ≡ ok (take len (drop off fs.image))
  unfolding slice
  slice-file off len h =
      let e : off + len - off ≡ len = omega arith in
      ground (arith, ap (λ n. take n (drop off fs.image)) e)

  read_node-Returns : (node : Node) → NodeOk node → Returns Inside (read_node decode fs node)
  unfolding read_node slice
  read_node-Returns (file off len) (a, b) =
      inl (take len (drop off fs.image), slice-file off len a, (off, len, refl, a, b))
  read_node-Returns (dir off len) k = inr (is_a_directory, refl)

  entry_at-Returns :
      (base : ℕ)
      → base + dirent_len ≤ length fs.image
      → (e : DirEntry) × (entry_at decode fs base ≡ ok e)
        × (e.offset ≡ entry_off fs.image base)
        × (e.length ≡ entry_len fs.image base)
  unfolding entry_at
  entry_at-Returns base h = (
    record {
      name = entry_name decode fs (take (base + name_len - base) (drop base fs.image));
      offset = entry_off fs.image base;
      length = entry_len fs.image base;
      is_dir = entry_kind fs.image base == kind_dir;
    },
    ground (
      arith,
      slice-name base h,
      read_u32_le-ok fs.image (base + ent_offset),
      read_u32_le-ok fs.image (base + ent_length),
      read_u32_le-ok fs.image (base + ent_kind),
    ),
    refl,
    refl,
  )

  -- The extents of a listing lie below the ceiling.
  abbrev pub Listed : List DirEntry → Type 0
  Listed = All (λ e. e.offset + e.length ≤ ceiling)

  entries_from-Returns :
      (left n base : ℕ)
      → base + n * dirent_len ≤ length fs.image
      → EntriesOk fs.image ceiling (DirOk fs.image ceiling left) n base
      → (es : List DirEntry) × (entries_from decode fs n base ≡ ok es) × Listed es
  unfolding entries_from
  entries_from-Returns left zero base h ok_all = ([], refl, tt)
  entries_from-Returns left (suc n) base h ok_all =
      let (e, here, off, size) = entry_at-Returns base (omega arith) in
      let (es, there, rest) =
        entries_from-Returns left n (base + dirent_len) (omega arith) ok_all.1 in
      (e ∷ es, ground (arith, here, there), (omega (arith, off, size, ok_all.0.1), rest))

  list_node-Returns : (node : Node) → NodeOk node → Returns Listed (list_node decode fs node)
  unfolding list_node
  list_node-Returns (file off len) k = inr (not_a_directory, refl)
  list_node-Returns (dir off len) (zero, d) = absurd d
  list_node-Returns (dir off len) (suc left, d) =
      let (es, e, listed) =
        entries_from-Returns left (len / dirent_len) off (omega (arith, d.0, d.1)) d.2 in
      inl (es, e, listed)

module _ (decode : List ℕ → List ℕ) (image : List ℕ) (confine trust : Bool) (fs : Fs)
    (mounted : mount_inner image confine trust ≡ ok fs) where
  pub resolve-Returns :
      (abs : List ℕ)
      → Returns (NodeOk decode fs (ceiling_of confine fs.image)) (resolve decode fs abs)
  unfolding resolve
  resolve-Returns abs =
      resolve_from-Returns decode fs (ceiling_of confine fs.image) (root decode fs)
        (split_path [] abs)
        (suc max_depth, (mount_inner-Mounted image confine trust fs mounted).0.tree)

  -- Once an image is mounted, by any of the three readers, reading any path whatever ends without a
  -- panic: in an error, or in the bytes of an extent that lies in the image and ends at or before the
  -- ceiling of the reader, which is `data_end` for the strict one and the image's length otherwise.
  pub read_path-Inside :
      (abs : List ℕ)
      → Returns (Inside decode fs (ceiling_of confine fs.image)) (read_path decode fs abs)
  unfolding read_path
  read_path-Inside abs = elim (resolve-Returns abs) [
    | inl (node, e, k) ↦
        rw (e, read_path) (read_node-Returns decode fs (ceiling_of confine fs.image) node k)
    | inr (x, e) ↦ inr (x, rw (e, read_path))
  ]

  -- Once an image is mounted, by any of the three readers, listing any path whatever ends without a
  -- panic: in an error, or in entries whose extents all end at or before the ceiling of the reader.
  pub list_dir-Listed :
      (abs : List ℕ)
      → Returns (Listed decode fs (ceiling_of confine fs.image)) (list_dir decode fs abs)
  unfolding list_dir
  list_dir-Listed abs = elim (resolve-Returns abs) [
    | inl (node, e, k) ↦
        rw (e, list_dir) (list_node-Returns decode fs (ceiling_of confine fs.image) node k)
    | inr (x, e) ↦ inr (x, rw (e, list_dir))
  ]
