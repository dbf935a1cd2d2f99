-- ===== src/Shell/Accepted.antt =====
-- An upload that `load` of src/shell.rs takes in the server mode.
use mathlib.Core.List.{append_assoc}
use ziran_os.Prelude.{
  ℕ, ◌≤◌, ◌≡◌, ◌≢◌, refl, ap, false, ltb, ◌∙◌, Option, some, List, [], ◌∷◌, ◌++◌, length, take,
  replicate, arith,
}
use ziran_os.Fs.Image.{ok}
use ziran_os.Fs.Mount.{Fs, mount_tier2, mount_inner, check_superblock}
use ziran_os.Fs.Extended.{take-append, mount_tier2-append}
use ziran_os.Shell.Disk.{mounted, tier2_gap, mount_active, max_image, accept, tier2_append}
use ziran_os.Shell.Planted.{take-whole, region, padded, tier2_append-Planted}

module _ (flag upload : List ℕ) where
  abbrev pub planted : List ℕ
  planted = padded flag upload ++ region flag

  behind : planted ≡ upload ++ (replicate (tier2_gap flag) 0 ++ region flag)
  behind = append_assoc upload (replicate (tier2_gap flag) 0) (region flag)

  pub take-planted : take (length upload) planted ≡ upload
  take-planted =
      ap (take (length upload)) behind
      ∙ take-append upload (replicate (tier2_gap flag) 0 ++ region flag) (length upload)
          (omega arith)
      ∙ take-whole upload (length upload) (omega arith)

  mount_tier2-planted :
      (fs : Fs)
      → mount_tier2 upload ≡ ok fs
      → mount_tier2 planted ≡ ok (record fs { image = planted })
  mount_tier2-planted fs e =
      rw behind (mount_tier2-append upload (replicate (tier2_gap flag) 0 ++ region flag) fs e)

mount_tier2-nil : (fs : Fs) → mount_tier2 [] ≢ ok fs
unfolding mount_tier2 mount_inner check_superblock
mount_tier2-nil fs e = ground arith

-- What `load` takes, once the size, the flag and the mount are settled.
accept-mounted :
    (flag old : Option (List ℕ)) (b : ℕ) (bs image : List ℕ) (begin : Option ℕ) (fs : Fs)
    → ltb max_image (length (b ∷ bs)) ≡ false
    → tier2_append flag (b ∷ bs) ≡ (image, begin)
    → mount_active flag image ≡ ok fs
    → accept flag old (b ∷ bs) ≡ (some image, mounted (length image) begin)
unfolding accept
accept-mounted flag old b bs image begin fs fits appended mounts =
    let first : (tier2_append flag (b ∷ bs)).0 ≡ image = ap (λ r. r.0) appended in
    let second : (tier2_append flag (b ∷ bs)).1 ≡ begin = ap (λ r. r.1) appended in
    rw (fits, first, mounts) (rw (first, second) refl)

-- An upload that mounts in the server mode is taken, with the flag behind it.
pub accept-planted :
    (flag : List ℕ) (old : Option (List ℕ)) (upload : List ℕ) (fs : Fs)
    → length upload ≤ max_image
    → mount_tier2 upload ≡ ok fs
    → accept (some flag) old upload ≡ (
      some (planted flag upload),
      mounted (length (planted flag upload)) (some (length (padded flag upload))),
    )
unfolding mount_active
accept-planted flag old [] fs small e = absurd (mount_tier2-nil fs e)
accept-planted flag old (b ∷ bs) fs small e =
    accept-mounted (some flag) old b bs (planted flag (b ∷ bs))
      (some (length (padded flag (b ∷ bs)))) _ (ground (arith, small))
      (tier2_append-Planted flag (b ∷ bs)).0 (mount_tier2-planted flag (b ∷ bs) fs e)
