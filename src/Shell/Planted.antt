-- ===== src/Shell/Planted.antt =====
-- Where `tier2_append` of src/shell.rs puts the flag of the server mode.
use mathlib.Core.List.{append_assoc}
use ziran_os.Prelude.{
  ℕ, zero, suc, ◌+◌, ◌-◌, ◌≤◌, ◌≡◌, refl, ap, ap₂, sym, ◌∙◌, some, List, [], ◌∷◌, ◌++◌, length,
  take, drop, min, replicate, length-append, length-replicate, length-take, arith,
}
use ziran_os.Shell.Disk.{tier2_gap, tier2_gap_max, tier2_flag_len, resize, tier2_append}

pub take-whole : (xs : List ℕ) (n : ℕ) → length xs ≤ n → take n xs ≡ xs
take-whole [] zero h = refl
take-whole [] (suc n) h = refl
take-whole (x ∷ xs) zero h = absurd (omega arith)
take-whole (x ∷ xs) (suc n) h = ap (◌∷◌ x) (take-whole xs n (omega arith))

min-zero : (n : ℕ) → min n 0 ≡ 0
min-zero n = omega arith

min-suc : (n : ℕ) → min 0 (suc n) ≡ 0
min-suc n = omega arith

take-min : (xs : List ℕ) (n : ℕ) → take (min (length xs) n) xs ≡ take n xs
take-min [] zero = refl
take-min [] (suc n) = ap (λ k. take k []) (min-suc n)
take-min (x ∷ xs) zero = ap (λ k. take k (x ∷ xs)) (min-zero (length (x ∷ xs)))
take-min (x ∷ xs) (suc n) =
    let e : min (suc (length xs)) (suc n) ≡ suc (min (length xs) n) = omega arith in
    ap (λ k. take k (x ∷ xs)) e ∙ ap (◌∷◌ x) (take-min xs n)

drop-append : (xs ys : List ℕ) → drop (length xs) (xs ++ ys) ≡ ys
drop-append [] ys = refl
drop-append (x ∷ xs) ys = drop-append xs ys

resize-longer : (v : List ℕ) (n : ℕ) → length v ≤ n → resize v n ≡ v ++ replicate (n - length v) 0
unfolding resize
resize-longer v n h = ap (λ l. l ++ replicate (n - length v) 0) (take-whole v n h)

-- The flag in its region: cut, or filled up with zeros.
abbrev pub region : List ℕ → List ℕ
region flag = take tier2_flag_len flag ++ replicate (tier2_flag_len - length flag) 0

length-region : (flag : List ℕ) → length (region flag) ≡ tier2_flag_len
length-region flag = omega (
  arith,
  length-append (take tier2_flag_len flag) (replicate (tier2_flag_len - length flag) 0),
  length-take tier2_flag_len flag,
  length-replicate {A = ℕ} (tier2_flag_len - length flag) 0,
)

tier2_gap-le : (flag : List ℕ) → tier2_gap flag ≤ tier2_gap_max
unfolding tier2_gap
tier2_gap-le flag = omega arith

module _ (flag bytes : List ℕ) where
  abbrev pub padded : List ℕ
  padded = bytes ++ replicate (tier2_gap flag) 0

  length-padded : length padded ≡ length bytes + tier2_gap flag
  length-padded = omega (
    arith,
    length-append bytes (replicate (tier2_gap flag) 0),
    length-replicate {A = ℕ} (tier2_gap flag) 0,
  )

  first_resize : resize bytes (length bytes + tier2_gap flag) ≡ padded
  first_resize =
      let gap : length bytes + tier2_gap flag - length bytes ≡ tier2_gap flag = omega arith in
      resize-longer bytes _ (omega arith) ∙ ap (λ n. bytes ++ replicate n 0) gap

  second_resize :
      resize
        (padded ++ take (min (length flag) tier2_flag_len) flag)
        (length bytes + tier2_gap flag + tier2_flag_len)
      ≡ padded ++ region flag
  second_resize =
      let cut : take (min (length flag) tier2_flag_len) flag ≡ take tier2_flag_len flag =
        take-min flag tier2_flag_len in
      let size : length (padded ++ take tier2_flag_len flag)
          ≡ length bytes + tier2_gap flag + min tier2_flag_len (length flag) =
        omega (
          arith,
          length-padded,
          length-append padded (take tier2_flag_len flag),
          length-take tier2_flag_len flag,
        ) in
      let left : length bytes
            + tier2_gap flag
            + tier2_flag_len
            - length (padded ++ take tier2_flag_len flag)
          ≡ tier2_flag_len - length flag =
        omega (arith, size) in
      ap (λ l. resize (padded ++ l) (length bytes + tier2_gap flag + tier2_flag_len)) cut
      ∙ resize-longer (padded ++ take tier2_flag_len flag) _ (omega (arith, size))
      ∙ ap (λ n. (padded ++ take tier2_flag_len flag) ++ replicate n 0) left
      ∙ append_assoc padded (take tier2_flag_len flag) (replicate (tier2_flag_len - length flag) 0)

  -- In the server mode, the image is the upload, a gap of at most 512 zeros, and the 64 bytes of
  -- the flag's region, which start at the offset that is reported: dropping as many bytes from the
  -- image leaves the flag, cut to 64 bytes or filled up with zeros. The image has no other bytes.
  pub tier2_append-Planted :
      (tier2_append (some flag) bytes ≡ (padded ++ region flag, some (length padded)))
      × (length padded ≤ length bytes + tier2_gap_max)
      × (drop (length padded) (padded ++ region flag) ≡ region flag)
      × (length (padded ++ region flag) ≡ length padded + tier2_flag_len)
  unfolding tier2_append
  tier2_append-Planted = (
    ap₂ (λ image begin. (image, some begin))
        (ap
            (λ l.
              resize (l ++ take (min (length flag) tier2_flag_len) flag)
                (length bytes + tier2_gap flag + tier2_flag_len))
            first_resize
          ∙ second_resize)
        (sym length-padded),
    omega (arith, length-padded, tier2_gap-le flag),
    drop-append padded (region flag),
    omega (arith, length-append padded (region flag), length-region flag),
  )
