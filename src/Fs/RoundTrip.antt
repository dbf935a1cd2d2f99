-- ===== src/Fs/RoundTrip.antt =====
-- What src/fs.rs writes as a directory entry, it reads back.
use mathlib.Core.List.{append_assoc}
use ziran_os.Prelude.{
  ℕ, zero, suc, ◌+◌, ◌-◌, ◌≤◌, ◌<◌, ◌≡◌, refl, ap, ◌∙◌, List, [], ◌∷◌, ◌++◌, ◌==◌, length, take,
  drop, replicate, get_or, min, All, length-append, length-replicate, length-take, arith,
}
use ziran_os.Fs.Image.{
  ok, slice, read_u32_le, u32_at, read_u32_le-ok, name_len, ent_offset, ent_length, ent_kind,
  kind_dir,
}
use ziran_os.Fs.Resolve.{until_nul, entry_name, entry_at}
use ziran_os.Fs.Writer.{u32_bytes, name_field, write_entry, u32_at-bytes}

get_or-append : (xs ys : List ℕ) (i : ℕ) → get_or (xs ++ ys) (length xs + i) 0 ≡ get_or ys i 0
get_or-append [] ys i = let e : 0 + i ≡ i = omega arith in rw e refl
get_or-append (x ∷ xs) ys i =
    let e : suc (length xs) + i ≡ suc (length xs + i) = omega arith in
    ap (λ k. get_or (x ∷ (xs ++ ys)) k 0) e ∙ get_or-append xs ys i

drop-append : (xs ys : List ℕ) → drop (length xs) (xs ++ ys) ≡ ys
drop-append [] ys = refl
drop-append (x ∷ xs) ys = drop-append xs ys

take-append : (xs ys : List ℕ) → take (length xs) (xs ++ ys) ≡ xs
take-append [] ys = refl
take-append (x ∷ xs) ys = ap (◌∷◌ x) (take-append xs ys)

u32_at-append :
    (xs : List ℕ) (n : ℕ) (ys : List ℕ)
    → n < 4294967296
    → u32_at (xs ++ (u32_bytes n ++ ys)) (length xs) ≡ n
u32_at-append xs n ys h =
    let bytes = u32_bytes n ++ ys in
    let zeroth : length xs + 0 ≡ length xs = omega arith in
    ground (
      arith,
      get_or-append xs bytes 0,
      get_or-append xs bytes 1,
      get_or-append xs bytes 2,
      get_or-append xs bytes 3,
      u32_at-bytes n h,
      zeroth,
    )

length-name_field : (name : List ℕ) → length (name_field name) ≡ name_len
unfolding name_field
length-name_field name =
    let nought : ℕ = 0 in
    omega (
      arith,
      length-append (take name_len name) (replicate (name_len - min (length name) name_len) nought),
      length-take name_len name,
      length-replicate (name_len - min (length name) name_len) nought,
    )

until_nul-zeros : (n : ℕ) → until_nul (replicate n 0) ≡ []
unfolding until_nul
until_nul-zeros zero = refl
until_nul-zeros (suc n) = ground arith

until_nul-append :
    (name : List ℕ) (n : ℕ) → All (λ b. 0 < b) name → until_nul (name ++ replicate n 0) ≡ name
unfolding until_nul
until_nul-append [] n a = until_nul-zeros n
until_nul-append (b ∷ bs) n a = ground (arith, until_nul-append bs n a.1)

take_within : (n : ℕ) (xs : List ℕ) → length xs ≤ n → take n xs ≡ xs
take_within zero [] h = refl
take_within zero (x ∷ xs) h = absurd (omega arith)
take_within (suc n) [] h = refl
take_within (suc n) (x ∷ xs) h = ap (◌∷◌ x) (take_within n xs (omega arith))

until_nul-name_field :
    (name : List ℕ)
    → length name ≤ name_len
    → All (λ b. 0 < b) name
    → until_nul (name_field name) ≡ name
unfolding name_field
until_nul-name_field name le a =
    rw (take_within name_len name le)
      (until_nul-append name (name_len - min (length name) name_len) a)

read-field :
    (whole xs : List ℕ) (n : ℕ) (ys : List ℕ) (at : ℕ)
    → n < 4294967296
    → whole ≡ xs ++ (u32_bytes n ++ ys)
    → at ≡ length xs
    → read_u32_le whole at ≡ ok n
read-field whole xs n ys at h e place =
    let size = length-append xs (u32_bytes n ++ ys) in
    rw (e, place)
      (read_u32_le-ok (xs ++ (u32_bytes n ++ ys)) (length xs) (omega (arith, size))
        ∙ ap ok (u32_at-append xs n ys h))

slice-middle :
    (whole xs field ys : List ℕ) (from to : ℕ)
    → whole ≡ xs ++ (field ++ ys)
    → from ≡ length xs
    → to ≡ from + length field
    → slice whole from to ≡ ok field
unfolding slice
slice-middle whole xs field ys from to e start end =
    let size = length-append xs (field ++ ys) in
    let size' = length-append field ys in
    let span : to - from ≡ length field = omega (arith, end) in
    let cut : take (to - from) (drop from whole) ≡ field =
      rw (span, e, start)
        (ap (take (length field)) (drop-append xs (field ++ ys)) ∙ take-append field ys) in
    let fits : to ≤ length whole = rw e (omega (arith, size, size', start, end)) in
    ground (arith, cut, fits)

module _ (decode : List ℕ → List ℕ) (img name : List ℕ) (offset size kind : ℕ)
    (after : List ℕ) where
  -- An entry that is written, with a name of at most 20 bytes and no NUL and with numbers of 32
  -- bits, is read back at its place whatever comes before and after it: the name, decoded, the
  -- offset, the length and whether it is a directory.
  pub entry_at-write_entry :
      (file_count : ℕ)
      → length name ≤ name_len
      → All (λ b. 0 < b) name
      → offset < 4294967296
      → size < 4294967296
      → kind < 4294967296
      → entry_at decode
          (record {
            image = write_entry img name offset size kind ++ after;
            file_count = file_count;
          })
          (length img)
        ≡ ok (record {
          name = decode name;
          offset = offset;
          length = size;
          is_dir = kind == kind_dir;
        })
  unfolding entry_at entry_name write_entry
  entry_at-write_entry file_count short no_nul ho hs hk =
      let nf = name_field name in
      let whole =
        (img ++ (nf ++ (u32_bytes offset ++ (u32_bytes size ++ u32_bytes kind)))) ++ after in
      let len = length-name_field name in
      let one : whole
          ≡ img ++ (nf ++ (u32_bytes offset ++ (u32_bytes size ++ (u32_bytes kind ++ after)))) =
        simp append_assoc in
      let two : whole
          ≡ (img ++ nf) ++ (u32_bytes offset ++ (u32_bytes size ++ (u32_bytes kind ++ after))) =
        simp append_assoc in
      let three : whole
          ≡ (img ++ (nf ++ u32_bytes offset)) ++ (u32_bytes size ++ (u32_bytes kind ++ after)) =
        simp append_assoc in
      let four : whole
          ≡ (img ++ (nf ++ (u32_bytes offset ++ u32_bytes size))) ++ (u32_bytes kind ++ after) =
        simp append_assoc in
      let raw =
        slice-middle whole img nf
          (u32_bytes offset ++ (u32_bytes size ++ (u32_bytes kind ++ after))) (length img)
          (length img + name_len) one refl (omega (arith, len)) in
      let a =
        read-field whole (img ++ nf) offset (u32_bytes size ++ (u32_bytes kind ++ after))
          (length img + ent_offset) ho two (omega (arith, len, length-append img nf)) in
      let b =
        read-field whole (img ++ (nf ++ u32_bytes offset)) size (u32_bytes kind ++ after)
          (length img + ent_length) hs three
          (omega (
            arith,
            len,
            length-append img (nf ++ u32_bytes offset),
            length-append nf (u32_bytes offset),
          )) in
      let c =
        read-field whole (img ++ (nf ++ (u32_bytes offset ++ u32_bytes size))) kind after
          (length img + ent_kind) hk four
          (omega (
            arith,
            len,
            length-append img (nf ++ (u32_bytes offset ++ u32_bytes size)),
            length-append nf (u32_bytes offset ++ u32_bytes size),
          )) in
      ground (arith, raw, a, b, c, until_nul-name_field name short no_nul)
