-- ===== src/Fs/Image.antt =====
-- Bytes, errors and panics of src/fs.rs. A `&[u8]` is a list of numbers; indexing or slicing out of
-- range panics. `usize` has 64 bits.
use ziran_os.Prelude.{
  ℕ, ◌+◌, ◌-◌, ◌*◌, ◌^◌, ◌≤◌, ◌<◌, ◌≡◌, ◌⊎◌, inl, inr, refl, Bool, true, false, ◌&&◌, none, some,
  List, [], ◌∷◌, ltb, leb, if◌then◌else◌, get_elem?, get_or, take, drop, length, suc, zero, arith,
}

pub data FsError : Type 0 where
  bad_magic unsupported_version truncated size_mismatch entry_out_of_bounds : FsError
  extent_escapes_data bad_data_end bad_dir_length dir_not_forward bad_kind too_deep : FsError
  not_found not_a_directory is_a_directory : FsError

-- What a call comes to: a value, an `Err`, or a panic.
pub data Outcome {ℓ} (A : Type ℓ) : Type ℓ where
  ok : A → Outcome A
  err : FsError → Outcome A
  panic : Outcome A

infixl 5 ◌>>=◌ ◌>>◌
abbrev pub ◌>>=◌ {ℓ κ} : {A : Type ℓ} {B : Type κ} → Outcome A → (A → Outcome B) → Outcome B
ok a >>= f = f a
err e >>= f = err e
panic >>= f = panic

abbrev pub ◌>>◌ {ℓ} : {B : Type ℓ} → Outcome (Unit {0}) → Outcome B → Outcome B
m >> k = m >>= λ _. k

pub Outcome-cases {ℓ} :
    {A : Type ℓ} (m : Outcome A)
    → ((a : A) × (m ≡ ok a)) ⊎ ((e : FsError) × (m ≡ err e)) ⊎ (m ≡ panic)
Outcome-cases (ok a) = inl (a, refl)
Outcome-cases (err e) = inr (inl (e, refl))
Outcome-cases panic = inr (inr refl)

-- `if !test { return Err(e) }`
abbrev pub require : Bool → FsError → Outcome (Unit {0})
require true e = ok tt
require false e = err e

abbrev pub superblock_len : ℕ
superblock_len = 16

abbrev pub dirent_len : ℕ
dirent_len = 32

abbrev pub name_len : ℕ
name_len = 20

abbrev pub ent_offset : ℕ
ent_offset = 0x14

abbrev pub ent_length : ℕ
ent_length = 0x18

abbrev pub ent_kind : ℕ
ent_kind = 0x1c

abbrev pub kind_file : ℕ
kind_file = 0

abbrev pub kind_dir : ℕ
kind_dir = 1

abbrev pub max_depth : ℕ
max_depth = 32

-- `buf[i]`
unfoldable pub byte_at : List ℕ → ℕ → Outcome ℕ
byte_at buf i = elim (get_elem? buf i) [ some b ↦ ok b | none ↦ panic ]

-- `&buf[from..to]`
unfoldable pub slice : List ℕ → ℕ → ℕ → Outcome (List ℕ)
slice buf from to =
    if leb from to && leb to (length buf) then ok (take (to - from) (drop from buf)) else panic

unfoldable pub read_u16_le : List ℕ → ℕ → Outcome ℕ
unfolding byte_at
read_u16_le buf off = do a ← byte_at buf off; b ← byte_at buf (off + 1); ok (a + 256 * b)

unfoldable pub read_u32_le : List ℕ → ℕ → Outcome ℕ
unfolding byte_at
read_u32_le buf off = do
  a ← byte_at buf off
  b ← byte_at buf (off + 1)
  c ← byte_at buf (off + 2)
  d ← byte_at buf (off + 3)
  ok (a + 256 * b + 65536 * c + 16777216 * d)

-- `a.checked_add(b).ok_or(e)` and `a.checked_mul(b).ok_or(e)` on `usize`
unfoldable pub checked_add : ℕ → ℕ → FsError → Outcome ℕ
checked_add a b e = if ltb (a + b) (2 ^ 64) then ok (a + b) else err e

unfoldable pub checked_mul : ℕ → ℕ → FsError → Outcome ℕ
checked_mul a b e = if ltb (a * b) (2 ^ 64) then ok (a * b) else err e

-- The number at an offset, where the bytes are there.
abbrev pub u32_at : List ℕ → ℕ → ℕ
u32_at buf off =
    get_or buf off 0
    + 256 * get_or buf (off + 1) 0
    + 65536 * get_or buf (off + 2) 0
    + 16777216 * get_or buf (off + 3) 0

pub byte_at-ok : (buf : List ℕ) (i : ℕ) → i < length buf → byte_at buf i ≡ ok (get_or buf i 0)
unfolding byte_at
byte_at-ok [] i h = absurd (omega arith)
byte_at-ok (x ∷ xs) zero h = refl
byte_at-ok (x ∷ xs) (suc i) h = byte_at-ok xs i (omega arith)

-- A read inside the buffer does not panic.
pub read_u32_le-ok :
    (buf : List ℕ) (off : ℕ) → off + 4 ≤ length buf → read_u32_le buf off ≡ ok (u32_at buf off)
unfolding read_u32_le
read_u32_le-ok buf off h = ground (
  arith,
  byte_at-ok buf off,
  byte_at-ok buf (off + 1),
  byte_at-ok buf (off + 2),
  byte_at-ok buf (off + 3),
)

pub read_u16_le-ok :
    (buf : List ℕ) (off : ℕ)
    → off + 2 ≤ length buf
    → read_u16_le buf off ≡ ok (get_or buf off 0 + 256 * get_or buf (off + 1) 0)
unfolding read_u16_le
read_u16_le-ok buf off h = ground (arith, byte_at-ok buf off, byte_at-ok buf (off + 1))
