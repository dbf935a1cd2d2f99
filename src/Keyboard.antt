-- ===== src/Keyboard.antt =====
-- src/keyboard.rs: scancodes to characters, and the input ring. `handle_interrupt` gets the byte
-- that the port gives. Characters are their codes.
pub mod Ring
pub mod Layout
pub mod Atomic
pub mod Linear
pub mod Interleaved
mod Tests
use ziran_os.Prelude.{
  ℕ, ◌+◌, ◌%◌, Bool, true, false, not, ◌||◌, Option, none, some, List, [], ◌∷◌, ◌==◌, ltb, leb,
  if◌then◌else◌, set, get_or, replicate,
}

abbrev pub lshift_make : ℕ
lshift_make = 0x2a

abbrev pub rshift_make : ℕ
rshift_make = 0x36

abbrev pub lshift_break : ℕ
lshift_break = 0xaa

abbrev pub rshift_break : ℕ
rshift_break = 0xb6

-- The keys that Shift does not change.
abbrev pub plain_keys : List (ℕ × ℕ)
plain_keys = (0x0e, 0x08) ∷ (0x1c, 0x0a) ∷ (0x39, b' ') ∷ []

-- The others: the code, the character and the character with Shift.
abbrev pub shifted_keys : List (ℕ × ℕ × ℕ)
shifted_keys =
    (0x02, 0x31, 0x21)
    ∷ (0x03, 0x32, 0x40)
    ∷ (0x04, 0x33, 0x23)
    ∷ (0x05, 0x34, 0x24)
    ∷ (0x06, 0x35, 0x25)
    ∷ (0x07, 0x36, 0x5e)
    ∷ (0x08, 0x37, 0x26)
    ∷ (0x09, 0x38, 0x2a)
    ∷ (0x0a, 0x39, 0x28)
    ∷ (0x0b, 0x30, 0x29)
    ∷ (0x0c, 0x2d, 0x5f)
    ∷ (0x0d, 0x3d, 0x2b)
    ∷ (0x10, 0x71, 0x51)
    ∷ (0x11, 0x77, 0x57)
    ∷ (0x12, 0x65, 0x45)
    ∷ (0x13, 0x72, 0x52)
    ∷ (0x14, 0x74, 0x54)
    ∷ (0x15, 0x79, 0x59)
    ∷ (0x16, 0x75, 0x55)
    ∷ (0x17, 0x69, 0x49)
    ∷ (0x18, 0x6f, 0x4f)
    ∷ (0x19, 0x70, 0x50)
    ∷ (0x1a, 0x5b, 0x7b)
    ∷ (0x1b, 0x5d, 0x7d)
    ∷ (0x1e, 0x61, 0x41)
    ∷ (0x1f, 0x73, 0x53)
    ∷ (0x20, 0x64, 0x44)
    ∷ (0x21, 0x66, 0x46)
    ∷ (0x22, 0x67, 0x47)
    ∷ (0x23, 0x68, 0x48)
    ∷ (0x24, 0x6a, 0x4a)
    ∷ (0x25, 0x6b, 0x4b)
    ∷ (0x26, 0x6c, 0x4c)
    ∷ (0x27, 0x3b, 0x3a)
    ∷ (0x28, 0x27, 0x22)
    ∷ (0x29, 0x60, 0x7e)
    ∷ (0x2b, 0x5c, 0x7c)
    ∷ (0x2c, 0x7a, 0x5a)
    ∷ (0x2d, 0x78, 0x58)
    ∷ (0x2e, 0x63, 0x43)
    ∷ (0x2f, 0x76, 0x56)
    ∷ (0x30, 0x62, 0x42)
    ∷ (0x31, 0x6e, 0x4e)
    ∷ (0x32, 0x6d, 0x4d)
    ∷ (0x33, 0x2c, 0x3c)
    ∷ (0x34, 0x2e, 0x3e)
    ∷ (0x35, 0x2f, 0x3f)
    ∷ []

unfoldable pub find_plain : ℕ → List (ℕ × ℕ) → Option ℕ
find_plain code [] = none
find_plain code ((k, c) ∷ ks) = if k == code then some c else find_plain code ks

unfoldable pub find_shifted : ℕ → Bool → List (ℕ × ℕ × ℕ) → Option ℕ
find_shifted code shift [] = none
find_shifted code shift ((k, lo, hi) ∷ ks) =
    if k == code then some (if shift then hi else lo) else find_shifted code shift ks

unfoldable pub translate : ℕ → Bool → Option ℕ
unfolding find_plain find_shifted
translate code shift = elim (find_plain code plain_keys) [
  | some c ↦ some c
  | none ↦ find_shifted code shift shifted_keys
]

-- The new SHIFT and the character, if any. `code & 0x80 != 0` is `0x80 ≤ code` on a byte.
unfoldable pub handle_interrupt : ℕ → Bool → Bool × Option ℕ
unfolding translate
handle_interrupt code shift =
    if (code == lshift_make) || (code == rshift_make)
    then (true, none)
    else if (code == lshift_break) || (code == rshift_break)
    then (false, none)
    else if leb 0x80 code
    then (shift, none)
    else (shift, translate code shift)

abbrev pub ring_cap : ℕ
ring_cap = 256

-- RING, HEAD and TAIL.
pub record Buffer : Type 0 where
  pub ring : List ℕ
  pub head : ℕ
  pub tail : ℕ

unfoldable pub empty : Buffer
empty = record { ring = replicate ring_cap 0; head = 0; tail = 0 }

unfoldable pub push : ℕ → Buffer → Buffer
push byte q =
    let next = (q.tail + 1) % ring_cap in
    if next == q.head then q else record q { ring = set q.ring q.tail byte; tail = next }

unfoldable pub pop : Buffer → Buffer × Option ℕ
pop q =
    if q.head == q.tail
    then (q, none)
    else (record q { head = (q.head + 1) % ring_cap }, some (get_or q.ring q.head 0))
