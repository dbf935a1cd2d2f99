-- ===== src/Shell/Base64.antt =====
-- `b64_val`, `b64_decode` and `b64_encode` of src/shell.rs. A `|` of numbers with no bit in common is
-- a sum.
use ziran_os.Prelude.{
  ◌≡◌, ◌⊎◌, inl, inr, refl, ℕ, ◌+◌, ◌-◌, ◌*◌, ◌/◌, ◌%◌, Bool, true, false, not, ◌&&◌, ◌||◌, Option,
  none, some, List, [], ◌∷◌, ◌++◌, ◌==◌, ltb, leb, if◌then◌else◌, get_or, length,
}
use ziran_os.Prelude.Text.{codes}

pub data B64Error : Type 0 where
  invalid_char bad_length : B64Error

pub data Decoded {ℓ} (A : Type ℓ) : Type ℓ where
  good : A → Decoded A
  bad : B64Error → Decoded A

pub Decoded-cases {ℓ} :
    {A : Type ℓ} (m : Decoded A) → ((a : A) × (m ≡ good a)) ⊎ ((e : B64Error) × (m ≡ bad e))
Decoded-cases (good a) = inl (a, refl)
Decoded-cases (bad e) = inr (e, refl)

infixl 5 ◌>>=◌
abbrev pub ◌>>=◌ {ℓ κ} : {A : Type ℓ} {B : Type κ} → Decoded A → (A → Decoded B) → Decoded B
good a >>= f = f a
bad e >>= f = bad e

unfoldable pub b64_val : ℕ → Option ℕ
b64_val c =
    if leb b'A' c && leb c b'Z'
    then some (c - b'A')
    else if leb b'a' c && leb c b'z'
    then some (c - b'a' + 26)
    else if leb b'0' c && leb c b'9'
    then some (c - b'0' + 52)
    else if c == b'+'
    then some 62
    else if c == b'/'
    then some 63
    else none

-- The loop over the bytes of a chunk, from place `j` on: `vals` so far, and how many `=` came.
unfoldable pub scan_chunk : Bool → ℕ → ℕ → List ℕ → List ℕ → Decoded (ℕ × List ℕ)
unfolding b64_val
scan_chunk last j pad vals [] = good (pad, vals)
scan_chunk last j pad vals (c ∷ cs) = elim (c == b'=') [
  | true ↦ elim (not last || ltb j 2) [
    | true ↦ bad bad_length
    | false ↦ scan_chunk last (j + 1) (pad + 1) (vals ++ 0 ∷ []) cs
  ]
  | false ↦ elim (pad == 0) [
    | false ↦ bad bad_length
    | true ↦ elim (b64_val c) [
      | none ↦ bad invalid_char
      | some v ↦ scan_chunk last (j + 1) pad (vals ++ v ∷ []) cs
    ]
  ]
]

-- What one chunk adds to `out`.
unfoldable pub chunk_bytes : ℕ → List ℕ → List ℕ
chunk_bytes pad vals =
    let triple =
      get_or vals 0 0 * 262144 + get_or vals 1 0 * 4096 + get_or vals 2 0 * 64 + get_or vals 3 0 in
    (triple / 65536 % 256)
    ∷ ((if ltb pad 2 then (triple / 256 % 256) ∷ [] else [])
        ++ (if ltb pad 1 then (triple % 256) ∷ [] else []))

abbrev pub is_nil : List ℕ → Bool
is_nil [] = true
is_nil (x ∷ xs) = false

-- The loop over the chunks, of which the last is the one with nothing after it. A shorter rest does
-- not come up: the length is a multiple of 4.
unfoldable pub decode_chunks : List ℕ → Decoded (List ℕ)
decode_chunks (a ∷ b ∷ c ∷ d ∷ rest) = do
  (pad, vals) ← scan_chunk (is_nil rest) 0 0 [] (a ∷ b ∷ c ∷ d ∷ [])
  more ← decode_chunks rest
  good (chunk_bytes pad vals ++ more)
decode_chunks short = good []

unfoldable pub b64_decode : List ℕ → Decoded (List ℕ)
b64_decode input = if length input % 4 == 0 then decode_chunks input else bad bad_length

abbrev pub alphabet : List ℕ
alphabet = codes "ABCDEFGHIJKLMNOPQRSTUVWXYZabcdefghijklmnopqrstuvwxyz0123456789+/"

unfoldable pub symbol : ℕ → ℕ
symbol n = get_or alphabet n 0

unfoldable pub b64_encode : List ℕ → List ℕ
unfolding symbol
b64_encode [] = []
b64_encode (x ∷ []) =
    let n = x * 65536 in symbol (n / 262144 % 64) ∷ symbol (n / 4096 % 64) ∷ b'=' ∷ b'=' ∷ []
b64_encode (x ∷ y ∷ []) =
    let n = x * 65536 + y * 256 in
    symbol (n / 262144 % 64) ∷ symbol (n / 4096 % 64) ∷ symbol (n / 64 % 64) ∷ b'=' ∷ []
b64_encode (x ∷ y ∷ z ∷ rest) =
    let n = x * 65536 + y * 256 + z in
    symbol (n / 262144 % 64)
    ∷ symbol (n / 4096 % 64)
    ∷ symbol (n / 64 % 64)
    ∷ symbol (n % 64)
    ∷ b64_encode rest
