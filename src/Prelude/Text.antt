-- ===== src/Prelude/Text.antt =====
-- What the JavaScript sources use of strings: `trim`, `slice` and the hexadecimal print.
use Prim.Native.Nat.{ℕ, zero, suc, ◌/◌, ◌%◌}
use Prim.Native.Char.{Char, code}
use Prim.Native.String.{String}
use mathlib.Core.Bool.{Bool, true, false, ◌&&◌, ◌||◌}
use mathlib.Core.List.{List, [], ◌∷◌}
use ziran_os.Prelude.Tests.{leb, if◌then◌else◌}
use ziran_os.Prelude.Lists.{get_or}

-- The white space and line ends of ECMAScript, as ranges of codes.
abbrev space_ranges : List (ℕ × ℕ)
space_ranges =
    (9, 13)
    ∷ (32, 32)
    ∷ (160, 160)
    ∷ (5760, 5760)
    ∷ (8192, 8202)
    ∷ (8232, 8233)
    ∷ (8239, 8239)
    ∷ (8287, 8287)
    ∷ (12288, 12288)
    ∷ (65279, 65279)
    ∷ []

within : ℕ → List (ℕ × ℕ) → Bool
within n [] = false
within n ((low, high) ∷ rest) = (leb low n && leb n high) || within n rest

pub is_space : Char → Bool
unfolding within
is_space c = within (code c) space_ranges

unfoldable pub trim_start : String → String
unfolding is_space
trim_start String.[] = String.[]
trim_start (String.◌∷◌ c s) = if is_space c then trim_start s else String.◌∷◌ c s

is_blank : String → Bool
is_blank String.[] = true
is_blank (String.◌∷◌ c s) = false

unfoldable pub trim_end : String → String
unfolding is_space is_blank
trim_end String.[] = String.[]
trim_end (String.◌∷◌ c s) =
    let rest = trim_end s in if is_blank rest && is_space c then String.[] else String.◌∷◌ c rest

-- `s.trim()`
unfoldable pub trim : String → String
unfolding trim_start trim_end
trim s = trim_end (trim_start s)

-- `s.slice(0, n)`
unfoldable pub take_text : ℕ → String → String
take_text zero s = String.[]
take_text (suc n) String.[] = String.[]
take_text (suc n) (String.◌∷◌ c s) = String.◌∷◌ c (take_text n s)

-- `s + t`
unfoldable pub concat : String → String → String
concat String.[] t = t
concat (String.◌∷◌ c s) t = String.◌∷◌ c (concat s t)

-- The character of a digit below 16.
abbrev digits : List Char
digits =
    "0" ∷ "1" ∷ "2" ∷ "3" ∷ "4" ∷ "5" ∷ "6" ∷ "7" ∷ "8" ∷ "9" ∷ "a" ∷ "b" ∷ "c" ∷ "d" ∷ "e" ∷ "f"
    ∷ []

abbrev pub digit : ℕ → Char
digit n = get_or digits n "0"

-- `bytes.toString('hex')`
unfoldable pub hex : List ℕ → String
hex [] = String.[]
hex (b ∷ bs) = String.◌∷◌ (digit (b / 16)) (String.◌∷◌ (digit (b % 16)) (hex bs))

decimal_from : ℕ → ℕ → String → String
decimal_from zero n acc = acc
decimal_from (suc f) n acc =
    let rest = decimal_from f (n / 10) (String.◌∷◌ (digit (n % 10)) acc) in
    if leb n 9 then String.◌∷◌ (digit n) acc else rest

-- `String(n)`: a number has no more digits than its value and one.
unfoldable pub decimal : ℕ → String
unfolding decimal_from
decimal n = decimal_from (suc n) n String.[]

-- The codes of a text: its bytes, if it is ASCII.
abbrev pub codes : String → List ℕ
codes String.[] = []
codes (String.◌∷◌ c s) = code c ∷ codes s
