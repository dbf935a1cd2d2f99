-- ===== src/Loader/Progress.antt =====
-- `xhr.onprogress` of web/load.js. Numbers are natural numbers; the division of JavaScript is exact
-- up to the rounding that `Math.ceil` asks for while the product stays below 2 ^ 53.
use ziran_os.Prelude.{
  ℕ, ◌+◌, ◌-◌, ◌*◌, ◌/◌, ◌≤◌, ◌<◌, ◌≡◌, refl, String, Bool, true, not, Option, none, some, List, [],
  ◌∷◌, ◌==◌, if◌then◌else◌, length, arith, ◌⊎◌, inl, inr, Bool-cases, ltb, ltb→lt, ltb→le,
}
use native.Mathlib.Nat.{div-eq_of_lt-le, le-div_iff_mul-le}
use ziran_os.Prelude.Maps.{lookup, insert}

-- An entry of `Module.dataFileDownloads`.
pub record Download : Type 0 where
  pub loaded : ℕ
  pub total : ℕ

abbrev pub Table : Type 0
Table = List (String × Download)

-- What is shown: the sums, or that the download has begun.
pub data Status : Type 0 where
  progress : (loaded total : ℕ) → Status
  downloading : Status

unfoldable pub sum_loaded : Table → ℕ
sum_loaded [] = 0
sum_loaded ((url, d) ∷ t) = d.loaded + sum_loaded t

unfoldable pub sum_total : Table → ℕ
sum_total [] = 0
sum_total ((url, d) ∷ t) = d.total + sum_total t

-- `Math.ceil(a / b)`
abbrev pub ceil_div : ℕ → ℕ → ℕ
ceil_div a b = (a + b - 1) / b

unfoldable pub shown : ℕ → Table → Status
unfolding sum_loaded sum_total
shown expected t = progress (sum_loaded t) (ceil_div (sum_total t * expected) (length t))

-- What the handler keeps: `xhr.addedTotal` and `Module.dataFileDownloads`.
pub record Progress : Type 0 where
  pub added_total : Bool
  pub downloads : Option Table

abbrev or_empty : Option Table → Table
or_empty none = []
or_empty (some t) = t

-- Only the first event of a request enters its total; `none` as the new table is the TypeError for
-- a missing entry.
unfoldable pub record_event : String → ℕ → ℕ → Progress → Option Table
record_event url size loaded p =
    if not p.added_total
    then some (insert url (record { loaded = loaded; total = size }) (or_empty p.downloads))
    else elim (lookup url (or_empty p.downloads)) [
      | none ↦ none
      | some d ↦ some (insert url (record d { loaded = loaded }) (or_empty p.downloads))
    ]

-- The handler, with the event's `loaded` and `total`: what it keeps and what it shows, or `none`
-- where it throws.
unfoldable pub on_progress : ℕ → String → ℕ → ℕ → ℕ → Progress → Option (Progress × Option Status)
unfolding record_event shown
on_progress expected url package_size loaded total p =
    let size = if total == 0 then package_size else total in
    if loaded == 0
    then some (p, elim p.downloads [ none ↦ some downloading | some t ↦ none ])
    else elim (record_event url size loaded p) [
      | none ↦ none
      | some t ↦ some (record { added_total = true; downloads = some t }, some (shown expected t))
    ]

-- No download is past its total.
abbrev pub Sound : Table → Type 0
Sound [] = Unit {0}
Sound ((url, d) ∷ t) = (d.loaded ≤ d.total) × Sound t

sum_loaded-le : (t : Table) → Sound t → sum_loaded t ≤ sum_total t
unfolding sum_loaded sum_total
sum_loaded-le [] s = omega arith
sum_loaded-le ((url, d) ∷ t) s = omega (arith, s.0, sum_loaded-le t s.1)

ceil_div-mul : (a b : ℕ) → 0 < b → ceil_div (a * b) b ≡ a
ceil_div-mul a b h = div-eq_of_lt-le b (omega arith) (omega arith)

ceil_div-ge : (a b c : ℕ) → 0 < b → b ≤ c → a ≤ ceil_div (a * c) b
ceil_div-ge a b c h le = (le-div_iff_mul-le h).1 (grind arith)

le_cases : (m n : ℕ) → m ≤ n → (m ≡ n) ⊎ (m < n)
le_cases m n h = elim (Bool-cases (ltb m n)) [
  | inl lt ↦ inr (ltb→lt m n lt)
  | inr ge ↦ inl (omega (arith, ltb→le m n ge))
]

-- With at least one download, none past its total and no more of them than expected, what is shown
-- as loaded is the sum of the bytes loaded, and is at most what is shown as the total, which is
-- exactly the sum of their totals unless there are fewer downloads than expected.
pub shown_bounds :
    (expected : ℕ) (t : Table)
    → 0 < length t
    → Sound t
    → length t ≤ expected
    → (total : ℕ) × (shown expected t ≡ progress (sum_loaded t) total)
      × (sum_loaded t ≤ total)
      × ((total ≡ sum_total t) ⊎ (length t < expected))
unfolding shown
shown_bounds expected t some_download s le = (
  ceil_div (sum_total t * expected) (length t),
  refl,
  omega (arith, sum_loaded-le t s, ceil_div-ge (sum_total t) (length t) expected some_download le),
  elim (le_cases (length t) expected le) [
    | inl e ↦ inl (rw (← e) (ceil_div-mul (sum_total t) (length t) some_download))
    | inr few ↦ inr few
  ],
)
