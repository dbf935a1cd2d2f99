-- ===== src/Prelude/Maps.antt =====
-- Dictionaries keyed by texts, as association lists: JavaScript's `Map` and plain objects.
use Prim.Native.String.{String}
use mathlib.Core.Path.{◌≡◌}
use mathlib.Core.Bool.{Bool, true, false}
use mathlib.Core.List.{List, [], ◌∷◌}
use mathlib.Core.Option.{Option, none, some}
use native.Mathlib.Omega.{arith}
use text.Mathlib.Text.{◌==◌}
use text.Mathlib.TextEquality.{eq_iff}
use ziran_os.Prelude.Tests.{if◌then◌else◌}

-- `a === b` on strings.
abbrev pub text_eq : String → String → Bool
text_eq s t = s == t

module _ {ℓ} {Value : Type ℓ} where
  -- `map.get(key)`, with `none` for `undefined`.
  unfoldable pub lookup : String → List (String × Value) → Option Value
  lookup key [] = none
  lookup key ((here, found) ∷ rest) = elim (text_eq here key) [
    | true ↦ some found
    | false ↦ lookup key rest
  ]

  -- `map.set(key, value)`: a key that is there keeps its place, a new one comes last.
  unfoldable pub insert : String → Value → List (String × Value) → List (String × Value)
  insert key value [] = (key, value) ∷ []
  insert key value ((here, old) ∷ rest) = elim (text_eq here key) [
    | true ↦ (key, value) ∷ rest
    | false ↦ (here, old) ∷ insert key value rest
  ]

  -- `get` after `set`: the new value for its key, and what was there for any other.
  pub lookup-insert :
      (set_key asked : String) (value : Value) (entries : List (String × Value))
      → lookup asked (insert set_key value entries)
        ≡ (if text_eq set_key asked then some value else lookup asked entries)
  unfolding lookup insert
  lookup-insert set_key asked value [] = ground arith
  lookup-insert set_key asked value ((here, old) ∷ rest) = ground (
    arith,
    lookup-insert set_key asked value rest,
    eq_iff here set_key,
    eq_iff set_key asked,
    eq_iff here asked,
  )
