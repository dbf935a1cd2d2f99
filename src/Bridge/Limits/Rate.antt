-- ===== src/Bridge/Limits/Rate.antt =====
-- The rate limiter, which forgets old hits, against the whole history of visits.
use ziran_os.Prelude.{
  ℕ, suc, ◌≤◌, ◌≡◌, refl, ap, ap₂, String, Bool, true, List, [], ◌∷◌, ◌++◌, ltb, if◌then◌else◌,
  keep, count_if, length, length-append, length-keep, Bool-cases, inl, inr, arith,
}
use mathlib.Core.List.{append-nil}
use text.Mathlib.TextEquality.{eq_iff}
use ziran_os.Prelude.Maps.{text_eq, lookup, insert, lookup-insert}
use ziran_os.Bridge.Config.{Config}
use ziran_os.Bridge.Limits.{in_window, hits_of, rate_limited}

-- A visit: when, and from which address.
abbrev pub Visit : Type 0
Visit = ℕ × String

-- The times at which an address came.
abbrev pub times_of : String → List Visit → List ℕ
times_of ip [] = []
times_of ip ((t, who) ∷ vs) = if text_eq who ip then t ∷ times_of ip vs else times_of ip vs

-- The limiter's answers over a list of visits.
unfoldable pub rate_answers : Config → List (String × List ℕ) → List Visit → List Bool
rate_answers c table [] = []
rate_answers c table ((now, ip) ∷ vs) =
    let (over, table') = rate_limited c now ip table in over ∷ rate_answers c table' vs

-- What it should say: this visit and the earlier ones of its address in the window are too many.
unfoldable pub rate_expected : Config → List Visit → List Visit → List Bool
rate_expected c past [] = []
rate_expected c past ((now, ip) ∷ vs) =
    ltb c.rate_max (suc (count_if (in_window c now) (times_of ip past)))
    ∷ rate_expected c (past ++ (now, ip) ∷ []) vs

-- The clock does not run backwards from `last` on.
abbrev pub Monotone : ℕ → List Visit → Type 0
Monotone last [] = Unit {0}
Monotone last ((now, ip) ∷ vs) = (last ≤ now) × Monotone now vs

keep-append : (p : ℕ → Bool) (xs ys : List ℕ) → keep p (xs ++ ys) ≡ keep p xs ++ keep p ys
keep-append p [] ys = refl
keep-append p (x ∷ xs) ys = ground (arith, keep-append p xs ys)

keep-keep :
    (p q : ℕ → Bool) (xs : List ℕ)
    → ((x : ℕ) → p x ≡ true → q x ≡ true)
    → keep p (keep q xs) ≡ keep p xs
keep-keep p q [] h = refl
keep-keep p q (x ∷ xs) h = ground (arith, keep-keep p q xs h, h x)

times_of-append :
    (ip : String) (vs : List Visit) (now : ℕ) (who : String)
    → times_of ip (vs ++ (now, who) ∷ [])
      ≡ times_of ip vs ++ (if text_eq who ip then now ∷ [] else [])
times_of-append ip [] now who = ground arith
times_of-append ip ((t, w) ∷ vs) now who = ground (arith, times_of-append ip vs now who)

length-kept_and_now :
    (p : ℕ → Bool) (xs : List ℕ) (now : ℕ) → length (keep p xs ++ now ∷ []) ≡ suc (count_if p xs)
length-kept_and_now p xs now = omega (arith, length-append (keep p xs) (now ∷ []), length-keep p xs)

-- From `last` on, the table knows of every hit that still counts.
abbrev pub Tracks : Config → List (String × List ℕ) → List Visit → ℕ → Type 0
Tracks c table past last =
    (ip : String) (now : ℕ)
    → last ≤ now
    → keep (in_window c now) (hits_of ip table) ≡ keep (in_window c now) (times_of ip past)

in_window_mono :
    (c : Config) (now later t : ℕ)
    → now ≤ later
    → in_window c later t ≡ true
    → in_window c now t ≡ true
in_window_mono c now later t h w = ground arith

hits_of-insert :
    (who ip : String) (hits : List ℕ) (table : List (String × List ℕ))
    → hits_of who (insert ip hits table) ≡ (if text_eq ip who then hits else hits_of who table)
hits_of-insert who ip hits table = rw (lookup-insert ip who hits table) (ground arith)

rate_limited-Tracks :
    (c : Config) (table : List (String × List ℕ)) (past : List Visit) (last now : ℕ) (ip : String)
    → last ≤ now
    → Tracks c table past last
    → Tracks c (rate_limited c now ip table).1 (past ++ (now, ip) ∷ []) now
unfolding rate_limited
rate_limited-Tracks c table past last now ip h tr who later le =
    rw
      (
        hits_of-insert who ip (keep (in_window c now) (hits_of ip table) ++ now ∷ []) table,
        times_of-append who past now ip,
      )
      (elim (Bool-cases (text_eq ip who)) [
        | inl same ↦
            let p : ip ≡ who = (eq_iff ip who).0 same in
            rw (
              same,
              p,
              keep-append (in_window c later),
              keep-append (in_window c later),
              keep-keep (in_window c later) (in_window c now) (hits_of who table)
                  (λ t. in_window_mono c now later t le),
              tr who later (omega arith),
            )
        | inr other ↦ rw (other, append-nil) (tr who later (omega arith))
      ])

rate_limited-answer :
    (c : Config) (table : List (String × List ℕ)) (past : List Visit) (last now : ℕ) (ip : String)
    → last ≤ now
    → Tracks c table past last
    → (rate_limited c now ip table).0
      ≡ ltb c.rate_max (suc (count_if (in_window c now) (times_of ip past)))
unfolding rate_limited
rate_limited-answer c table past last now ip h tr =
    rw (tr ip now h)
      (ap (ltb c.rate_max) (length-kept_and_now (in_window c now) (times_of ip past) now))

rate_answers-rate_expected_from :
    (c : Config) (table : List (String × List ℕ)) (past vs : List Visit) (last : ℕ)
    → Tracks c table past last
    → Monotone last vs
    → rate_answers c table vs ≡ rate_expected c past vs
unfolding rate_answers rate_expected
rate_answers-rate_expected_from c table past [] last tr m = refl
rate_answers-rate_expected_from c table past ((now, ip) ∷ vs) last tr m =
    ap₂ ◌∷◌ (rate_limited-answer c table past last now ip m.0 tr) (
      rate_answers-rate_expected_from c (rate_limited c now ip table).1 (past ++ (now, ip) ∷ []) vs
        now (rate_limited-Tracks c table past last now ip m.0 tr) m.1)

-- With a clock that does not run backwards, starting from an empty table, a visit is called rate
-- limited exactly when more than RATE_MAX visits of its address, this one included, refused ones
-- too, fall into the window that ends with it: forgetting old hits loses none that counts, and the
-- visits of other addresses do not matter.
pub rate_answers-rate_expected :
    (c : Config) (vs : List Visit) → Monotone 0 vs → rate_answers c [] vs ≡ rate_expected c [] vs
unfolding lookup
rate_answers-rate_expected c vs m =
    rate_answers-rate_expected_from c [] [] vs 0 (λ ip now h. refl) m
