-- ===== src/Bridge/Limits/Budget.antt =====
-- The hourly budget, whose list of spawn times is cut at the front, against all spawns ever.
use ziran_os.Prelude.{
  ℕ, ◌+◌, ◌≤◌, ◌≡◌, refl, ap, ap₂, sym, Bool, true, false, List, [], ◌∷◌, ◌++◌, ltb, leb,
  if◌then◌else◌, keep, count_if, length-keep, All, Bool-cases, inl, inr, arith,
}
use ziran_os.Bridge.Config.{Config}
use ziran_os.Bridge.Limits.{hour_ms, drop_old, over_hourly_budget}

-- What happens to the budget: a connection asks, or a QEMU is started.
pub data Use : Type 0 where
  ask spawn : ℕ → Use

abbrev pub time : Use → ℕ
time (ask now) = now
time (spawn now) = now

abbrev pub recent : ℕ → ℕ → Bool
recent now t = leb now (t + hour_ms)

-- The answers of the code, which cuts its list at each question.
unfoldable pub budget_answers : Config → List ℕ → List Use → List Bool
budget_answers c times [] = []
budget_answers c times (ask now ∷ us) =
    let (over, left) = over_hourly_budget c now times in over ∷ budget_answers c left us
budget_answers c times (spawn now ∷ us) = budget_answers c (times ++ now ∷ []) us

-- What they should be, from the list of all spawns.
unfoldable pub budget_expected : Config → List ℕ → List Use → List Bool
budget_expected c all [] = []
budget_expected c all (ask now ∷ us) =
    leb c.hourly_budget (count_if (recent now) all) ∷ budget_expected c all us
budget_expected c all (spawn now ∷ us) = budget_expected c (all ++ now ∷ []) us

-- The clock does not run backwards from `last` on.
abbrev pub Monotone : ℕ → List Use → Type 0
Monotone last [] = Unit {0}
Monotone last (u ∷ us) = (last ≤ time u) × Monotone (time u) us

abbrev Ordered : ℕ → List ℕ → Type 0
Ordered lo [] = Unit {0}
Ordered lo (t ∷ ts) = (lo ≤ t) × Ordered t ts

Ordered-weaken : (lo lo' : ℕ) (ts : List ℕ) → lo' ≤ lo → Ordered lo ts → Ordered lo' ts
Ordered-weaken lo lo' [] h o = tt
Ordered-weaken lo lo' (t ∷ ts) h o = (omega arith, o.1)

keep_all_recent :
    (now lo : ℕ) (ts : List ℕ) → recent now lo ≡ true → Ordered lo ts → keep (recent now) ts ≡ ts
keep_all_recent now lo [] r o = refl
keep_all_recent now lo (t ∷ ts) r o =
    let here : recent now t ≡ true = ground arith in
    rw here (ap (◌∷◌ t) (keep_all_recent now t ts here o.1))

-- On an ordered list the loop at the front finds every old entry.
pub drop_old-keep :
    (now lo : ℕ) (ts : List ℕ) → Ordered lo ts → drop_old now ts ≡ keep (recent now) ts
unfolding drop_old
drop_old-keep now lo [] o = refl
drop_old-keep now lo (t ∷ ts) o = elim (Bool-cases (ltb (t + hour_ms) now)) [
  | inl old ↦
      let gone : recent now t ≡ false = ground arith in rw (old, gone) (drop_old-keep now t ts o.1)
  | inr young ↦
      let here : recent now t ≡ true = ground arith in
      rw (young, here) (ap (◌∷◌ t) (sym (keep_all_recent now t ts here o.1)))
]

Ordered-drop_old : (now lo : ℕ) (ts : List ℕ) → Ordered lo ts → Ordered lo (drop_old now ts)
unfolding drop_old
Ordered-drop_old now lo [] o = tt
Ordered-drop_old now lo (t ∷ ts) o = elim (Bool-cases (ltb (t + hour_ms) now)) [
  | inl old ↦ rw old (Ordered-weaken t lo _ o.0 (Ordered-drop_old now t ts o.1))
  | inr young ↦ rw young o
]

All-drop_old : (P : ℕ → Type 0) (now : ℕ) (ts : List ℕ) → All P ts → All P (drop_old now ts)
unfolding drop_old
All-drop_old P now [] a = tt
All-drop_old P now (t ∷ ts) a = elim (Bool-cases (ltb (t + hour_ms) now)) [
  | inl old ↦ rw old (All-drop_old P now ts a.1)
  | inr young ↦ rw young a
]

Ordered-append :
    (lo now : ℕ) (ts : List ℕ)
    → lo ≤ now
    → Ordered lo ts
    → All (λ t. t ≤ now) ts
    → Ordered lo (ts ++ now ∷ [])
Ordered-append lo now [] h o a = (h, tt)
Ordered-append lo now (t ∷ ts) h o a = (o.0, Ordered-append t now ts a.0 o.1 a.1)

All-append_later :
    (last now : ℕ) (ts : List ℕ)
    → last ≤ now
    → All (λ t. t ≤ last) ts
    → All (λ t. t ≤ now) (ts ++ now ∷ [])
All-append_later last now [] h a = (omega arith, tt)
All-append_later last now (t ∷ ts) h a = (omega arith, All-append_later last now ts h a.1)

All-later :
    (last now : ℕ) (ts : List ℕ) → last ≤ now → All (λ t. t ≤ last) ts → All (λ t. t ≤ now) ts
All-later last now [] h a = tt
All-later last now (t ∷ ts) h a = (omega arith, All-later last now ts h a.1)

count-keep-recent :
    (now later : ℕ) (ts : List ℕ)
    → now ≤ later
    → count_if (recent later) (keep (recent now) ts) ≡ count_if (recent later) ts
count-keep-recent now later [] h = refl
count-keep-recent now later (t ∷ ts) h = ground (arith, count-keep-recent now later ts h)

count_if-snoc :
    (p : ℕ → Bool) (x : ℕ) (xs : List ℕ)
    → count_if p (xs ++ x ∷ []) ≡ count_if p xs + (if p x then 1 else 0)
count_if-snoc p x [] = ground arith
count_if-snoc p x (y ∷ xs) = ground (arith, count_if-snoc p x xs)

-- What ties the code's list to the whole history.
record Tracks (times all : List ℕ) (last : ℕ) : Type 0 where
  ordered : Ordered 0 times
  past : All (λ t. t ≤ last) times
  counts : (now : ℕ) → last ≤ now → count_if (recent now) times ≡ count_if (recent now) all

budget_answers-budget_expected_from :
    (c : Config) (times all : List ℕ) (last : ℕ) (us : List Use)
    → Tracks times all last
    → Monotone last us
    → budget_answers c times us ≡ budget_expected c all us
unfolding budget_answers budget_expected over_hourly_budget
budget_answers-budget_expected_from c times all last [] tr m = refl
budget_answers-budget_expected_from c times all last (ask now ∷ us) tr m =
    let cut = drop_old-keep now 0 times tr.ordered in
    let size = length-keep (recent now) times in
    ap₂ ◌∷◌ (rw (cut, size, tr.counts now m.0)) (
      budget_answers-budget_expected_from c (drop_old now times) all now us
        (record {
          ordered = Ordered-drop_old now 0 times tr.ordered;
          past = All-drop_old _ now times (All-later last now times m.0 tr.past);
          counts = λ later h.
              rw (cut, count-keep-recent now later times h) (tr.counts later (omega arith));
        })
        m.1)
budget_answers-budget_expected_from c times all last (spawn now ∷ us) tr m =
    budget_answers-budget_expected_from c (times ++ now ∷ []) (all ++ now ∷ []) now us
      (record {
        ordered =
            Ordered-append 0 now times (omega arith) tr.ordered
              (All-later last now times m.0 tr.past);
        past = All-append_later last now times m.0 tr.past;
        counts = λ later h. omega (
          arith,
          tr.counts later (omega arith),
          count_if-snoc (recent later) now times,
          count_if-snoc (recent later) now all,
        );
      })
      m.1

-- With a clock that does not run backwards, the hourly budget stops a connection exactly when at
-- least HOURLY_BUDGET of all the QEMUs ever started were started within the last hour: cutting the
-- list at the front loses none that still counts.
pub budget_answers-budget_expected :
    (c : Config) (us : List Use) → Monotone 0 us → budget_answers c [] us ≡ budget_expected c [] us
budget_answers-budget_expected c us m =
    budget_answers-budget_expected_from c [] [] 0 us
      (record { ordered = tt; past = tt; counts = λ now h. refl }) m
