-- ===== src/Shell/Canonical.antt =====
-- What `canonicalize` of src/shell.rs returns.
use mathlib.Core.List.{append_assoc, append-nil}
use ziran_os.Prelude.{
  ℕ, ◌≡◌, ◌≢◌, inl, inr, refl, ap, sym, ◌∙◌, false, ◌||◌, List, [], ◌∷◌, ◌++◌, ◌==◌, same,
  if◌then◌else◌, All, All-append, Bool-cases, arith,
}
use ziran_os.Fs.Resolve.{split_path}
use ziran_os.Shell.Path.{
  here, up, drop_last, walk_part, walk, is_absolute, spell, print_path, canonicalize,
}

-- No slash among some bytes.
abbrev pub Plain : List ℕ → Type 0
Plain = All (λ b. (b == b'/') ≡ false)

-- A part of a path that is a name: it is not empty, `.` or `..`, and has no slash.
pub record Name (n : List ℕ) : Type 0 where
  pub some_name : same n [] ≡ false
  pub not_here : same n here ≡ false
  pub not_up : same n up ≡ false
  pub plain : Plain n

-- A canonical path: its names, each behind a slash, or the slash of the root.
abbrev pub Canonical : List ℕ → Type 0
Canonical path = (names : List (List ℕ)) × All Name names × (path ≡ print_path names)

All-drop_last : (P : List ℕ → Type 0) (ns : List (List ℕ)) → All P ns → All P (drop_last ns)
All-drop_last P [] a = tt
All-drop_last P (x ∷ []) a = tt
All-drop_last P (x ∷ y ∷ ys) a = (a.0, All-drop_last P (y ∷ ys) a.1)

-- The step of `split_path`, by an `if`.
split_path-cons :
    (part : List ℕ) (b : ℕ) (bs : List ℕ)
    → split_path part (b ∷ bs)
      ≡ (if b == b'/' then part ∷ split_path [] bs else split_path (part ++ b ∷ []) bs)
unfolding split_path
split_path-cons part b bs = ground arith

split_path-Plain : (part bs : List ℕ) → Plain part → All Plain (split_path part bs)
unfolding split_path
split_path-Plain part [] p = (p, tt)
split_path-Plain part (b ∷ bs) p = elim (Bool-cases (b == b'/')) [
  | inl e ↦ rw (split_path-cons, e) (p, split_path-Plain [] bs tt)
  | inr e ↦
      rw (split_path-cons, e)
        (split_path-Plain (part ++ b ∷ []) bs (All-append _ part (b ∷ []) p (e, tt)))
]

walk_part-Name :
    (stack : List (List ℕ)) (part : List ℕ)
    → All Name stack
    → Plain part
    → All Name (walk_part stack part)
unfolding walk_part
walk_part-Name stack part a p = elim (Bool-cases (same part [] || same part here)) [
  | inl e ↦ rw e a
  | inr e ↦ elim (Bool-cases (same part up)) [
    | inl e' ↦ rw (e, e') (All-drop_last Name stack a)
    | inr e' ↦
        rw (e, e')
          (All-append Name stack (part ∷ []) a (
            record { some_name = ground arith; not_here = ground arith; not_up = e'; plain = p },
            tt,
          ))
  ]
]

walk-Name :
    (stack parts : List (List ℕ)) → All Name stack → All Plain parts → All Name (walk stack parts)
unfolding walk
walk-Name stack [] a ps = a
walk-Name stack (p ∷ ps) a (q, qs) =
    walk-Name (walk_part stack p) ps (walk_part-Name stack p a q) qs

walk-append : (stack ps qs : List (List ℕ)) → walk stack (ps ++ qs) ≡ walk (walk stack ps) qs
unfolding walk
walk-append stack [] qs = refl
walk-append stack (p ∷ ps) qs = walk-append (walk_part stack p) ps qs

walk-names : (stack names : List (List ℕ)) → All Name names → walk stack names ≡ stack ++ names
unfolding walk walk_part
walk-names stack [] a = sym (append-nil stack)
walk-names stack (n ∷ ns) (g, gs) =
    rw (g.some_name, g.not_here, g.not_up)
      (walk-names (stack ++ n ∷ []) ns gs ∙ append_assoc stack (n ∷ []) ns)

split_path-slashless :
    (part n rest : List ℕ) → Plain n → split_path part (n ++ rest) ≡ split_path (part ++ n) rest
unfolding split_path
split_path-slashless part [] rest p = rw append-nil refl
split_path-slashless part (b ∷ bs) rest (e, p) =
    rw (split_path-cons, e)
      (split_path-slashless (part ++ b ∷ []) bs rest p
        ∙ ap (λ k. split_path k rest) (append_assoc part (b ∷ []) bs))

split_path-slash :
    (part xs ys : List ℕ)
    → split_path part (xs ++ b'/' ∷ ys) ≡ split_path part xs ++ split_path [] ys
unfolding split_path
split_path-slash part [] ys = refl
split_path-slash part (b ∷ bs) ys = elim (Bool-cases (b == b'/')) [
  | inl e ↦
      rw (split_path-cons part b (bs ++ b'/' ∷ ys), split_path-cons part b bs, e)
        (ap (◌∷◌ part) (split_path-slash [] bs ys))
  | inr e ↦
      rw (split_path-cons part b (bs ++ b'/' ∷ ys), split_path-cons part b bs, e)
        (split_path-slash (part ++ b ∷ []) bs ys)
]

split_path-spell :
    (part : List ℕ) (names : List (List ℕ))
    → All Name names
    → split_path part (spell names) ≡ part ∷ names
unfolding split_path spell
split_path-spell part [] a = refl
split_path-spell part (n ∷ ns) (g, gs) =
    ap (◌∷◌ part) (split_path-slashless [] n (spell ns) g.plain ∙ split_path-spell n ns gs)

-- Walking a printed path gives its names.
walk-print_path :
    (names : List (List ℕ)) → All Name names → walk [] (split_path [] (print_path names)) ≡ names
unfolding print_path
walk-print_path [] a = unfold split_path walk walk_part in refl
walk-print_path (n ∷ ns) a =
    ap (walk []) (split_path-spell [] (n ∷ ns) a)
    ∙ unfold walk walk_part in walk-names [] (n ∷ ns) a

-- Where `canonicalize` starts from, and the names that it comes to.
abbrev base_of : List ℕ → List ℕ → List ℕ
base_of cwd arg = if is_absolute arg then [] else cwd

abbrev names_of : List ℕ → List ℕ → List (List ℕ)
names_of cwd arg = walk [] (split_path [] (base_of cwd arg) ++ split_path [] arg)

names_of-Name : (cwd arg : List ℕ) → All Name (names_of cwd arg)
names_of-Name cwd arg = walk-Name [] (split_path [] (base_of cwd arg) ++ split_path [] arg) tt (
    All-append Plain (split_path [] (base_of cwd arg)) (split_path [] arg)
      (split_path-Plain [] (base_of cwd arg) tt) (split_path-Plain [] arg tt))

canonicalize-print_path :
    (other : List ℕ) (names : List (List ℕ))
    → All Name names
    → canonicalize other (print_path names) ≡ print_path names
unfolding canonicalize
canonicalize-print_path other [] a = unfold print_path split_path walk walk_part in refl
canonicalize-print_path other (n ∷ ns) a =
    ap print_path (unfold split_path walk walk_part print_path spell in walk-print_path (n ∷ ns) a)

is_absolute-append : (xs ys : List ℕ) → xs ≢ [] → is_absolute (xs ++ ys) ≡ is_absolute xs
is_absolute-append [] ys h = absurd (h refl)
is_absolute-append (x ∷ xs) ys h = refl

-- Whatever the directory and the argument are, the result is canonical: it is `/`, or names each
-- behind one slash, none of them empty, `.` or `..`. And canonicalising it again, from any other
-- directory, changes nothing.
pub canonicalize-Canonical :
    (cwd arg other : List ℕ)
    → Canonical (canonicalize cwd arg)
      × (canonicalize other (canonicalize cwd arg) ≡ canonicalize cwd arg)
canonicalize-Canonical cwd arg other =
    let a = names_of-Name cwd arg in
    let e : canonicalize cwd arg ≡ print_path (names_of cwd arg) = unfold canonicalize in refl in
    ((names_of cwd arg, a, e), rw e (canonicalize-print_path other (names_of cwd arg) a))

-- Going to one path and then to a relative one is going to the two joined by a slash, where the
-- first is not empty.
pub canonicalize-canonicalize :
    (cwd first second : List ℕ)
    → first ≢ []
    → is_absolute second ≡ false
    → canonicalize (canonicalize cwd first) second ≡ canonicalize cwd (first ++ b'/' ∷ second)
unfolding canonicalize
canonicalize-canonicalize cwd first second some_path relative =
    let names = names_of cwd first in
    let base = split_path [] (base_of cwd first) in
    rw (relative, is_absolute-append first (b'/' ∷ second) some_path)
      (ap print_path (
        walk-append [] (split_path [] (print_path names)) (split_path [] second)
        ∙ ap (λ ns. walk ns (split_path [] second))
            (walk-print_path names (names_of-Name cwd first))
        ∙ sym (walk-append [] (base ++ split_path [] first) (split_path [] second))
        ∙ ap (walk []) (
            append_assoc base (split_path [] first) (split_path [] second)
            ∙ ap (λ ps. base ++ ps) (sym (split_path-slash [] first second)))))
