-- ===== src/Task/States.antt =====
-- What the updates of src/task.rs leave in the task table.
use ziran_os.Prelude.{
  ℕ, zero, suc, ◌<◌, ◌≡◌, ◌⊎◌, ◌≢◌, refl, ap, Option, none, some, List, [], ◌∷◌, ◌++◌, ◌==◌,
  if◌then◌else◌, length, Bool-cases, inl, inr, arith,
}
use ziran_os.Task.{
  State, ready, running, finished, Task, idle, Scheduler, set_state, state_at, requeue,
}

pub set_state-some :
    (ts : List Task) (i : ℕ) (st : State)
    → i < length ts
    → (ts' : List Task) × (set_state ts i st ≡ some ts')
      × (length ts' ≡ length ts)
      × ((j : ℕ) → state_at ts' j ≡ (if i == j then some st else state_at ts j))
unfolding set_state state_at
set_state-some [] i st h = absurd (omega arith)
set_state-some (t ∷ ts) zero st h = (record t { state = st } ∷ ts, refl, refl, λ j. at_zero j)
  where
    at_zero :
        (j : ℕ)
        → state_at (record t { state = st } ∷ ts) j
          ≡ (if 0 == j then some st else state_at (t ∷ ts) j)
    at_zero zero = ground arith
    at_zero (suc j) = ground arith
set_state-some (t ∷ ts) (suc i) st h =
    let (ts', e, size, at) = set_state-some ts i st (omega arith) in
    (t ∷ ts', ground (arith, e), ap suc size, λ j. further ts' at j)
  where
    further :
        (ts' : List Task)
        → ((j : ℕ) → state_at ts' j ≡ (if i == j then some st else state_at ts j))
        → (j : ℕ) → state_at (t ∷ ts') j ≡ (if suc i == j then some st else state_at (t ∷ ts) j)
    further ts' at zero = ground arith
    further ts' at (suc j) = ground (arith, at j)

pub state_at-append :
    (ts : List Task) (t : Task) (i : ℕ)
    → state_at (ts ++ t ∷ []) i ≡ (if i == length ts then some t.state else state_at ts i)
unfolding state_at
state_at-append [] t zero = ground arith
state_at-append [] t (suc i) = ground arith
state_at-append (u ∷ ts) t zero = ground arith
state_at-append (u ∷ ts) t (suc i) = ground (arith, state_at-append ts t i)

pub state_at-inside : (ts : List Task) (i : ℕ) → i < length ts → state_at ts i ≢ none
unfolding state_at
state_at-inside [] i h = absurd (omega arith)
state_at-inside (t ∷ ts) zero h = λ e. ground (arith, e)
state_at-inside (t ∷ ts) (suc i) h = state_at-inside ts i (omega arith)

pub state_cases :
    (o : Option State) → (o ≡ none) ⊎ (o ≡ some finished) ⊎ (o ≡ some ready) ⊎ (o ≡ some running)
state_cases none = inl refl
state_cases (some finished) = inr (inl refl)
state_cases (some ready) = inr (inr (inl refl))
state_cases (some running) = inr (inr (inr refl))

-- What `requeue` does: nothing for the idle and for a finished task, and otherwise it marks the task
-- ready and puts it last.
pub requeue-cases :
    (s : Scheduler) (old : ℕ)
    → old < length s.tasks
    → ((requeue s old ≡ some s) × ((old ≡ idle) ⊎ (state_at s.tasks old ≡ some finished)))
      ⊎ ((ts : List Task) × (requeue s old
            ≡ some (record s { tasks = ts; queue = s.queue ++ old ∷ [] }))
          × (old ≢ idle)
          × (state_at s.tasks old ≢ some finished)
          × (length ts ≡ length s.tasks)
          × ((j : ℕ) → state_at ts j ≡ (if old == j then some ready else state_at s.tasks j)))
unfolding requeue
requeue-cases s old h =
    let (ts, e, size, at) = set_state-some s.tasks old ready h in
    elim (Bool-cases (old == idle)) [
      | inl z ↦ inl (rw z refl, inl (ground arith))
      | inr nz ↦ elim (state_cases (state_at s.tasks old)) [
        | inl none_there ↦ absurd (state_at-inside s.tasks old h none_there)
        | inr (inl gone) ↦ inl (rw (nz, gone) refl, inr gone)
        | inr (inr (inl waiting)) ↦
            inr (ts, rw (nz, waiting, e) refl, ground arith, ground (arith, waiting), size, at)
        | inr (inr (inr active)) ↦
            inr (ts, rw (nz, active, e) refl, ground arith, ground (arith, active), size, at)
      ]
    ]
