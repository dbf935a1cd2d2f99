-- ===== src/Task/Turns.antt =====
-- When a task of src/task.rs gets its turn.
use mathlib.Core.List.{append_assoc}
use ziran_os.Prelude.{
  ℕ, suc, ◌≡◌, ◌≢◌, refl, ap, subst, ◌+◌, ◌∙◌, some, List, [], ◌∷◌, ◌++◌, length, arith,
}
use ziran_os.Task.{
  Scheduler, with_idle, spawn, pop_front, Step, spawned, yielded, exited, step, run,
}
use ziran_os.Task.Queue.{Good, spawn-Good, switch-Moved, run-Good}

-- How many of some steps give the CPU away.
unfoldable pub switches : List Step → ℕ
switches [] = 0
switches (spawned ∷ es) = switches es
switches (yielded ∷ es) = suc (switches es)
switches (exited ∷ es) = suc (switches es)

-- After the steps, the scheduler runs the task.
abbrev pub Runs : Scheduler → List Step → ℕ → Type 0
Runs s es k = (s' : Scheduler) × (run s es ≡ some s') × (s'.current ≡ k)

then-Runs :
    (s s1 : Scheduler) (e : Step) (es : List Step) (k : ℕ)
    → step s e ≡ some s1
    → Runs s1 es k
    → Runs s (e ∷ es) k
unfolding run
then-Runs s s1 e es k one (s2, more, at) = (s2, ground (arith, one, more), at)

spawns-Runs : (s : Scheduler) (es : List Step) → switches es ≡ 0 → Runs s es s.current
unfolding switches run step spawn
spawns-Runs s [] h = (s, refl, refl)
spawns-Runs s (spawned ∷ es) h = spawns-Runs (spawn s).0 es h
spawns-Runs s (yielded ∷ es) h = absurd (omega arith)
spawns-Runs s (exited ∷ es) h = absurd (omega arith)

module _ (k : ℕ) where
  -- A step that switches brings each task one place forward.
  Turn : List Step → Type 0
  Turn es =
      (s : Scheduler) (xs ys : List ℕ)
      → Good s
      → s.queue ≡ xs ++ k ∷ ys
      → switches es ≡ suc (length xs)
      → Runs s es k

  switch-Runs :
      (e : Step) (es : List Step)
      → e ≢ spawned
      → Turn es
      → (s : Scheduler) (xs ys : List ℕ) → Good s
      → s.queue ≡ xs ++ k ∷ ys
      → switches es ≡ length xs
      → Runs s (e ∷ es) k
  unfolding Turn
  switch-Runs e es ne turn s [] ys g q h =
      let (s1, one, g1, m) = switch-Moved s e g ne in
      let at : s1.current ≡ k = m.front ∙ ap (λ is. (pop_front is).0) q in
      let (s2, more, same) = spawns-Runs s1 es h in then-Runs s s1 e es k one (s2, more, same ∙ at)
  switch-Runs e es ne turn s (x ∷ xs) ys g q h =
      let (s1, one, g1, m) = switch-Moved s e g ne in
      let q1 : s1.queue ≡ xs ++ k ∷ (ys ++ m.more) =
        m.rest ∙ ap (λ is. (pop_front is).1 ++ m.more) q ∙ append_assoc xs (k ∷ ys) m.more in
      then-Runs s s1 e es k one (turn s1 xs (ys ++ m.more) g1 q1 h)

  steps-Turn : (es : List Step) → Turn es
  unfolding Turn switches step spawn
  steps-Turn [] s xs ys g q h = absurd (omega arith)
  steps-Turn (spawned ∷ es) s xs ys g q h =
      let idx = length s.tasks in
      then-Runs s (spawn s).0 spawned es k refl (
        steps-Turn es (spawn s).0 xs (ys ++ idx ∷ []) (spawn-Good s g)
          (ap (λ is. is ++ idx ∷ []) q ∙ append_assoc xs (k ∷ ys) (idx ∷ [])) h)
  steps-Turn (yielded ∷ es) s xs ys g q h =
      switch-Runs yielded es (λ p. cc) (steps-Turn es) s xs ys g q (omega (arith, h))
  steps-Turn (exited ∷ es) s xs ys g q h =
      switch-Runs exited es (λ p. cc) (steps-Turn es) s xs ys g q (omega (arith, h))

-- The turns go round: in any state that a run from the start reaches, a task with `n` others before
-- it in the queue is the current one after any further steps of which `n + 1` are yields,
-- preemptions or exits, whatever is spawned among them, and nothing panics.
pub run-Runs :
    (past : List Step) (s : Scheduler) (xs : List ℕ) (k : ℕ) (ys : List ℕ) (es : List Step)
    → run with_idle past ≡ some s
    → s.queue ≡ xs ++ k ∷ ys
    → switches es ≡ length xs + 1
    → Runs s es k
unfolding Turn
run-Runs past s xs k ys es reached q h =
    let (s', e, g) = run-Good past in
    let same : s' ≡ s = ground (arith, e, reached) in
    steps-Turn k es s xs ys (subst Good same g) q (omega (arith, h))
