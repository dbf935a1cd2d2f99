-- ===== src/Task/Queue.antt =====
-- That the scheduler of src/task.rs neither panics nor loses a task.
use ziran_os.Prelude.{
  ℕ, ◌+◌, ◌<◌, ◌≤◌, ◌≡◌, ◌⊎◌, ◌≢◌, refl, sym, true, false, Option, none, some, List, [], ◌∷◌, ◌++◌,
  ◌==◌, if◌then◌else◌, length, length-append, count_if, count_if-append, Bool-cases, inl, inr,
  arith,
}
use mathlib.Core.List.{append-nil}
use ziran_os.Task.States.{set_state-some, state_at-append, requeue-cases}
use ziran_os.Task.{
  ready, running, finished, Task, idle, Scheduler, with_idle, spawn, state_at, pop_front, switch_to,
  yield_now, task_exit, Step, spawned, yielded, exited, step, run,
}

-- How often a task stands in a queue.
abbrev pub times : ℕ → List ℕ → ℕ
times i is = count_if (λ j. j == i) is

-- Every task but the idle one that has not finished is current or stands in the queue, once; the
-- finished ones and the idle one do not stand in it, nor does what is no task; the current task is
-- one.
pub record Good (s : Scheduler) : Type 0 where
  pub some_task : 0 < length s.tasks
  pub current_in : s.current < length s.tasks
  pub no_idle : times idle s.queue ≡ 0
  pub only_tasks : (i : ℕ) → length s.tasks ≤ i → times i s.queue ≡ 0
  pub done : (i : ℕ) → state_at s.tasks i ≡ some finished → times i s.queue ≡ 0
  pub alive :
      (i : ℕ)
      → 0 < i
      → i < length s.tasks
      → state_at s.tasks i ≢ some finished
      → times i s.queue + (if i == s.current then 1 else 0) ≡ 1

pub spawn-Good : (s : Scheduler) → Good s → Good (spawn s).0
unfolding spawn
spawn-Good s g =
    let new : Task = record { id = length s.tasks; state = ready } in
    let size = length-append s.tasks (new ∷ []) in
    let count = λ (i : ℕ). count_if-append (λ j. j == i) s.queue (length s.tasks ∷ []) in
    record {
      some_task = omega (arith, size);
      current_in = omega (arith, size, g.current_in);
      no_idle = ground (arith, count 0, g.no_idle, g.some_task);
      only_tasks = λ i h. ground (arith, size, count i, g.only_tasks i);
      done =
          λ i h. ground (arith, count i, g.done i, g.only_tasks i, state_at-append s.tasks new i);
      alive = λ i pos lt live. ground (
        arith,
        size,
        count i,
        g.alive i,
        g.only_tasks i,
        g.current_in,
        state_at-append s.tasks new i,
      );
    }

-- What is known of the next task and of the rest of the queue.
record Front (s : Scheduler) (next : ℕ) (rest : List ℕ) : Type 0 where
  next_in : next < length s.tasks
  split : (i : ℕ) → 0 < i → times i s.queue ≡ times i rest + (if next == i then 1 else 0)
  rest_idle : times idle rest ≡ 0

pop_front-Front : (s : Scheduler) → Good s → Front s (pop_front s.queue).0 (pop_front s.queue).1
pop_front-Front s g = go s.queue g.no_idle g.only_tasks
  where
    go :
        (q : List ℕ)
        → times idle q ≡ 0
        → ((i : ℕ) → length s.tasks ≤ i → times i q ≡ 0)
        → Front (record s { queue = q }) (pop_front q).0 (pop_front q).1
    go [] z o = record { next_in = g.some_task; split = λ i pos. ground arith; rest_idle = refl }
    go (x ∷ xs) z o = record {
      next_in = ground (arith, o x);
      split = λ i pos. ground arith;
      rest_idle = ground arith;
    }

stay :
    (s : Scheduler)
    → Good s
    → (next : ℕ) (rest : List ℕ) → Front s next rest
    → (next == s.current) ≡ true
    → Good (record s { queue = rest })
stay s g next rest f same =
    let zero_next : s.current ≡ 0 =
      ground (arith, f.split s.current, g.alive s.current, g.done s.current, g.current_in) in
    record {
      some_task = g.some_task;
      current_in = g.current_in;
      no_idle = f.rest_idle;
      only_tasks = λ i h. ground (arith, f.split i, g.only_tasks i, g.some_task);
      done = λ i h. ground (arith, f.split i, g.done i, f.rest_idle);
      alive = λ i pos lt live. ground (arith, f.split i, g.alive i);
    }

module _ (s : Scheduler) (g : Good s) (next : ℕ) (rest : List ℕ) (f : Front s next rest)
    (other : (next == s.current) ≡ false) where
  -- The next task has not finished, or is the idle one.
  next_unfinished : 0 < next → state_at s.tasks next ≢ some finished
  next_unfinished pos e = ground (arith, f.split next, g.done next)

  unqueued-Good :
      (ts : List Task)
      → (s.current ≡ idle) ⊎ (state_at s.tasks s.current ≡ some finished)
      → length ts ≡ length s.tasks
      → ((j : ℕ) → state_at ts j ≡ (if next == j then some running else state_at s.tasks j))
      → Good (record s { tasks = ts; queue = rest; current = next })
  unqueued-Good ts why size at = record {
    some_task = omega (arith, size, g.some_task);
    current_in = omega (arith, size, f.next_in);
    no_idle = f.rest_idle;
    only_tasks = λ i h. ground (arith, f.split i, g.only_tasks i, g.some_task, size);
    done = λ i h. ground (arith, f.split i, g.done i, f.rest_idle, at i);
    alive = λ i pos lt live. ground (arith, size, f.split i, g.alive i, at i, next_unfinished);
  }

  queued-Good :
      (ts ts' : List Task)
      → s.current ≢ idle
      → state_at s.tasks s.current ≢ some finished
      → length ts ≡ length s.tasks
      → ((j : ℕ) → state_at ts j ≡ (if s.current == j then some ready else state_at s.tasks j))
      → length ts' ≡ length ts
      → ((j : ℕ) → state_at ts' j ≡ (if next == j then some running else state_at ts j))
      → Good (record s { tasks = ts'; queue = rest ++ s.current ∷ []; current = next })
  queued-Good ts ts' nz live size at size' at' =
      let count = λ (i : ℕ). count_if-append (λ j. j == i) rest (s.current ∷ []) in
      record {
        some_task = omega (arith, size, size', g.some_task);
        current_in = omega (arith, size, size', f.next_in);
        no_idle = ground (arith, count 0, f.rest_idle, nz);
        only_tasks = λ i h.
            ground
              (arith, count i, f.split i, g.only_tasks i, g.some_task, g.current_in, size, size');
        done = λ i h. ground (arith, count i, f.split i, g.done i, f.rest_idle, at i, at' i);
        alive = λ i pos lt up.
            ground
              (arith, size, size', count i, f.split i, g.alive i, at i, at' i, next_unfinished);
      }

-- What a switch does to the queue: the front task becomes the current one, and the rest stays in
-- place, with at most something new after it.
pub record Moved (s s' : Scheduler) : Type 0 where
  pub front : s'.current ≡ (pop_front s.queue).0
  pub more : List ℕ
  pub rest : s'.queue ≡ (pop_front s.queue).1 ++ more

pub yield_now-Good :
    (s : Scheduler)
    → Good s
    → (s' : Scheduler) × (switch : Option (ℕ × ℕ)) × (yield_now s ≡ some (s', switch))
      × Good s'
      × Moved s s'
unfolding yield_now
yield_now-Good s g =
    let next = (pop_front s.queue).0 in
    let rest = (pop_front s.queue).1 in
    let f = pop_front-Front s g in
    let s' : Scheduler = record s { queue = rest } in
    elim (Bool-cases (next == s.current)) [
      | inl same ↦
          let gone : Moved s s' = record {
            front = ground arith;
            more = [];
            rest = sym (append-nil rest);
          } in
          (s', none, rw same refl, stay s g next rest f same, gone)
      | inr other ↦ elim (requeue-cases s' s.current g.current_in) [
        | inl (e, why) ↦
            let (ts, made, size, at) = set_state-some s.tasks next running f.next_in in
            (
              record s { queue = rest; tasks = ts; current = next },
              some (s.current, next),
              rw (other, e, switch_to, made) refl,
              unqueued-Good s g next rest f other ts why size at,
              record { front = refl; more = []; rest = sym (append-nil rest) },
            )
        | inr (ts, e, nz, live, size, at) ↦
            let (ts', made, size', at') =
              set_state-some ts next running (omega (arith, size, f.next_in)) in
            (
              record s { queue = rest ++ s.current ∷ []; tasks = ts'; current = next },
              some (s.current, next),
              rw (other, e, switch_to, made) refl,
              queued-Good s g next rest f other ts ts' nz live size at size' at',
              record { front = refl; more = s.current ∷ []; rest = refl },
            )
      ]
    ]

exit-Good :
    (s : Scheduler) (ts : List Task)
    → Good s
    → length ts ≡ length s.tasks
    → ((j : ℕ) → state_at ts j ≡ (if s.current == j then some finished else state_at s.tasks j))
    → Good (record s { tasks = ts })
exit-Good s ts g size at = record {
  some_task = omega (arith, size, g.some_task);
  current_in = omega (arith, size, g.current_in);
  no_idle = g.no_idle;
  only_tasks = λ i h. ground (arith, size, g.only_tasks i);
  done = λ i h. ground (arith, at i, g.done i, g.alive i, g.no_idle, g.current_in);
  alive = λ i pos lt live. ground (arith, size, at i, g.alive i);
}

-- A yield and an exit move the queue on.
pub switch-Moved :
    (s : Scheduler) (e : Step)
    → Good s
    → e ≢ spawned
    → (s' : Scheduler) × (step s e ≡ some s') × Good s' × Moved s s'
unfolding step task_exit
switch-Moved s spawned g ne = absurd (ne refl)
switch-Moved s yielded g ne =
    let (s', switch, e, g', m) = yield_now-Good s g in (s', rw e refl, g', m)
switch-Moved s exited g ne =
    let (ts, made, size, at) = set_state-some s.tasks s.current finished g.current_in in
    let (s', switch, e, g', m) =
      yield_now-Good (record s { tasks = ts }) (exit-Good s ts g size at) in
    (s', ground (arith, made, e), g', record { front = m.front; more = m.more; rest = m.rest })

pub step-Good :
    (s : Scheduler) (e : Step) → Good s → (s' : Scheduler) × (step s e ≡ some s') × Good s'
unfolding step
step-Good s spawned g = ((spawn s).0, refl, spawn-Good s g)
step-Good s yielded g = let (s', e, g', m) = switch-Moved s yielded g (λ p. cc) in (s', e, g')
step-Good s exited g = let (s', e, g', m) = switch-Moved s exited g (λ p. cc) in (s', e, g')

run-Good_from :
    (s : Scheduler) (es : List Step) → Good s → (s' : Scheduler) × (run s es ≡ some s') × Good s'
unfolding run
run-Good_from s [] g = (s, refl, g)
run-Good_from s (x ∷ es) g =
    let (s1, e1, g1) = step-Good s x g in
    let (s2, e2, g2) = run-Good_from s1 es g1 in (s2, ground (arith, e1, e2), g2)

-- From the start on, whatever tasks are spawned, yield, are preempted or end, in any order, the
-- scheduler never panics, and no task is lost or doubled: each one but the idle that has not
-- finished is current or stands in the queue exactly once, and neither a finished task nor the idle
-- one nor anything that is no task stands in it.
pub run-Good : (es : List Step) → (s : Scheduler) × (run with_idle es ≡ some s) × Good s
unfolding with_idle state_at
run-Good es = run-Good_from with_idle es (record {
  some_task = omega arith;
  current_in = omega arith;
  no_idle = refl;
  only_tasks = λ i h. refl;
  done = λ i h. refl;
  alive = λ i pos lt live. absurd (omega arith);
})
