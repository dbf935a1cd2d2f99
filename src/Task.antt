-- ===== src/Task.antt =====
-- The scheduler of src/task.rs. `none` is a panic: an index out of range. What the switch itself
-- does, in boot/switch.asm, and the stacks are left out; `yield_now` says between which tasks it
-- switches.
pub mod States
pub mod Queue
pub mod Turns
mod Tests
use ziran_os.Prelude.{
  ℕ, zero, suc, Bool, true, false, Option, none, some, List, [], ◌∷◌, ◌++◌, ◌==◌, if◌then◌else◌,
  length,
}

pub data State : Type 0 where
  ready running finished : State

pub record Task : Type 0 where
  pub id : ℕ
  pub state : State

abbrev pub idle : ℕ
idle = 0

pub record Scheduler : Type 0 where
  pub tasks : List Task
  pub queue : List ℕ  -- the field `ready`
  pub current : ℕ

unfoldable pub with_idle : Scheduler
with_idle = record { tasks = record { id = 0; state = running } ∷ []; queue = []; current = idle }

unfoldable pub spawn : Scheduler → Scheduler × ℕ
spawn s =
    let idx = length s.tasks in
    (
      record s {
        tasks = s.tasks ++ record { id = idx; state = ready } ∷ [];
        queue = s.queue ++ idx ∷ [];
      },
      idx,
    )

-- `tasks[i].state = st`
unfoldable pub set_state : List Task → ℕ → State → Option (List Task)
set_state [] i st = none
set_state (t ∷ ts) zero st = some (record t { state = st } ∷ ts)
set_state (t ∷ ts) (suc i) st = elim (set_state ts i st) [ none ↦ none | some ts' ↦ some (t ∷ ts') ]

-- `tasks[i].state`
unfoldable pub state_at : List Task → ℕ → Option State
state_at [] i = none
state_at (t ∷ ts) zero = some t.state
state_at (t ∷ ts) (suc i) = state_at ts i

-- Requeue the outgoing task unless it is the idle task or has finished.
unfoldable pub requeue : Scheduler → ℕ → Option Scheduler
unfolding set_state state_at
requeue s old = if old == idle then some s else elim (state_at s.tasks old) [
  | none ↦ none
  | some finished ↦ some s
  | some _ ↦ elim (set_state s.tasks old ready) [
    | none ↦ none
    | some ts ↦ some (record s { tasks = ts; queue = s.queue ++ old ∷ [] })
  ]
]

-- `pop_front().unwrap_or(IDLE)`, with what is left.
abbrev pub pop_front : List ℕ → ℕ × List ℕ
pop_front [] = (idle, [])
pop_front (i ∷ is) = (i, is)

-- Make `next` the current task, and say that `old` gives way to it.
unfoldable pub switch_to : ℕ → ℕ → Scheduler → Option (Scheduler × Option (ℕ × ℕ))
unfolding set_state
switch_to old next s = elim (set_state s.tasks next running) [
  | none ↦ none
  | some ts ↦ some (record s { tasks = ts; current = next }, some (old, next))
]

unfoldable pub yield_now : Scheduler → Option (Scheduler × Option (ℕ × ℕ))
unfolding requeue switch_to
yield_now s =
    let old = s.current in
    let (next, rest) = pop_front s.queue in
    let s' = record s { queue = rest } in
    if next == old
    then some (s', none)
    else elim (requeue s' old) [ none ↦ none | some s'' ↦ switch_to old next s'' ]

unfoldable pub task_exit : Scheduler → Option (Scheduler × Option (ℕ × ℕ))
unfolding yield_now
task_exit s = elim (set_state s.tasks s.current finished) [
  | none ↦ none
  | some ts ↦ yield_now (record s { tasks = ts })
]

-- A task is spawned, the current one yields or is preempted, or it ends.
pub data Step : Type 0 where
  spawned yielded exited : Step

abbrev after : Option (Scheduler × Option (ℕ × ℕ)) → Option Scheduler
after none = none
after (some (s, switch)) = some s

unfoldable pub step : Scheduler → Step → Option Scheduler
unfolding spawn yield_now task_exit
step s spawned = some (spawn s).0
step s yielded = after (yield_now s)
step s exited = after (task_exit s)

unfoldable pub run : Scheduler → List Step → Option Scheduler
unfolding step
run s [] = some s
run s (e ∷ es) = elim (step s e) [ none ↦ none | some s' ↦ run s' es ]
