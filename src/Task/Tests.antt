-- ===== src/Task/Tests.antt =====
-- Runs of the scheduler of src/task.rs.
use ziran_os.Prelude.{none, ℕ, ◌≡◌, refl, some, Option, List, [], ◌∷◌}
use ziran_os.Task.{spawn, step, Scheduler, with_idle, Step, spawned, yielded, exited, run}
use ziran_os.Task.Turns.{Runs, switches, run-Runs}
use ziran_os.Task.Queue.{Good, run-Good}

abbrev two_workers : List Step
two_workers = spawned ∷ spawned ∷ yielded ∷ yielded ∷ exited ∷ yielded ∷ []

run-Good_example : (s : Scheduler) × (run with_idle two_workers ≡ some s) × Good s
run-Good_example = run-Good two_workers

abbrev current_of : Option Scheduler → Option ℕ
current_of none = none
current_of (some s) = some s.current

two_workers_current : current_of (run with_idle two_workers) ≡ some 0
unfolding run with_idle
two_workers_current = refl

abbrev start_up : List Step
start_up = spawned ∷ spawned ∷ []

abbrev started : Scheduler
started = (spawn (spawn with_idle).0).0

run-Runs_example : Runs started (yielded ∷ spawned ∷ exited ∷ []) 2
unfolding run step spawn with_idle switches
run-Runs_example =
    run-Runs start_up started (1 ∷ []) 2 [] (yielded ∷ spawned ∷ exited ∷ []) refl refl refl
