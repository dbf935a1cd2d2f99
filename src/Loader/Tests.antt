-- ===== src/Loader/Tests.antt =====
-- Runs of web/load.js on concrete packages.
use text.Mathlib.TextEquality.{eq_iff}
use ziran_os.Prelude.{refl, true, false, ℕ, ◌≡◌, none, List, [], ◌∷◌, replicate, arith}
use ziran_os.Loader.{File, array_buffer, falsy, prepare, fresh, is_success, run_with_fs, on_fetched}
use ziran_os.Loader.Run.{Distinct, all_calls}
use ziran_os.Loader.Order.{added, removed, load_either_order}
use ziran_os.Loader.Script.{
  Done, Waits, loaded, evaluate, on_fetch, pre_run, page, evaluate-Done, evaluate-Waits,
}
use ziran_os.Loader.Slices.{remote_package_size}
use ziran_os.Loader.Progress.{Table}

abbrev files : List File
files =
    record { filename = "/pack/a"; start = 0; end = 2; audio = 0 }
    ∷ record { filename = "/pack/b"; start = 2; end = 3; audio = 0 }
    ∷ []

abbrev three_bytes : List ℕ
three_bytes = 7 ∷ 8 ∷ 9 ∷ []

files-Distinct : Distinct files
files-Distinct = ((λ p. ground (arith, eq_iff "/pack/b" "/pack/a"), tt), (tt, tt))

load_either_order_example :
    let early = run_with_fs files (on_fetched files (array_buffer three_bytes) fresh).0 in
    let late = on_fetched files (array_buffer three_bytes) (run_with_fs files fresh).0 in
    (early.1 ≡ none)
    × (late.1 ≡ none)
    × (early.0.calls ≡ all_calls files three_bytes)
    × (late.0.calls ≡ all_calls files three_bytes)
    × (added (all_calls files three_bytes) ≡ removed (all_calls files three_bytes))
load_either_order_example = load_either_order files three_bytes files-Distinct

evaluate-Done_example :
    let end = loaded 200 true (array_buffer three_bytes) in
    Done files three_bytes (on_fetch files (evaluate files (page files true)) end)
    × Done files three_bytes
        (on_fetch files (pre_run files (evaluate files (page files false))) end)
    × Done files three_bytes
        (pre_run files (on_fetch files (evaluate files (page files false)) end))
unfolding is_success
evaluate-Done_example = evaluate-Done files three_bytes 200 true files-Distinct refl

evaluate-Waits_example :
    let end = loaded 404 true (array_buffer three_bytes) in
    Waits files (on_fetch files (evaluate files (page files true)) end)
    × Waits files (on_fetch files (pre_run files (evaluate files (page files false))) end)
    × Waits files (pre_run files (on_fetch files (evaluate files (page files false)) end))
unfolding is_success
evaluate-Waits_example = evaluate-Waits files (array_buffer three_bytes) 404 true refl

abbrev blank : List ℕ
blank = replicate remote_package_size 0

abbrev downloads : Table
downloads = ("a", record { loaded = 1; total = 3 }) ∷ ("b", record { loaded = 4; total = 4 }) ∷ []

-- A null that comes early is as if nothing had come.
null_waits :
    run_with_fs files (on_fetched files falsy fresh).0
    ≡ (record (prepare files fresh) { callback_set = true }, none)
unfolding run_with_fs on_fetched fresh
null_waits = refl
