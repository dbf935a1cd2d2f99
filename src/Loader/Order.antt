-- ===== src/Loader/Order.antt =====
-- The package may arrive before the file system is ready or after it.
use mathlib.Core.List.{append_assoc}
use ziran_os.Prelude.{ℕ, ◌≡◌, refl, ap, sym, ◌∙◌, String, true, none, List, [], ◌∷◌, ◌++◌, arith}
use ziran_os.Loader.{
  File, Call, create_path, add_run_dependency, remove_run_dependency, create_data_file,
  array_buffer, Loader, fresh, call, dependency, package_dependency, process_package_data, prepare,
  run_with_fs, on_fetched,
}
use ziran_os.Loader.Run.{
  Distinct, Requested, opened, created, all_calls, open_requests-state, open_requests-Requested,
  load_files-calls,
}

-- The dependencies that some calls add, and those that they remove.
abbrev pub added : List Call → List String
added [] = []
added (add_run_dependency d ∷ ks) = d ∷ added ks
added (remove_run_dependency d ∷ ks) = added ks
added (create_path a b ∷ ks) = added ks
added (create_data_file f d ∷ ks) = added ks

abbrev pub removed : List Call → List String
removed [] = []
removed (remove_run_dependency d ∷ ks) = d ∷ removed ks
removed (add_run_dependency d ∷ ks) = removed ks
removed (create_path a b ∷ ks) = removed ks
removed (create_data_file f d ∷ ks) = removed ks

added-created :
    (bytes : List ℕ) (fs : List File) (ks : List Call) → added (created bytes fs ++ ks) ≡ added ks
added-created bytes [] ks = refl
added-created bytes (f ∷ fs) ks = added-created bytes fs ks

abbrev names : List File → List String
names [] = []
names (f ∷ fs) = dependency f.filename ∷ names fs

added-opened : (fs : List File) (ks : List Call) → added (opened fs ++ ks) ≡ names fs ++ added ks
added-opened [] ks = refl
added-opened (f ∷ fs) ks = ap (◌∷◌ (dependency f.filename)) (added-opened fs ks)

pub removed-opened : (fs : List File) (ks : List Call) → removed (opened fs ++ ks) ≡ removed ks
removed-opened [] ks = refl
removed-opened (f ∷ fs) ks = removed-opened fs ks

removed-created :
    (bytes : List ℕ) (fs : List File) (ks : List Call)
    → removed (created bytes fs ++ ks) ≡ names fs ++ removed ks
removed-created bytes [] ks = refl
removed-created bytes (f ∷ fs) ks = ap (◌∷◌ (dependency f.filename)) (removed-created bytes fs ks)

added-removed :
    (fs : List File) (bytes : List ℕ) → added (all_calls fs bytes) ≡ removed (all_calls fs bytes)
added-removed fs bytes =
    added-opened fs _
    ∙ ap (λ ds. names fs ++ package_dependency ∷ ds) (added-created bytes fs _)
    ∙ sym (removed-opened fs _ ∙ removed-created bytes fs _)

prepare-state :
    (fs : List File) (l : Loader)
    → Distinct fs
    → let l' = prepare fs l in
      (l'.fetched ≡ l.fetched)
      × (l'.callback_set ≡ l.callback_set)
      × (l'.calls
          ≡ ((l.calls ++ create_path "/" "pack" ∷ []) ++ opened fs)
            ++ add_run_dependency package_dependency ∷ [])
      × Requested fs l'.requests
unfolding prepare
prepare-state fs l d =
    let l0 = call (create_path "/" "pack") l in
    let q = open_requests-state fs l0 in
    (
      q.0,
      q.1,
      ap (λ ks. ks ++ add_run_dependency package_dependency ∷ []) q.2,
      open_requests-Requested fs l0 d,
    )

process-calls :
    (fs : List File) (bytes : List ℕ) (l : Loader)
    → Distinct fs
    → Requested fs l.requests
    → let (l', e) = process_package_data fs (array_buffer bytes) l in
      (e ≡ none)
      × (l'.calls ≡ (l.calls ++ created bytes fs) ++ remove_run_dependency package_dependency ∷ [])
unfolding process_package_data
process-calls fs bytes l d q = let r = load_files-calls fs bytes l d q in ground (arith, r)

all_calls-split :
    (fs : List File) (bytes : List ℕ)
    → ((((([] ++ create_path "/" "pack" ∷ []) ++ opened fs)
            ++ add_run_dependency package_dependency ∷ [])
          ++ created bytes fs)
        ++ remove_run_dependency package_dependency ∷ [])
      ≡ all_calls fs bytes
all_calls-split fs bytes = simp append_assoc

-- Whether the package arrives before the file system is ready or after it, no exception is thrown,
-- and the calls of `Module` are the same: the path, a dependency for each file and one for the
-- package, then for each file its creation from its slice of the package and the removal of its
-- dependency, in order, and at the end the removal of the package's. So every dependency that was
-- added is removed once. The files have distinct names and the package is an ArrayBuffer.
pub load_either_order :
    (files : List File) (bytes : List ℕ)
    → Distinct files
    → let early = run_with_fs files (on_fetched files (array_buffer bytes) fresh).0 in
      let late = on_fetched files (array_buffer bytes) (run_with_fs files fresh).0 in
      (early.1 ≡ none)
      × (late.1 ≡ none)
      × (early.0.calls ≡ all_calls files bytes)
      × (late.0.calls ≡ all_calls files bytes)
      × (added (all_calls files bytes) ≡ removed (all_calls files bytes))
unfolding run_with_fs on_fetched fresh
load_either_order files bytes d =
    let l1 = (on_fetched files (array_buffer bytes) fresh).0 in
    let p1 = prepare-state files l1 d in
    let r1 = process-calls files bytes (prepare files l1) d p1.3 in
    let p2 = prepare-state files fresh d in
    let l2 = record (prepare files fresh) { callback_set = true } in
    let r2 = process-calls files bytes l2 d p2.3 in
    let split = all_calls-split files bytes in
    (
      ground (arith, r1),
      ground (arith, r2),
      ground (arith, p1, r1, split),
      ground (arith, p2, r2, split),
      added-removed files bytes,
    )
