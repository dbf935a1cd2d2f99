-- ===== src/Loader/Script.antt =====
-- The whole script of web/load.js: what it does when it is evaluated, when the fetch ends, and when
-- Emscripten runs the `preRun` hooks.
use ziran_os.Prelude.{
  ℕ, zero, suc, ◌+◌, ◌≡◌, ◌∙◌, refl, ap, String, Bool, true, false, Option, none, some, List, [],
  ◌∷◌, ◌++◌, if◌then◌else◌,
}
use ziran_os.Loader.{
  File, create_path, add_run_dependency, call, package_dependency, Package, array_buffer, Error,
  Loader, fresh, prepare, run_with_fs, kept, on_fetched, is_success,
}
use ziran_os.Loader.Run.{Distinct, opened, all_calls, open_requests-state}
use ziran_os.Loader.Order.{removed, removed-opened, load_either_order}

-- What `Module` and the globals tell the script. `locate_file` is `Module.locateFile`, or, where
-- there is none, the older `Module.locateFilePackage`.
pub record Page : Type 0 where
  pub is_worker : Bool  -- ENVIRONMENT_IS_PTHREAD or $ww
  pub called_run : Bool
  pub expected_downloads : Option ℕ
  pub locate_file : Option (String → String → String)
  pub preloaded : Option Package  -- what getPreloadedPackage returns

-- What goes wrong outside the loader.
pub data Failure : Type 0 where
  network_error bad_status reported : Failure
  thrown : Error → Failure

pub record Script : Type 0 where
  pub loader : Loader
  pub downloads : ℕ
  pub fetching : List String
  pub hooks : ℕ  -- how often runWithFS stands in preRun
  pub failures : List Failure

abbrev pub package_base : String
package_base = "qemu-system-x86_64.data"

unfoldable pub remote_name : Page → String
remote_name p = elim p.locate_file [ some locate ↦ locate package_base "" | none ↦ package_base ]

abbrev note_error : Option Error → List Failure → List Failure
note_error none fs = fs
note_error (some e) fs = fs ++ thrown e ∷ []

-- Let the loader take a step, and keep what it throws.
abbrev in_loader : Script → Loader × Option Error → Script
in_loader s (l, e) = record s { loader = l; failures = note_error e s.failures }

-- How the fetch ends: the read of Node, or the events of the XMLHttpRequest. `none` is an error of
-- the read.
pub data Fetch : Type 0 where
  file_read : Option Package → Fetch
  loaded : (status : ℕ) (has_response : Bool) → Package → Fetch
  errored : Fetch

abbrev fail : Script → Failure → Script
fail s f = record s { failures = s.failures ++ f ∷ [] }

module _ (files : List File) where
  -- The script, evaluated.
  unfoldable pub evaluate : Page → Script
  unfolding remote_name fresh run_with_fs
  evaluate p =
      let got : Option Package = elim p.preloaded [ some q ↦ kept q | none ↦ none ] in
      let l : Loader = record fresh { fetched = got } in
      let s : Script = record {
        loader = fresh;
        downloads = elim p.expected_downloads [ some n ↦ n | none ↦ 0 ] + 1;
        fetching = [];
        hooks = 0;
        failures = [];
      } in
      if p.is_worker
      then s
      else (let s' : Script = record s {
        loader = l;
        fetching = elim got [ some q ↦ [] | none ↦ remote_name p ∷ [] ];
      } in
          if p.called_run then in_loader s' (run_with_fs files l) else record s' { hooks = 1 })

  -- The end of the fetch.
  unfoldable pub on_fetch : Script → Fetch → Script
  unfolding on_fetched is_success
  on_fetch s (file_read (some got)) = in_loader s (on_fetched files got s.loader)
  on_fetch s (file_read none) = fail s reported
  on_fetch s (loaded status has_response got) =
      if is_success status has_response
      then in_loader s (on_fetched files got s.loader)
      else fail s bad_status
  on_fetch s errored = fail s network_error

  -- Emscripten runs the hook.
  unfoldable pub pre_run : Script → Script
  unfolding run_with_fs
  pre_run s = elim s.hooks [
    | zero ↦ s
    | suc n ↦ in_loader (record s { hooks = n }) (run_with_fs files s.loader)
  ]

  -- A script that has put the package's files in place, and nothing went wrong.
  pub record Done (bytes : List ℕ) (s : Script) : Type 0 where
    pub calls : s.loader.calls ≡ all_calls files bytes
    pub failures : s.failures ≡ []

  -- A script that waits for a package that will not come.
  pub record Waits (s : Script) : Type 0 where
    pub calls :
        s.loader.calls
        ≡ create_path "/" "pack" ∷ (opened files ++ add_run_dependency package_dependency ∷ [])
    pub none_removed : removed s.loader.calls ≡ []
    pub failures : s.failures ≡ bad_status ∷ []

  -- A page that is not a worker and has no preloaded package.
  abbrev pub page : Bool → Page
  page called = record {
    is_worker = false;
    called_run = called;
    expected_downloads = none;
    locate_file = none;
    preloaded = none;
  }

  -- On a page that is no worker, has nothing preloaded, and fetches with a status that counts as a
  -- success an ArrayBuffer, the files get in place in each of the three orders: the script comes
  -- after the run began; or it comes before, and the hook runs before the fetch ends, or after it.
  -- Nothing fails. The files have distinct names.
  pub evaluate-Done :
      (bytes : List ℕ) (status : ℕ) (has_response : Bool)
      → Distinct files
      → is_success status has_response ≡ true
      → let end = loaded status has_response (array_buffer bytes) in
        Done bytes (on_fetch (evaluate (page true)) end)
        × Done bytes (on_fetch (pre_run (evaluate (page false))) end)
        × Done bytes (pre_run (on_fetch (evaluate (page false)) end))
  unfolding evaluate on_fetch pre_run fresh run_with_fs on_fetched
  evaluate-Done bytes status has_response d ok =
      let r = load_either_order files bytes d in
      rw ok (
        record { calls = r.3; failures = rw (r.1) refl },
        record { calls = r.3; failures = rw (r.1) refl },
        record { calls = r.2; failures = rw (r.0) refl },
      )

  waiting-calls :
      (prepare files fresh).calls
      ≡ create_path "/" "pack" ∷ (opened files ++ add_run_dependency package_dependency ∷ [])
  unfolding prepare fresh
  waiting-calls =
      ap (λ ks. ks ++ add_run_dependency package_dependency ∷ [])
        (open_requests-state files (call (create_path "/" "pack") fresh)).2

  waiting-removed : removed (prepare files fresh).calls ≡ []
  waiting-removed =
      ap removed waiting-calls ∙ removed-opened files (add_run_dependency package_dependency ∷ [])

  -- When the fetch ends with a status that is no success, in each of the three orders the only
  -- failure is that status, and no dependency that the script has added is ever removed, the
  -- package's included: no file is created and the run goes on waiting.
  pub evaluate-Waits :
      (got : Package) (status : ℕ) (has_response : Bool)
      → is_success status has_response ≡ false
      → let end = loaded status has_response got in
        Waits (on_fetch (evaluate (page true)) end)
        × Waits (on_fetch (pre_run (evaluate (page false))) end)
        × Waits (pre_run (on_fetch (evaluate (page false)) end))
  unfolding evaluate on_fetch pre_run fresh run_with_fs on_fetched
  evaluate-Waits got status has_response bad = rw bad (
    record { calls = waiting-calls; none_removed = waiting-removed; failures = refl },
    record { calls = waiting-calls; none_removed = waiting-removed; failures = refl },
    record { calls = waiting-calls; none_removed = waiting-removed; failures = refl },
  )
