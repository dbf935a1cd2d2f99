-- ===== src/Loader/Run.antt =====
-- What the loops of web/load.js do when no two files share a name.
use ziran_os.Prelude.{
  ℕ, ◌≡◌, ◌≢◌, refl, ap, sym, ◌∙◌, String, Option, none, some, List, [], ◌∷◌, ◌++◌, arith,
}
use text.Mathlib.TextEquality.{eq_iff}
use mathlib.Core.List.{append_assoc, append-nil}
use ziran_os.Prelude.Maps.{lookup, insert, lookup-insert}
use ziran_os.Loader.{
  File, Request, Call, create_path, add_run_dependency, remove_run_dependency, create_data_file,
  Loader, dependency, package_dependency, open_request, open_requests, subarray, on_load,
  load_files,
}

-- No two entries have one filename.
abbrev pub Absent : String → List File → Type 0
Absent name [] = Unit {0}
Absent name (f ∷ fs) = (f.filename ≢ name) × Absent name fs

abbrev pub Distinct : List File → Type 0
Distinct [] = Unit {0}
Distinct (f ∷ fs) = Absent f.filename fs × Distinct fs

abbrev pub request_of : File → Request
request_of f = record { start = f.start; end = f.end; audio = f.audio; name = f.filename }

-- Every file has its request.
abbrev pub Requested : List File → List (String × Option Request) → Type 0
Requested [] rs = Unit {0}
Requested (f ∷ fs) rs = (lookup f.filename rs ≡ some (some (request_of f))) × Requested fs rs

Requested-insert :
    (name : String) (r : Option Request) (fs : List File) (rs : List (String × Option Request))
    → Absent name fs
    → Requested fs rs
    → Requested fs (insert name r rs)
Requested-insert name r [] rs a q = tt
Requested-insert name r (f ∷ fs) rs a q = (
  ground (arith, lookup-insert name f.filename r rs, eq_iff name f.filename, a.0, q.0),
  Requested-insert name r fs rs a.1 q.1,
)

-- The calls that open the files, and those that create them.
abbrev pub opened : List File → List Call
opened [] = []
opened (f ∷ fs) = add_run_dependency (dependency f.filename) ∷ opened fs

abbrev pub created : List ℕ → List File → List Call
created bytes [] = []
created bytes (f ∷ fs) =
    create_data_file f.filename (subarray bytes f.start f.end)
    ∷ remove_run_dependency (dependency f.filename)
    ∷ created bytes fs

open_requests-lookup :
    (name : String) (fs : List File) (l : Loader)
    → Absent name fs
    → lookup name (open_requests fs l).requests ≡ lookup name l.requests
unfolding open_requests
open_requests-lookup name [] l a = refl
open_requests-lookup name (f ∷ fs) l a =
    open_requests-lookup name fs (open_request f l) a.1
    ∙ ground (
      arith,
      lookup-insert f.filename name (some (request_of f)) l.requests,
      eq_iff f.filename name,
      a.0,
    )

pub open_requests-state :
    (fs : List File) (l : Loader)
    → let l' = open_requests fs l in
      (l'.fetched ≡ l.fetched)
      × (l'.callback_set ≡ l.callback_set)
      × (l'.calls ≡ l.calls ++ opened fs)
unfolding open_requests
open_requests-state [] l = (refl, refl, sym (append-nil l.calls))
open_requests-state (f ∷ fs) l =
    let q = open_requests-state fs (open_request f l) in
    (
      q.0,
      q.1,
      q.2 ∙ append_assoc l.calls (add_run_dependency (dependency f.filename) ∷ []) (opened fs),
    )

pub open_requests-Requested :
    (fs : List File) (l : Loader) → Distinct fs → Requested fs (open_requests fs l).requests
unfolding open_requests
open_requests-Requested [] l d = tt
open_requests-Requested (f ∷ fs) l d = (
  open_requests-lookup f.filename fs (open_request f l) d.0
      ∙ ground (
        arith,
        lookup-insert f.filename f.filename (some (request_of f)) l.requests,
        eq_iff f.filename f.filename,
      ),
  open_requests-Requested fs (open_request f l) d.1,
)

on_load-found :
    (f : File) (bytes : List ℕ) (l : Loader)
    → lookup f.filename l.requests ≡ some (some (request_of f))
    → let (l', e) = on_load f.filename bytes l in
      (e ≡ none)
      × (l'.fetched ≡ l.fetched)
      × (l'.callback_set ≡ l.callback_set)
      × (l'.requests ≡ insert f.filename none l.requests)
      × (l'.calls ≡ l.calls ++ created bytes (f ∷ []))
unfolding on_load
on_load-found f bytes l e = rw (e, on_load) (refl, refl, refl, refl, append_assoc l.calls _ _)

-- With a request for each file, the loop ends, creating every file in order.
pub load_files-calls :
    (fs : List File) (bytes : List ℕ) (l : Loader)
    → Distinct fs
    → Requested fs l.requests
    → let (l', e) = load_files fs bytes l in
      (e ≡ none)
      × (l'.fetched ≡ l.fetched)
      × (l'.callback_set ≡ l.callback_set)
      × (l'.calls ≡ l.calls ++ created bytes fs)
unfolding load_files
load_files-calls [] bytes l d q = (refl, refl, refl, sym (append-nil l.calls))
load_files-calls (f ∷ fs) bytes l d q =
    let one = on_load-found f bytes l q.0 in
    let l' = (on_load f.filename bytes l).0 in
    let q' : Requested fs l'.requests =
      rw (one.3) (Requested-insert f.filename none fs l.requests d.0 q.1) in
    let rest = load_files-calls fs bytes l' d.1 q' in
    rw (one.0, load_files)
      (
        rest.0,
        rest.1 ∙ one.1,
        rest.2 ∙ one.2,
        rest.3
            ∙ ap (λ cs. cs ++ created bytes fs) (one.4)
            ∙ append_assoc l.calls (created bytes (f ∷ [])) (created bytes fs),
      )

-- All the calls of a run that goes well.
abbrev pub all_calls : List File → List ℕ → List Call
all_calls files bytes =
    create_path "/" "pack"
    ∷ (opened files
        ++ add_run_dependency package_dependency
          ∷ (created bytes files ++ remove_run_dependency package_dependency ∷ []))
