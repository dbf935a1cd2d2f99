-- ===== src/Loader.antt =====
-- web/load.js, which fetches the package of firmware images and puts its files into Emscripten's
-- file system. Calls of Emscripten's `Module` are recorded in order.
pub mod Run
pub mod Order
pub mod Progress
pub mod Slices
pub mod Script
mod Tests
use ziran_os.Prelude.{
  ℕ, ◌-◌, String, Bool, true, false, ◌&&◌, ◌||◌, Option, none, some, List, [], ◌∷◌, ◌++◌, ◌==◌,
  if◌then◌else◌, take, drop,
}
use ziran_os.Prelude.Maps.{lookup, insert}
use ziran_os.Prelude.Text.{concat}

-- An entry of `metadata.files`.
pub record File : Type 0 where
  pub filename : String
  pub start : ℕ
  pub end : ℕ
  pub audio : ℕ

-- A `DataRequest`.
pub record Request : Type 0 where
  pub start : ℕ
  pub end : ℕ
  pub audio : ℕ
  pub name : String

-- What is called on `Module`.
pub data Call : Type 0 where
  create_path : String → String → Call
  add_run_dependency remove_run_dependency : String → Call
  create_data_file : String → List ℕ → Call

-- What a fetch hands over: an ArrayBuffer, a falsy value such as the null of a failed response, or
-- something else.
pub data Package : Type 0 where
  array_buffer : List ℕ → Package
  falsy other : Package

-- What is thrown: by the two assertions on the package, and by `null.onload()` or `undefined.onload()`.
pub data Error : Type 0 where
  loading_failed bad_input no_request : Error

pub record Loader : Type 0 where
  pub fetched : Option Package  -- `none` for null and the other falsy values
  pub callback_set : Bool  -- fetchedCallback is processPackageData
  pub requests : List (String × Option Request)  -- `some (name, none)` for null
  pub calls : List Call

-- The state of the page before the loader runs.
unfoldable pub fresh : Loader
fresh = record { fetched = none; callback_set = false; requests = []; calls = [] }

abbrev pub dependency : String → String
dependency name = concat "fp " name

abbrev pub package_dependency : String
package_dependency = "datafile_qemu-system-x86_64.data"

abbrev pub call : Call → Loader → Loader
call k l = record l { calls = l.calls ++ k ∷ [] }

-- `DataRequest.prototype.open` on a new request of a file.
unfoldable pub open_request : File → Loader → Loader
open_request f l = call (add_run_dependency (dependency f.filename)) (record l {
  requests =
      insert f.filename
        (some (record { start = f.start; end = f.end; audio = f.audio; name = f.filename }))
        l.requests;
})

unfoldable pub open_requests : List File → Loader → Loader
unfolding open_request
open_requests [] l = l
open_requests (f ∷ fs) l = open_requests fs (open_request f l)

-- `byteArray.subarray(start, end)`, which clamps both ends.
unfoldable pub subarray : List ℕ → ℕ → ℕ → List ℕ
subarray bytes start end = take (end - start) (drop start bytes)

-- `finish`
unfoldable pub finish : Request → List ℕ → Loader → Loader
finish r bytes l =
    record (call (remove_run_dependency (dependency r.name))
      (call (create_data_file r.name bytes) l)) { requests = insert r.name none l.requests }

-- `requests[name].onload()`
unfoldable pub on_load : String → List ℕ → Loader → Loader × Option Error
unfolding finish subarray
on_load name bytes l = elim (lookup name l.requests) [
  | some (some r) ↦ (finish r (subarray bytes r.start r.end) l, none)
  | _ ↦ (l, some no_request)
]

-- The loop over the files; an exception ends it.
unfoldable pub load_files : List File → List ℕ → Loader → Loader × Option Error
unfolding on_load
load_files [] bytes l = (l, none)
load_files (f ∷ fs) bytes l =
    let (l', e) = on_load f.filename bytes l in
    elim e [ some x ↦ (l', some x) | none ↦ load_files fs bytes l' ]

abbrev then_call : Call → Loader × Option Error → Loader × Option Error
then_call k (l, none) = (call k l, none)
then_call k (l, some e) = (l, some e)

-- `processPackageData`
unfoldable pub process_package_data : List File → Package → Loader → Loader × Option Error
unfolding load_files
process_package_data files falsy l = (l, some loading_failed)
process_package_data files other l = (l, some bad_input)
process_package_data files (array_buffer bytes) l =
    then_call (remove_run_dependency package_dependency) (load_files files bytes l)

-- What `runWithFS` does before it looks at `fetched`.
unfoldable pub prepare : List File → Loader → Loader
unfolding open_requests
prepare files l =
    call (add_run_dependency package_dependency)
      (open_requests files (call (create_path "/" "pack") l))

abbrev clear_fetched : Loader × Option Error → Loader × Option Error
clear_fetched (l, none) = (record l { fetched = none }, none)
clear_fetched (l, some e) = (l, some e)

-- `runWithFS`
unfoldable pub run_with_fs : List File → Loader → Loader × Option Error
unfolding prepare process_package_data
run_with_fs files l =
    let l' = prepare files l in
    elim l.fetched [
      | some p ↦ clear_fetched (process_package_data files p l')
      | none ↦ (record l' { callback_set = true }, none)
    ]

abbrev clear_callback : Loader × Option Error → Loader × Option Error
clear_callback (l, none) = (record l { callback_set = false }, none)
clear_callback (l, some e) = (l, some e)

-- What `if (fetched)` sees of a package.
abbrev pub kept : Package → Option Package
kept falsy = none
kept p = some p

-- The callback of the fetch.
unfoldable pub on_fetched : List File → Package → Loader → Loader × Option Error
unfolding process_package_data
on_fetched files p l =
    if l.callback_set
    then clear_callback (process_package_data files p l)
    else (record l { fetched = kept p }, none)

-- The test of `xhr.onload`: `status` and whether there is a response.
unfoldable pub is_success : ℕ → Bool → Bool
is_success status has_response =
    (status == 200) || (status == 304) || (status == 206) || ((status == 0) && has_response)
