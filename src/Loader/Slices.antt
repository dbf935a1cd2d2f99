-- ===== src/Loader/Slices.antt =====
-- The metadata of web/load.js: the slices of its files put together are the package.
use text.Mathlib.TextEquality.{eq_iff}
use mathlib.Core.List.{append_assoc, append-nil}
use ziran_os.Prelude.{
  ℕ, ◌+◌, ◌-◌, ◌≤◌, ◌≡◌, refl, ap, ap₂, sym, ◌∙◌, String, Bool, true, not, ◌&&◌, List, [], ◌∷◌,
  ◌++◌, take, drop, length, take-append-take-drop, drop-add, take-length, arith,
}
use ziran_os.Prelude.Maps.{text_eq}
use ziran_os.Loader.{
  File, Call, create_path, add_run_dependency, remove_run_dependency, create_data_file,
  array_buffer, fresh, run_with_fs, on_fetched, subarray, package_dependency,
}
use ziran_os.Loader.Run.{Absent, Distinct, opened, created, all_calls}
use ziran_os.Loader.Order.{load_either_order}

abbrev file : String → ℕ → ℕ → File
file name start end = record { filename = name; start = start; end = end; audio = 0 }

-- The argument of `loadPackage`.
abbrev pub metadata : List File
metadata =
    file "/pack/bios-256k.bin" 0 262144
    ∷ file "/pack/bios.bin" 262144 393216
    ∷ file "/pack/kvmvapic.bin" 393216 402432
    ∷ file "/pack/linuxboot.bin" 402432 403456
    ∷ file "/pack/linuxboot_dma.bin" 403456 404992
    ∷ file "/pack/multiboot.bin" 404992 406016
    ∷ file "/pack/multiboot_dma.bin" 406016 407040
    ∷ file "/pack/vgabios-stdvga.bin" 407040 446464
    ∷ file "/pack/vgabios.bin" 446464 485376
    ∷ []

abbrev pub remote_package_size : ℕ
remote_package_size = 485376

is_absent : String → List File → Bool
is_absent name [] = true
is_absent name (f ∷ fs) = not (text_eq f.filename name) && is_absent name fs

are_distinct : List File → Bool
are_distinct [] = true
are_distinct (f ∷ fs) = is_absent f.filename fs && are_distinct fs

is_absent-Absent : (name : String) (fs : List File) → is_absent name fs ≡ true → Absent name fs
unfolding is_absent
is_absent-Absent name [] e = tt
is_absent-Absent name (f ∷ fs) e =
    (λ p. ground (arith, eq_iff f.filename name), is_absent-Absent name fs (ground arith))

are_distinct-Distinct : (fs : List File) → are_distinct fs ≡ true → Distinct fs
unfolding are_distinct
are_distinct-Distinct [] e = tt
are_distinct-Distinct (f ∷ fs) e =
    (is_absent-Absent f.filename fs (ground arith), are_distinct-Distinct fs (ground arith))

pub metadata-Distinct : Distinct metadata
unfolding are_distinct is_absent
metadata-Distinct = are_distinct-Distinct metadata refl

-- The files cover the range from `pos` to `end`, one after the other, with no gap or overlap.
abbrev pub Tiles : ℕ → ℕ → List File → Type 0
Tiles pos end [] = pos ≡ end
Tiles pos end (f ∷ fs) = (f.start ≡ pos) × (pos ≤ f.end) × Tiles f.end end fs

-- The bytes of the files that some calls create.
abbrev pub data_of : List Call → List ℕ
data_of [] = []
data_of (create_data_file f d ∷ ks) = d ++ data_of ks
data_of (add_run_dependency d ∷ ks) = data_of ks
data_of (remove_run_dependency d ∷ ks) = data_of ks
data_of (create_path a b ∷ ks) = data_of ks

Tiles-le : (pos last : ℕ) (fs : List File) → Tiles pos last fs → pos ≤ last
Tiles-le pos last [] t = omega (arith, t)
Tiles-le pos last (f ∷ fs) t = omega (arith, t.1, Tiles-le f.end last fs t.2)

Tiles-slice :
    (bytes : List ℕ) (pos last : ℕ) (fs : List File) (ks : List Call)
    → Tiles pos last fs
    → data_of (created bytes fs ++ ks) ≡ subarray bytes pos last ++ data_of ks
unfolding subarray
Tiles-slice bytes pos last [] ks t = let e : last - pos ≡ 0 = omega (arith, t) in rw e
Tiles-slice bytes pos last (f ∷ fs) ks t =
    let len = f.end - pos in
    let here : f.end ≡ pos + len = omega (arith, t.1) in
    let fits : f.end ≤ last = Tiles-le f.end last fs t.2 in
    let whole : last - pos ≡ len + (last - f.end) = omega (arith, t.1) in
    let moved : drop f.end bytes ≡ drop len (drop pos bytes) =
      ap (λ n. drop n bytes) here ∙ drop-add pos len bytes in
    ap₂ (λ a b. take (f.end - a) (drop a bytes) ++ b) (t.0) (Tiles-slice bytes f.end last fs ks t.2)
    ∙ sym (
        append_assoc (take len (drop pos bytes)) (take (last - f.end) (drop f.end bytes))
          (data_of ks))
    ∙ ap (λ d. d ++ data_of ks)
        (ap (λ d. take len (drop pos bytes) ++ take (last - f.end) d) moved
          ∙ take-append-take-drop len (last - f.end) (drop pos bytes)
          ∙ ap (λ n. take n (drop pos bytes)) (sym whole))

data_of-opened : (fs : List File) (ks : List Call) → data_of (opened fs ++ ks) ≡ data_of ks
data_of-opened [] ks = refl
data_of-opened (f ∷ fs) ks = data_of-opened fs ks

take_all : (xs : List ℕ) (n : ℕ) → length xs ≡ n → take n xs ≡ xs
take_all xs n e = rw (← e) (take-length xs)

abbrev last_call : List Call
last_call = remove_run_dependency package_dependency ∷ []

all_data :
    (bytes : List ℕ)
    → length bytes ≡ remote_package_size
    → data_of (all_calls metadata bytes) ≡ bytes
unfolding subarray
all_data bytes size =
    data_of-opened metadata
      (add_run_dependency package_dependency ∷ (created bytes metadata ++ last_call))
    ∙ Tiles-slice bytes 0 remote_package_size metadata last_call (omega arith)
    ∙ append-nil (take remote_package_size bytes)
    ∙ take_all bytes remote_package_size size

-- The files of the metadata in web/load.js, created from any package of the stated size, whether it
-- arrives early or late, are together that package: byte for byte, in order, none missing and none
-- twice.
pub metadata_covers :
    (bytes : List ℕ)
    → length bytes ≡ remote_package_size
    → let early = run_with_fs metadata (on_fetched metadata (array_buffer bytes) fresh).0 in
      let late = on_fetched metadata (array_buffer bytes) (run_with_fs metadata fresh).0 in
      (data_of early.0.calls ≡ bytes) × (data_of late.0.calls ≡ bytes)
metadata_covers bytes size =
    let r = load_either_order metadata bytes metadata-Distinct in
    (ap data_of r.2 ∙ all_data bytes size, ap data_of r.3 ∙ all_data bytes size)
