-- ===== src/Shell/Disk.antt =====
-- The image that the commands of src/shell.rs work on, the flag of the server mode, and what `load`
-- does with a payload that has come in. `flag` is TIER2_FLAG.
use Prim.Native.Nat.{bit_xor}
use ziran_os.Prelude.{
  ℕ, ◌+◌, ◌-◌, ◌*◌, ◌/◌, ◌%◌, ◌^◌, Bool, Option, none, some, List, [], ◌∷◌, ◌++◌, ltb,
  if◌then◌else◌, min, take, length, replicate,
}
use ziran_os.Fs.Image.{FsError, Outcome, ok, err, panic}
use ziran_os.Fs.Mount.{Fs, mount, mount_tier2}
use ziran_os.Fs.Writer.{boot_image}
use ziran_os.Shell.Base64.{B64Error, good, bad, is_nil, b64_decode}

abbrev pub max_image : ℕ
max_image = 65536

abbrev pub tier2_flag_len : ℕ
tier2_flag_len = 64

abbrev pub tier2_gap_max : ℕ
tier2_gap_max = 512

-- LOADED and the built-in disk.
unfoldable pub active_image : Option (List ℕ) → List ℕ
unfolding boot_image
active_image (some img) = img
active_image none = boot_image

unfoldable pub fnv : ℕ → List ℕ → ℕ
fnv h [] = h
fnv h (b ∷ bs) = fnv (bit_xor h b * 0x01000193 % 2 ^ 32) bs

unfoldable pub tier2_gap : List ℕ → ℕ
unfolding fnv
tier2_gap flag = fnv 0x811c9dc5 flag % (tier2_gap_max + 1)

-- `v.resize(n, 0)`
unfoldable pub resize : List ℕ → ℕ → List ℕ
resize v n = take n v ++ replicate (n - length v) 0

unfoldable pub tier2_append : Option (List ℕ) → List ℕ → List ℕ × Option ℕ
unfolding tier2_gap resize
tier2_append none bytes = (bytes, none)
tier2_append (some flag) bytes =
    let begin = length bytes + tier2_gap flag in
    let k = min (length flag) tier2_flag_len in
    (resize (resize bytes begin ++ take k flag) (begin + tier2_flag_len), some begin)

unfoldable pub mount_active : Option (List ℕ) → List ℕ → Outcome Fs
unfolding mount mount_tier2
mount_active none image = mount image
mount_active (some flag) image = mount_tier2 image

-- What `load` says at the end.
pub data Loaded : Type 0 where
  too_large empty panicked : Loaded
  invalid_base64 : B64Error → Loaded
  not_valid : FsError → Loaded
  mounted : ℕ → Option ℕ → Loaded

-- The end of `cmd_load`, from a decoded upload on: LOADED afterwards, and what is said.
unfoldable pub accept : Option (List ℕ) → Option (List ℕ) → List ℕ → Option (List ℕ) × Loaded
unfolding tier2_append mount_active
accept flag old bytes =
    if is_nil bytes
    then (old, empty)
    else if ltb max_image (length bytes)
    then (old, too_large)
    else (let (image, begin) = tier2_append flag bytes in
        elim (mount_active flag image) [
          | ok fs ↦ (some image, mounted (length image) begin)
          | err e ↦ (old, not_valid e)
          | panic ↦ (old, panicked)
        ])

abbrev pub b64_cap : ℕ
b64_cap = max_image / 3 * 4 + 4

-- `cmd_load` after its loop.
unfoldable pub finish_load :
    Option (List ℕ) → Option (List ℕ) → List ℕ → Bool → Option (List ℕ) × Loaded
finish_load flag old payload overflowed =
    if overflowed then (old, too_large) else elim (b64_decode payload) [
      | bad e ↦ (old, invalid_base64 e)
      | good bytes ↦ accept flag old bytes
    ]
