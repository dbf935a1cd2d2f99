-- ===== src/Shell/Sound.antt =====
-- The shell of src/shell.rs over any bytes: it always has a file system, and does not panic.
use ziran_os.Prelude.{
  ℕ, ◌≤◌, ◌≡◌, inl, inr, refl, sym, ◌∙◌, Bool, true, false, Option, none, some, List, [], ◌∷◌, All,
  length, arith,
}
use ziran_os.Fs.Image.{ok}
use ziran_os.Fs.Mount.{Fs, mount, mount_tier2, mount_inner}
use ziran_os.Fs.Resolve.{file, dir}
use ziran_os.Fs.Safe.{resolve-Returns, read_path-Inside, list_dir-Listed}
use ziran_os.Fs.Layers.{mount-layers}
use ziran_os.Fs.Writer.{boot_image}
use ziran_os.Fs.Boot.{booted, mount_boot}
use ziran_os.Shell.Path.{canonicalize, print_path}
use ziran_os.Shell.Canonical.{Canonical, canonicalize-Canonical}
use ziran_os.Shell.Editing.{Fits}
use ziran_os.Shell.Disk.{Loaded, active_image, mount_active, b64_cap}
use ziran_os.Shell.Commands.{
  Output, cannot_mount, load_done, cd_to, cmd_cd, ls_in, cmd_ls, cat_in, cmd_cat, Mode, editing,
  loading, Shell,
}

-- That an output is neither a panic nor the report of an image that does not mount.
abbrev calm : Output → Bool
calm Output.panicked = false
calm (cannot_mount e) = false
calm (load_done Loaded.panicked) = false
calm _ = true

abbrev pub Calm : List Output → Type 0
Calm = All (λ o. calm o ≡ true)

module _ (flag : Option (List ℕ)) where
  abbrev pub Mounts : List ℕ → Type 0
  Mounts image = (fs : Fs) × (mount_active flag image ≡ ok fs)

-- Whatever the mode, mounting is one of the readers.
pub mount_active-inner :
    (flag : Option (List ℕ)) (image : List ℕ)
    → (confine : Bool) × (trust : Bool) × (mount_active flag image
        ≡ mount_inner image confine trust)
unfolding mount_active mount mount_tier2
mount_active-inner none image = (true, false, refl)
mount_active-inner (some f) image = (false, true, refl)

pub boot-Mounts : (flag : Option (List ℕ)) → Mounts flag (active_image none)
unfolding active_image mount_active
boot-Mounts none = (booted, mount_boot)
boot-Mounts (some f) = (booted, (mount-layers boot_image booted mount_boot).1)

abbrev pub PayloadOk : Mode → Type 0
PayloadOk editing = Unit {0}
PayloadOk (loading payload overflowed) = length payload ≤ b64_cap

-- What holds between any two bytes.
pub record Sound (flag : Option (List ℕ)) (s : Shell) : Type 0 where
  pub cwd : Canonical s.cwd
  pub disk : Mounts flag (active_image s.disk)
  pub line : Fits s.line
  pub mode : PayloadOk s.mode

pub root-Canonical : Canonical (b'/' ∷ [])
unfolding print_path
root-Canonical = ([], tt, refl)

module _ (decode : List ℕ → List ℕ) (flag : Option (List ℕ)) where
  module _ (fs : Fs) (image : List ℕ) (e : mount_active flag image ≡ ok fs) where
    cd_to-Calm :
        (cwd target : List ℕ)
        → Canonical cwd
        → Canonical target
        → Canonical (cd_to decode flag fs cwd target).0 × Calm (cd_to decode flag fs cwd target).1
    unfolding cd_to
    cd_to-Calm cwd target c t =
        let (confine, trust, r) = mount_active-inner flag image in
        elim (resolve-Returns decode image confine trust fs (sym r ∙ e) target) [
          | inl (dir off len, k, o) ↦ rw (k, cd_to) (t, tt)
          | inl (file off len, k, o) ↦ rw (k, cd_to) (c, (refl, tt))
          | inr (x, k) ↦ rw (k, cd_to) (c, (refl, tt))
        ]

    ls_in-Calm : (target : List ℕ) → Calm (ls_in decode flag fs target)
    unfolding ls_in
    ls_in-Calm target =
        let (confine, trust, r) = mount_active-inner flag image in
        elim (list_dir-Listed decode image confine trust fs (sym r ∙ e) target) [
          | inl (es, k, o) ↦ rw (k, ls_in) (refl, tt)
          | inr (x, k) ↦ rw (k, ls_in) (refl, tt)
        ]

    cat_in-Calm : (target : List ℕ) → Calm (cat_in decode flag fs target)
    unfolding cat_in
    cat_in-Calm target =
        let (confine, trust, r) = mount_active-inner flag image in
        elim (read_path-Inside decode image confine trust fs (sym r ∙ e) target) [
          | inl (es, k, o) ↦ rw (k, cat_in) (refl, tt)
          | inr (x, k) ↦ ground (arith, k)
        ]

  module _ (disk : Option (List ℕ)) (m : Mounts flag (active_image disk)) (cwd : List ℕ)
      (c : Canonical cwd) where
    pub cmd_cd-Calm :
        (arg : List ℕ)
        → Canonical (cmd_cd decode flag disk cwd arg).0 × Calm (cmd_cd decode flag disk cwd arg).1
    unfolding cmd_cd
    cmd_cd-Calm [] = (root-Canonical, tt)
    cmd_cd-Calm (b ∷ bs) =
        rw (m.1, cmd_cd)
          (cd_to-Calm m.0 (active_image disk) m.1 cwd (canonicalize cwd (b ∷ bs)) c
            (canonicalize-Canonical cwd (b ∷ bs) []).0)

    pub cmd_ls-Calm : (arg : List ℕ) → Calm (cmd_ls decode flag disk cwd arg)
    unfolding cmd_ls
    cmd_ls-Calm arg = rw (m.1, cmd_ls) (ls_in-Calm m.0 (active_image disk) m.1 _)

    pub cmd_cat-Calm : (arg : List ℕ) → Calm (cmd_cat decode flag disk cwd arg)
    unfolding cmd_cat
    cmd_cat-Calm [] = (refl, tt)
    cmd_cat-Calm (b ∷ bs) =
        rw (m.1, cmd_cat) (cat_in-Calm m.0 (active_image disk) m.1 (canonicalize cwd (b ∷ bs)))
