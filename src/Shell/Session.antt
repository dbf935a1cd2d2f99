-- ===== src/Shell/Session.antt =====
-- A session with src/shell.rs, over any bytes that are typed.
use ziran_os.Prelude.{
  ◌≤◌, ◌≡◌, ℕ, ◌≤◌, ◌≡◌, inl, inr, refl, sym, ◌∙◌, Bool, true, false, ◌==◌, ltb, leb, Option, some,
  List, [], ◌∷◌, ◌++◌, All-append, length, length-append, Bool-cases, arith,
}
use ziran_os.Fs.Image.{ok, err, panic, Outcome-cases}
use ziran_os.Fs.Mounted.{mount_inner-ne-panic}
use ziran_os.Shell.Line.{Line, Edit, new, edit, echo, erase, submit, ignored, text, clear}
use ziran_os.Shell.Base64.{b64_decode, Decoded-cases}
use ziran_os.Shell.Disk.{
  Loaded, panicked, active_image, mount_active, max_image, accept, finish_load, b64_cap,
}
use ziran_os.Shell.Commands.{
  Command, Output, load_done, Mode, editing, loading, Shell, start, dispatch, load_byte, edit_byte,
  normalize, is_layout, parse, shell_byte, run,
}
use ziran_os.Shell.Editing.{Fits, edit-Fits, new-Fits}
use ziran_os.Shell.Sound.{
  Calm, Mounts, mount_active-inner, boot-Mounts, PayloadOk, Sound, root-Canonical, cmd_cd-Calm,
  cmd_ls-Calm, cmd_cat-Calm,
}

payload_room :
    (payload : List ℕ) (b : ℕ)
    → leb b64_cap (length payload) ≡ false
    → length (payload ++ b ∷ []) ≤ b64_cap
payload_room payload b h = ground (arith, length-append payload (b ∷ []))

-- A new disk mounts, or it is not taken.
module _ (flag : Option (List ℕ)) where
  abbrev Taken : Option (List ℕ) × Loaded → Type 0
  Taken r = Mounts flag (active_image r.0) × Calm (load_done r.1 ∷ [])

  take_image :
      (old : Option (List ℕ)) (image : List ℕ) (begin : Option ℕ)
      → Mounts flag (active_image old)
      → Taken (elim (mount_active flag image) [
        | ok fs ↦ (some image, Loaded.mounted (length image) begin)
        | err e ↦ (old, Loaded.not_valid e)
        | panic ↦ (old, panicked)
      ])
  take_image old image begin m =
      let (confine, trust, r) = mount_active-inner flag image in
      elim (Outcome-cases (mount_active flag image)) [
        | inl (fs, e) ↦ rw e (unfold active_image in (fs, e), (refl, tt))
        | inr (inl (x, e)) ↦ rw e (m, (refl, tt))
        | inr (inr e) ↦ absurd (mount_inner-ne-panic image confine trust (sym r ∙ e))
      ]

  accept-Taken :
      (old : Option (List ℕ)) (bytes : List ℕ)
      → Mounts flag (active_image old)
      → Taken (accept flag old bytes)
  unfolding accept
  accept-Taken old [] m = (m, (refl, tt))
  accept-Taken old (b ∷ bs) m = elim (Bool-cases (ltb max_image (length (b ∷ bs)))) [
    | inl e ↦ rw (e, accept) (m, (refl, tt))
    | inr e ↦ rw (e, accept) (take_image old _ _ m)
  ]

  finish_load-Taken :
      (old : Option (List ℕ)) (payload : List ℕ) (overflowed : Bool)
      → Mounts flag (active_image old)
      → Taken (finish_load flag old payload overflowed)
  unfolding finish_load
  finish_load-Taken old payload true m = (m, (refl, tt))
  finish_load-Taken old payload false m = elim (Decoded-cases (b64_decode payload)) [
    | inl (bytes, e) ↦ rw (e, finish_load) (accept-Taken old bytes m)
    | inr (x, e) ↦ rw (e, finish_load) (m, (refl, tt))
  ]

module _ (decode : List ℕ → List ℕ) (flag : Option (List ℕ)) where
  -- A step that keeps what holds, and whose outputs are calm.
  abbrev pub Fine : Shell × List Output → Type 0
  Fine r = Sound flag r.0 × Calm r.1

  keeps : (s : Shell) → Sound flag s → (m : Mode) → PayloadOk m → Sound flag (record s { mode = m })
  keeps s i m k = record { cwd = i.cwd; disk = i.disk; line = i.line; mode = k }

  dispatch-Fine : (s : Shell) (c : Command) → Sound flag s → Fine (dispatch decode flag s c)
  unfolding dispatch
  dispatch-Fine s (Command.cd p) i =
      let (c, out) = cmd_cd-Calm decode flag s.disk i.disk s.cwd i.cwd p in
      (record { cwd = c; disk = i.disk; line = i.line; mode = i.mode }, out)
  dispatch-Fine s (Command.ls p) i = (i, cmd_ls-Calm decode flag s.disk i.disk s.cwd i.cwd p)
  dispatch-Fine s (Command.cat p) i = (i, cmd_cat-Calm decode flag s.disk i.disk s.cwd i.cwd p)
  dispatch-Fine s Command.load i = (keeps s i (loading [] false) (omega arith), (refl, tt))
  dispatch-Fine s Command.empty i = (i, tt)
  dispatch-Fine s _ i = (i, (refl, tt))

  load_byte-Fine :
      (s : Shell) (payload : List ℕ) (overflowed : Bool) (b : ℕ)
      → Sound flag s
      → length payload ≤ b64_cap
      → Fine (load_byte decode flag s payload overflowed b)
  unfolding load_byte
  load_byte-Fine s payload overflowed b i h = elim (Bool-cases (b == b'.')) [
    | inl e ↦
        let (d, c) = finish_load-Taken flag s.disk payload overflowed i.disk in
        rw (e, load_byte) (record { cwd = i.cwd; disk = d; line = i.line; mode = tt }, c)
    | inr e ↦ elim (Bool-cases (is_layout b)) [
      | inl e' ↦ rw (e, e', load_byte) (i, tt)
      | inr e' ↦ elim (Bool-cases (leb b64_cap (length payload))) [
        | inl full ↦ rw (e, e', full, load_byte) (keeps s i (loading payload true) h, tt)
        | inr room ↦
            rw (e, e', room, load_byte)
              (keeps s i (loading (payload ++ b ∷ []) overflowed) (payload_room payload b room), tt)
      ]
    ]
  ]

  after_edit-Fine :
      (s : Shell) (l : Line) (what : Edit)
      → Sound flag s
      → Fits l
      → Fine (elim what [
        | submit ↦ dispatch decode flag (record s { line = clear l }) (parse (text l))
        | echo b ↦ (record s { line = l }, [])
        | erase ↦ (record s { line = l }, [])
        | ignored ↦ (record s { line = l }, [])
      ])
  after_edit-Fine s l submit i k =
      dispatch-Fine (record s { line = clear l }) (parse (text l))
        (record {
          cwd = i.cwd;
          disk = i.disk;
          line = record { whole = k.whole; within = omega arith };
          mode = i.mode;
        })
  after_edit-Fine s l (echo b) i k =
      (record { cwd = i.cwd; disk = i.disk; line = k; mode = i.mode }, tt)
  after_edit-Fine s l erase i k =
      (record { cwd = i.cwd; disk = i.disk; line = k; mode = i.mode }, tt)
  after_edit-Fine s l ignored i k =
      (record { cwd = i.cwd; disk = i.disk; line = k; mode = i.mode }, tt)

  edit_byte-Fine : (s : Shell) (raw : ℕ) → Sound flag s → Fine (edit_byte decode flag s raw)
  unfolding edit_byte
  edit_byte-Fine s raw i =
      after_edit-Fine s (edit s.line (normalize raw)).0 (edit s.line (normalize raw)).1 i
        (edit-Fits s.line (normalize raw) i.line)

  shell_byte-Fine : (s : Shell) (b : ℕ) → Sound flag s → Fine (shell_byte decode flag s b)
  unfolding shell_byte
  shell_byte-Fine s b i = mode-Fine s.mode i.mode
    where
      mode-Fine :
          (m : Mode)
          → PayloadOk m
          → Fine (elim m [
            | editing ↦ edit_byte decode flag s b
            | loading payload overflowed ↦ load_byte decode flag s payload overflowed b
          ])
      mode-Fine editing k = edit_byte-Fine s b i
      mode-Fine (loading payload overflowed) k = load_byte-Fine s payload overflowed b i k

  run-Fine : (s : Shell) (bs : List ℕ) → Sound flag s → Fine (run decode flag s bs)
  unfolding run
  run-Fine s [] i = (i, tt)
  run-Fine s (b ∷ bs) i =
      let (i', now) = shell_byte-Fine s b i in
      let (i'', later) = run-Fine (shell_byte decode flag s b).0 bs i' in
      (i'', All-append _ (shell_byte decode flag s b).1 _ now later)

  start-Sound : Sound flag start
  unfolding start new
  start-Sound = record { cwd = root-Canonical; disk = boot-Mounts flag; line = new-Fits; mode = tt }

  -- Whatever bytes are typed from the start on, in the base64 of a `load` too, and whatever the
  -- flag, the shell's directory stays canonical, the image it works on mounts, the line
  -- and the payload of a `load` stay within their buffers, and nothing that it prints is a panic or the report that the image
  -- does not mount.
  pub run-Sound : (bs : List ℕ) → Fine (run decode flag start bs)
  run-Sound bs = run-Fine start bs start-Sound
