-- ===== src/Shell/Typed.antt =====
-- A base64 text typed to the loop of `cmd_load` of src/shell.rs.
use mathlib.Core.List.{append_assoc, append-nil}
use ziran_os.Prelude.{
  ℕ, ◌+◌, ◌*◌, ◌/◌, ◌%◌, ◌<◌, ◌≤◌, ◌≡◌, refl, ap, ◌∙◌, sym, Bool, true, false, not, ◌&&◌, Option,
  List, [], ◌∷◌, ◌++◌, ◌==◌, All, length, length-append, all_below, all_below-holds, arith,
}
use ziran_os.Shell.Base64.{symbol, b64_encode}
use ziran_os.Shell.RoundTrip.{b64_decode-b64_encode}
use ziran_os.Shell.Disk.{accept, finish_load, b64_cap, max_image}
use ziran_os.Shell.Commands.{
  load_done, editing, loading, Shell, is_layout, load_byte, shell_byte, run,
}

-- A byte that `load` stores: neither the `.` that ends the text nor white space.
abbrev is_stored : ℕ → Bool
is_stored b = not (b == b'.') && not (is_layout b)

abbrev Stored : List ℕ → Type 0
Stored = All (λ b. is_stored b ≡ true)

symbol_table : all_below 64 (λ n. is_stored (symbol n)) ≡ true
unfolding all_below symbol
symbol_table = refl

symbol-Stored : (n : ℕ) → is_stored (symbol (n % 64)) ≡ true
symbol-Stored n = all_below-holds 64 (λ k. is_stored (symbol k)) (n % 64) symbol_table (omega arith)

b64_encode-Stored : (bs : List ℕ) → Stored (b64_encode bs)
unfolding b64_encode
b64_encode-Stored [] = tt
b64_encode-Stored (x ∷ []) =
    let n = x * 65536 in
    (symbol-Stored (n / 262144), (symbol-Stored (n / 4096), (refl, (refl, tt))))
b64_encode-Stored (x ∷ y ∷ []) =
    let n = x * 65536 + y * 256 in
    (symbol-Stored (n / 262144), (symbol-Stored (n / 4096), (symbol-Stored (n / 64), (refl, tt))))
b64_encode-Stored (x ∷ y ∷ z ∷ rest) =
    let n = x * 65536 + y * 256 + z in
    (
      symbol-Stored (n / 262144),
      (
        symbol-Stored (n / 4096),
        (symbol-Stored (n / 64), (symbol-Stored n, b64_encode-Stored rest)),
      ),
    )

length-b64_encode-le : (bs : List ℕ) → length (b64_encode bs) ≡ (length bs + 2) / 3 * 4
unfolding b64_encode
length-b64_encode-le [] = refl
length-b64_encode-le (x ∷ []) = refl
length-b64_encode-le (x ∷ y ∷ []) = refl
length-b64_encode-le (x ∷ y ∷ z ∷ rest) = omega (arith, length-b64_encode-le rest)

module _ (decode : List ℕ → List ℕ) (flag : Option (List ℕ)) (s : Shell) where
  load_byte-Stored :
      (payload : List ℕ) (b : ℕ)
      → is_stored b ≡ true
      → length payload < b64_cap
      → load_byte decode flag s payload false b
        ≡ (record s { mode = loading (payload ++ b ∷ []) false }, [])
  unfolding load_byte
  load_byte-Stored payload b h room = ground (arith, h)

module _ (decode : List ℕ → List ℕ) (flag : Option (List ℕ)) (s : Shell) where
  run-Stored :
      (bytes payload rest : List ℕ)
      → Stored bytes
      → length payload + length bytes ≤ b64_cap
      → run decode flag (record s { mode = loading payload false }) (bytes ++ rest)
        ≡ run decode flag (record s { mode = loading (payload ++ bytes) false }) rest
  unfolding run shell_byte
  run-Stored [] payload rest h room =
      ap (λ l. run decode flag (record s { mode = loading l false }) rest)
        (sym (append-nil payload))
  run-Stored (b ∷ bs) payload rest (one, h) room =
      let here =
        load_byte-Stored decode flag (record s { mode = loading payload false }) payload b one
          (omega arith) in
      let more =
        run-Stored bs (payload ++ b ∷ []) rest h (omega (arith, length-append payload (b ∷ []))) in
      rw here (
        more
        ∙ ap (λ l. run decode flag (record s { mode = loading l false }) rest)
            (append_assoc payload (b ∷ []) bs))

  -- The end.
  pub run-b64_encode :
      (upload : List ℕ)
      → All (λ b. b < 256) upload
      → length upload ≤ max_image
      → run decode flag (record s { mode = loading [] false }) (b64_encode upload ++ b'.' ∷ []) ≡ (
          let (disk', said) = accept flag s.disk upload in
          (record s { disk = disk'; mode = editing }, load_done said ∷ []))
  unfolding run shell_byte load_byte finish_load
  run-b64_encode upload h small =
      run-Stored (b64_encode upload) [] (b'.' ∷ []) (b64_encode-Stored upload)
        (omega (arith, length-b64_encode-le upload))
      ∙ rw (b64_decode-b64_encode upload h) refl
