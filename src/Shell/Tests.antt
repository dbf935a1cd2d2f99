-- ===== src/Shell/Tests.antt =====
-- The shell of src/shell.rs at concrete inputs.
use ziran_os.Prelude.{ℕ, ◌≡◌, refl, some, List, [], ◌∷◌, arith}
use ziran_os.Prelude.Text.{codes}
use ziran_os.Shell.Path.{canonicalize}
use ziran_os.Shell.Line.{new, text}
use ziran_os.Shell.Base64.{good, b64_decode, b64_encode}
use ziran_os.Shell.RoundTrip.{b64_decode-b64_encode}
use ziran_os.Shell.Editing.{typed_all, edit_all, text-edit_all-new}
use ziran_os.Shell.Commands.{Command, parse, start, run}
use ziran_os.Shell.Session.{Fine, run-Sound}

go_up : canonicalize (codes "/docs/a") (codes "../b//./c") ≡ codes "/docs/b/c"
unfolding canonicalize
go_up = refl

parse_cd : parse (codes "  cd /docs now ") ≡ Command.cd (codes "/docs")
unfolding parse
parse_cd = refl

encoded : b64_encode (codes "flag") ≡ codes "ZmxhZw=="
unfolding b64_encode
encoded = refl

b64_decode-b64_encode_example :
    b64_decode (b64_encode (1 ∷ 255 ∷ 7 ∷ 0 ∷ [])) ≡ good (1 ∷ 255 ∷ 7 ∷ 0 ∷ [])
b64_decode-b64_encode_example =
    b64_decode-b64_encode (1 ∷ 255 ∷ 7 ∷ 0 ∷ [])
      (omega arith, (omega arith, (omega arith, (omega arith, tt))))

text-edit_all-new_example :
    text (edit_all new (b'l' ∷ b'a' ∷ 8 ∷ b's' ∷ [])) ≡ typed_all [] (b'l' ∷ b'a' ∷ 8 ∷ b's' ∷ [])
text-edit_all-new_example = text-edit_all-new (b'l' ∷ b'a' ∷ 8 ∷ b's' ∷ [])

abbrev as_is : List ℕ → List ℕ
as_is bytes = bytes

abbrev keys : List ℕ
keys = codes "cd docs\nload\nAAAA.cat shell.txt\n"

run-Sound_example : Fine as_is (some (codes "flag")) (run as_is (some (codes "flag")) start keys)
run-Sound_example = run-Sound as_is (some (codes "flag")) keys
