-- ===== src/Tier2/Flag.antt =====
-- The flag that the bridge mints is the flag that the shell plants.
use Prim.Native.Char.{code}
use ziran_os.Prelude.{
  ℕ, ◌+◌, ◌/◌, ◌%◌, ◌<◌, ◌≤◌, ◌≡◌, ◌≢◌, refl, ap, ap₂, ◌-◌, sym, subst, ◌∙◌, String, true, false,
  some, List, [], ◌∷◌, ◌++◌, length, All, All-append, ◌==◌, not, all_below, all_below-holds,
  replicate, drop, take, length-append, arith,
}
use ziran_os.Prelude.Text.{concat, hex, digit, codes}
use ziran_os.Bridge.Config.{Config}
use ziran_os.Bridge.Qemu.{mint_flag, build_qemu_args}
use ziran_os.FwCfg.{Ports, max_item_bytes, read_flag}
use ziran_os.FwCfg.Device.{Documented}
use ziran_os.FwCfg.Directory.{read_file-item_named}
use ziran_os.Fs.Image.{ok}
use ziran_os.Fs.Mount.{Fs, mount_tier2}
use ziran_os.Shell.Base64.{b64_encode}
use ziran_os.Shell.Disk.{mounted, tier2_gap, tier2_flag_len, max_image}
use ziran_os.Shell.Commands.{load_done, editing, loading, Shell, run}
use ziran_os.Shell.Typed.{run-b64_encode}
use ziran_os.Shell.Accepted.{planted, take-planted, accept-planted}
use ziran_os.Shell.Planted.{take-whole, region, padded, tier2_append-Planted}
use ziran_os.Tier2.{Adjacent, at_head, later, Launched, boot_flag}

codes-concat : (s t : String) → codes (concat s t) ≡ codes s ++ codes t
unfolding concat
codes-concat String.[] t = refl
codes-concat (String.◌∷◌ c s) t = ap (◌∷◌ (code c)) (codes-concat s t)

length-hex : (bs : List ℕ) → length (codes (hex bs)) ≡ length bs + length bs
unfolding hex
length-hex [] = refl
length-hex (b ∷ bs) = omega (arith, length-hex bs)

-- No digit is a comma.
digit_table : all_below 16 (λ n. not (code (digit n) == b',')) ≡ true
unfolding all_below
digit_table = refl

digit-ne-comma : (n : ℕ) → n < 16 → code (digit n) ≢ b','
digit-ne-comma n h e =
    ground (arith, all_below-holds 16 (λ n. not (code (digit n) == b',')) n digit_table h, e)

hex-ne-comma : (bs : List ℕ) → All (λ b. b < 256) bs → All (λ c. c ≢ b',') (codes (hex bs))
unfolding hex
hex-ne-comma [] all = tt
hex-ne-comma (b ∷ bs) (h, all) = (
  digit-ne-comma (b / 16) (omega arith),
  (digit-ne-comma (b % 16) (omega arith), hex-ne-comma bs all),
)

-- The prefix, the hexadecimal digits and the brace.
module _ (bs : List ℕ) where
  codes-mint_flag :
      codes (mint_flag bs) ≡ codes "FLAG{ziran-tier2-" ++ (codes (hex bs) ++ b'}' ∷ [])
  unfolding mint_flag
  codes-mint_flag =
      codes-concat "FLAG{ziran-tier2-" (concat (hex bs) "}")
      ∙ ap (λ l. codes "FLAG{ziran-tier2-" ++ l) (codes-concat (hex bs) "}")

  length-mint_flag : length (codes (mint_flag bs)) ≡ 18 + (length bs + length bs)
  length-mint_flag =
      ap length codes-mint_flag
      ∙ omega (arith, length-append (codes (hex bs)) (b'}' ∷ []), length-hex bs)

  mint_flag-ne-comma : All (λ b. b < 256) bs → All (λ c. c ≢ b',') (codes (mint_flag bs))
  mint_flag-ne-comma all = subst (All (λ c. c ≢ b',')) (sym codes-mint_flag) (
      All-append (λ c. c ≢ b',') (codes "FLAG{ziran-tier2-") (codes (hex bs) ++ b'}' ∷ [])
        (omega arith)
        (All-append (λ c. c ≢ b',') (codes (hex bs)) (b'}' ∷ []) (hex-ne-comma bs all)
          (omega arith)))

-- The flag is an argument of QEMU's command line.
build_qemu_args-Adjacent :
    (c : Config) (flag : String)
    → Adjacent "-fw_cfg" (concat "name=opt/flag,string=" flag) (build_qemu_args c flag)
unfolding build_qemu_args
build_qemu_args-Adjacent c flag = later (
    later (
      later (
        later (
          later (
            later (
              later (
                later (
                  later (
                    later (
                      later
                        (later (later (later (later (later (later (later at_head)))))))))))))))))

-- The kernel that QEMU starts with the bridge's command line has the minted flag, to the byte.
pub boot_flag-mint_flag :
    {S : Type 0} (ports : Ports S) (items : ℕ → List ℕ) (s : S) (c : Config) (bs : List ℕ)
    → Documented ports items
    → Launched (build_qemu_args c (mint_flag bs)) items
    → All (λ b. b < 256) bs
    → length bs ≤ 23
    → boot_flag ports s ≡ some (codes (mint_flag bs))
unfolding boot_flag read_flag max_item_bytes
boot_flag-mint_flag ports items s c bs d l all short =
    read_file-item_named ports items l.entries (codes "opt/flag") s d l.directory l.few
      l.all_entries
    ∙ l.published (mint_flag bs) (build_qemu_args-Adjacent c (mint_flag bs))
        (mint_flag-ne-comma bs all) (omega (arith, length-mint_flag bs))

region-short : (flag : List ℕ) → length flag ≡ 34 → region flag ≡ flag ++ replicate 30 0
region-short flag e =
    let left : tier2_flag_len - length flag ≡ 30 = omega (arith, e) in
    ap₂ (λ l n. l ++ replicate n 0) (take-whole flag tier2_flag_len (omega (arith, e))) left

-- Take a guest that the bridge starts with a flag of eight random bytes, on a QEMU that does what it
-- documents. When its `load` reads the base64 text of an upload of at most MAX_IMAGE bytes that
-- `mount_tier2` mounts, and the `.` that ends the text, then, whatever image the shell had before,
-- it takes a new image and reports it as mounted, with its size and an offset. The new image starts
-- with the upload, the offset is not before the upload's end, and from the offset on the image is
-- the flag that the bridge compares submissions with, filled up with 30 zeros.
pub mint_flag-run :
    {S : Type 0} (ports : Ports S) (items : ℕ → List ℕ) (p : S) (c : Config) (bs upload : List ℕ)
    (fs : Fs) (decode : List ℕ → List ℕ) (s : Shell)
    → Documented ports items
    → Launched (build_qemu_args c (mint_flag bs)) items
    → All (λ b. b < 256) bs
    → length bs ≡ 8
    → All (λ b. b < 256) upload
    → length upload ≤ max_image
    → mount_tier2 upload ≡ ok fs
    → (image : List ℕ) × (offset : ℕ) × (run decode
          (boot_flag ports p)
          (record s { mode = loading [] false })
          (b64_encode upload ++ b'.' ∷ [])
        ≡ (
          record s { disk = some image; mode = editing },
          load_done (mounted (length image) (some offset)) ∷ [],
        ))
      × (take (length upload) image ≡ upload)
      × (length upload ≤ offset)
      × (drop offset image ≡ codes (mint_flag bs) ++ replicate 30 0)
mint_flag-run ports items p c bs upload fs decode s d l all eight octets small mounts =
    let flag = codes (mint_flag bs) in
    let (appended, bound, rest, size) = tier2_append-Planted flag upload in
    (
      planted flag upload,
      length (padded flag upload),
      ap (λ f. run decode f (record s { mode = loading [] false }) (b64_encode upload ++ b'.' ∷ []))
            (boot_flag-mint_flag ports items p c bs d l all (omega (arith, eight)))
          ∙ run-b64_encode decode (some flag) s upload octets small
          ∙ ap (λ r. (record s { disk = r.0; mode = editing }, load_done r.1 ∷ []))
              (accept-planted flag s.disk upload fs small mounts),
      take-planted flag upload,
      omega (arith, length-append upload (replicate (tier2_gap flag) 0)),
      rest ∙ region-short flag (omega (arith, length-mint_flag bs, eight)),
    )
