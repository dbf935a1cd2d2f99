-- ===== src/Tier2/Tests.antt =====
-- A flag on its way at concrete inputs.
use ziran_os.Prelude.{
  ℕ, ◌≡◌, refl, ap, sym, some, List, [], ◌∷◌, ◌++◌, All, drop, replicate, String, true, Bool-cases,
  inl, inr, ◌==◌, if◌then◌else◌, ◌≤◌, ◌<◌, false, length, take, arith,
}
use ziran_os.Prelude.Text.{codes, hex, concat, decimal}
use text.Mathlib.TextEquality.{eq_iff}
use ziran_os.Prelude.Maps.{text_eq}
use ziran_os.Bridge.Config.{Config}
use ziran_os.Bridge.Qemu.{mint_flag, build_qemu_args}
use ziran_os.FwCfg.{file_dir, max_entries, max_item_bytes}
use ziran_os.FwCfg.Directory.{Entry, IsEntry, print_dir, item_named}
use ziran_os.FwCfg.Sample.{ports_of, ports_of-Documented}
use ziran_os.Fs.Writer.{boot_image}
use ziran_os.Fs.Boot.{booted, mount_boot}
use ziran_os.Fs.Layers.{mount-layers}
use ziran_os.Shell.Base64.{b64_encode}
use ziran_os.Shell.Disk.{mounted, max_image}
use ziran_os.Shell.Commands.{load_done, editing, loading, start, run}
use ziran_os.Tier2.{Adjacent, at_head, later, Launched, boot_flag}
use ziran_os.Tier2.Flag.{mint_flag-run}

-- The arguments that follow one that is given.
abbrev following : String → List String → List String
following a [] = []
following a (x ∷ []) = []
following a (x ∷ y ∷ rest) =
    if text_eq x a then y ∷ following a (y ∷ rest) else following a (y ∷ rest)

Adjacent-following :
    (P : String → Type 0) (a b : String) (args : List String)
    → Adjacent a b args
    → All P (following a args)
    → P b
Adjacent-following P a b [] h all = elim h [ ]
Adjacent-following P a b (x ∷ y ∷ rest) at_head all =
    let same : text_eq a a ≡ true = ground (arith, eq_iff a a) in
    let all' = rw same at all in all'.0
Adjacent-following P a b (x ∷ []) (later h) all = elim h [ ]
Adjacent-following P a b (x ∷ y ∷ rest) (later h) all = elim (Bool-cases (text_eq x a)) [
  | inl t ↦ let all' = rw t at all in Adjacent-following P a b (y ∷ rest) h all'.1
  | inr f ↦ Adjacent-following P a b (y ∷ rest) h (rw f at all)
]

abbrev config : Config
config = record {
  port = 8080;
  host = "127.0.0.1";
  kernel = "ziran.bin";
  qemu = "qemu-system-x86_64";
  mem_mb = 64;
  max_concurrent = 4;
  max_per_ip = 2;
  rate_window_ms = 60000;
  rate_max = 6;
  hourly_budget = 200;
  session_ms = 600000;
  idle_ms = 120000;
  max_msg_bytes = 65536;
  max_in_bytes = 1048576;
  max_ws_backlog = 1048576;
  submit_max = 20;
  health_token = "";
  cpu_quota = "50%";
  mem_max = "256M";
  pause_file = "/run/paused";
  turnstile_secret = "";
}

abbrev random : List ℕ
random = 0xde ∷ 0xad ∷ 0xbe ∷ 0xef ∷ 0x00 ∷ 0x11 ∷ 0x22 ∷ 0x2c ∷ []

abbrev minted_flag : String
minted_flag = "FLAG{ziran-tier2-deadbeef0011222c}"

random_minted : mint_flag random ≡ minted_flag
unfolding mint_flag hex concat
random_minted = refl

abbrev entries : List Entry
entries = record { size = 34; sel = 0x20; name = codes "opt/flag" } ∷ []

unfoldable items : ℕ → List ℕ
items sel =
    if sel == file_dir then print_dir entries else if sel == 0x20 then codes minted_flag else []

-- The command line has one option -fw_cfg, and its value is the minted_flag.
only_value :
    (value : String)
    → Adjacent "-fw_cfg"
        (concat "name=opt/flag,string=" value)
        (build_qemu_args config (mint_flag random))
    → codes value ≡ codes minted_flag
unfolding build_qemu_args mint_flag hex concat decimal
only_value value h =
    let whole =
      Adjacent-following (λ b. codes b ≡ codes "name=opt/flag,string=" ++ codes minted_flag)
        "-fw_cfg" (concat "name=opt/flag,string=" value) (build_qemu_args config (mint_flag random))
        h (refl, tt) in
    ap (drop 21) whole

entries-IsEntry : All (IsEntry items) entries
unfolding items
entries-IsEntry = (
  record {
    size_lem = refl;
    size_limit = omega arith;
    sel_limit = omega arith;
    name_limit = omega arith;
    no_nul = omega arith;
  },
  tt,
)

launched : Launched (build_qemu_args config (mint_flag random)) items
unfolding items max_entries item_named max_item_bytes
launched = record {
  entries = entries;
  directory = refl;
  few = omega arith;
  all_entries = entries-IsEntry;
  published = λ value h commas short. ap some (sym (only_value value h));
}

abbrev as_is : List ℕ → List ℕ
as_is bytes = bytes

boot_octets : All (λ b. b < 256) boot_image
unfolding boot_image
boot_octets = ground arith

boot_small : length boot_image ≤ max_image
unfolding boot_image
boot_small = omega arith

mint_flag-run_example :
    (image : List ℕ) × (offset : ℕ) × (run as_is
        (boot_flag (ports_of items) [])
        (record start { mode = loading [] false })
        (b64_encode boot_image ++ b'.' ∷ [])
      ≡ (
        record start { disk = some image; mode = editing },
        load_done (mounted (length image) (some offset)) ∷ [],
      ))
    × (take (length boot_image) image ≡ boot_image)
    × (length boot_image ≤ offset)
    × (drop offset image ≡ codes (mint_flag random) ++ replicate 30 0)
mint_flag-run_example =
    mint_flag-run (ports_of items) items [] config random boot_image booted as_is start
      (ports_of-Documented items) launched (omega arith) refl boot_octets boot_small
      (mount-layers boot_image booted mount_boot).1
