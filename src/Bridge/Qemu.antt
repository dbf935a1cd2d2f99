-- ===== src/Bridge/Qemu.antt =====
-- `mintFlag`, `buildQemuArgs`, `spawnQemu` and the probe for systemd-run, in ctf-server/bridge.mjs.
-- What `randomBytes(8)` returns and how `spawnSync` ended are arguments.
pub mod Flag
use ziran_os.Prelude.{
  ℕ, String, Bool, Option, none, some, false, List, [], ◌∷◌, ◌==◌, if◌then◌else◌,
}
use ziran_os.Prelude.Text.{concat, hex, decimal}
use ziran_os.Bridge.Config.{Config}

unfoldable pub mint_flag : List ℕ → String
unfolding concat hex
mint_flag bytes = concat "FLAG{ziran-tier2-" (concat (hex bytes) "}")

unfoldable pub build_qemu_args : Config → String → List String
unfolding concat decimal
build_qemu_args c flag =
    "-nodefaults"
    ∷ "-display"
    ∷ "none"
    ∷ "-serial"
    ∷ "stdio"
    ∷ "-monitor"
    ∷ "none"
    ∷ "-m"
    ∷ decimal c.mem_mb
    ∷ "-kernel"
    ∷ c.kernel
    ∷ "-nic"
    ∷ "none"
    ∷ "-accel"
    ∷ "tcg,tb-size=256"
    ∷ "-no-reboot"
    ∷ "-sandbox"
    ∷ "on,obsolete=deny,elevateprivileges=deny,spawn=deny,resourcecontrol=deny"
    ∷ "-fw_cfg"
    ∷ concat "name=opt/flag,string=" flag
    ∷ []

-- `none` stands for a probe that threw, timed out or was killed.
unfoldable pub use_systemd_run : Option ℕ → Bool
use_systemd_run (some status) = status == 0
use_systemd_run none = false

-- A command and its argument vector.
pub record Command : Type 0 where
  pub program : String
  pub args : List String

unfoldable pub spawn_qemu : Config → Bool → String → Command
unfolding build_qemu_args concat
spawn_qemu c scoped flag =
    let qargs = build_qemu_args c flag in
    if scoped
    then record {
      program = "systemd-run";
      args =
          "--scope"
          ∷ "--quiet"
          ∷ "--collect"
          ∷ "-p"
          ∷ concat "MemoryMax=" c.mem_max
          ∷ "-p"
          ∷ concat "CPUQuota=" c.cpu_quota
          ∷ "-p"
          ∷ "TasksMax=96"
          ∷ "--"
          ∷ c.qemu
          ∷ qargs;
    }
    else record { program = c.qemu; args = qargs }

-- What the log shows of a flag: `flag.slice(0, 18)`.
abbrev pub logged_length : ℕ
logged_length = 18
