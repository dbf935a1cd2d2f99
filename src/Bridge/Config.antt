-- ===== src/Bridge/Config.antt =====
-- The table CONFIG of ctf-server/bridge.mjs, read from the environment.
-- Numbers are natural numbers: an entry that `Number` reads as NaN or as a fraction is left out.
use ziran_os.Prelude.{ℕ, String, Bool, not, ◌||◌, Option, none, some}
use ziran_os.Prelude.Maps.{text_eq}

pub record Config : Type 0 where
  pub port : ℕ
  pub host : String
  pub kernel : String
  pub qemu : String
  pub mem_mb : ℕ
  pub max_concurrent : ℕ
  pub max_per_ip : ℕ
  pub rate_window_ms : ℕ
  pub rate_max : ℕ
  pub hourly_budget : ℕ
  pub session_ms : ℕ
  pub idle_ms : ℕ
  pub max_msg_bytes : ℕ
  pub max_in_bytes : ℕ
  pub max_ws_backlog : ℕ
  pub submit_max : ℕ
  pub health_token : String
  pub cpu_quota : String
  pub mem_max : String
  pub pause_file : String
  pub turnstile_secret : String

-- A string as a condition: the empty one is false.
abbrev pub truthy : String → Bool
truthy s = not (text_eq s "")

-- `v ?? d`
abbrev pub or_default {ℓ} : {A : Type ℓ} → Option A → A → A
or_default (some a) d = a
or_default none d = d

-- `number` is the standard library's `Number` and `env` is `process.env`.
module _ (number : String → ℕ) where
  unfoldable pub int : Option String → ℕ → ℕ
  int none d = d
  int (some v) d = number v

  unfoldable pub read_config : (String → Option String) → Config
  unfolding int
  read_config env = record {
    port = int (env "PORT") 8080;
    host = or_default (env "HOST") "127.0.0.1";
    kernel = or_default (env "KERNEL") "/opt/ziran/kernel-v86.bin";
    qemu = or_default (env "QEMU") "qemu-system-x86_64";
    mem_mb = int (env "MEM_MB") 128;
    max_concurrent = int (env "MAX_CONCURRENT") 12;
    max_per_ip = int (env "MAX_PER_IP") 2;
    rate_window_ms = int (env "RATE_WINDOW_MS") 60_000;
    rate_max = int (env "RATE_MAX") 10;
    hourly_budget = int (env "HOURLY_BUDGET") 1000;
    session_ms = int (env "SESSION_MS") 180_000;
    idle_ms = int (env "IDLE_MS") 90_000;
    max_msg_bytes = int (env "MAX_MSG_BYTES") 262_144;
    max_in_bytes = int (env "MAX_IN_BYTES") 4_194_304;
    max_ws_backlog = int (env "MAX_WS_BACKLOG") 8_388_608;
    submit_max = int (env "SUBMIT_MAX") 30;
    health_token = or_default (env "HEALTH_TOKEN") "";
    cpu_quota = or_default (env "CPU_QUOTA") "60%";
    mem_max = or_default (env "MEM_MAX") "256M";
    pause_file = or_default (env "PAUSE_FILE") "/opt/ziran/PAUSED";
    turnstile_secret = or_default (env "TURNSTILE_SECRET") "";
  }

  -- `paused()`; `exists` is `existsSync`.
  unfoldable pub paused : (String → Option String) → (String → Bool) → Config → Bool
  paused env exists c = text_eq (or_default (env "PAUSE") "") "1" || exists c.pause_file
