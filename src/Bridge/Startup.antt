-- ===== src/Bridge/Startup.antt =====
-- The start and the end of ctf-server/bridge.mjs. `exists` is `existsSync`.
use ziran_os.Prelude.{ℕ, String, Bool, List, [], ◌∷◌, if◌then◌else◌}
use ziran_os.Prelude.Text.{concat, decimal}
use ziran_os.Bridge.Config.{Config, truthy}

-- Whether the process goes on, and with which status it ends and what it says where it does not.
pub data Start : Type 0 where
  listening : List String → Start
  fatal : (status : ℕ) → String → Start

unfoldable pub join : List String → String
unfolding concat
join [] = ""
join (s ∷ ss) = concat s (join ss)

-- The two lines that the callback of `listen` logs.
unfoldable pub banner : Config → Bool → List String
unfolding join decimal
banner c scoped =
    join ("[bridge] listening " ∷ c.host ∷ ":" ∷ decimal c.port ∷ "  kernel=" ∷ c.kernel ∷ [])
    ∷ join (
        "[bridge] caps: total="
        ∷ decimal c.max_concurrent
        ∷ " per-ip="
        ∷ decimal c.max_per_ip
        ∷ " "
        ∷ "session="
        ∷ decimal c.session_ms
        ∷ "ms idle="
        ∷ decimal c.idle_ms
        ∷ "ms rate="
        ∷ decimal c.rate_max
        ∷ "/"
        ∷ decimal c.rate_window_ms
        ∷ "ms "
        ∷ "hourly="
        ∷ decimal c.hourly_budget
        ∷ " turnstile="
        ∷ (if truthy c.turnstile_secret then "on" else "off")
        ∷ " "
        ∷ "submit_max="
        ∷ decimal c.submit_max
        ∷ " health="
        ∷ (if truthy c.health_token then "gated" else "public-min")
        ∷ " "
        ∷ "caps="
        ∷ (if scoped then "per-instance" else "tree-only")
        ∷ [])
    ∷ []

unfoldable pub start_up : Config → (String → Bool) → Bool → Start
unfolding banner
start_up c exists scoped =
    if exists c.kernel
    then listening (banner c scoped)
    else fatal 1 (join ("[fatal] kernel not found: " ∷ c.kernel ∷ " (set KERNEL=)" ∷ []))
