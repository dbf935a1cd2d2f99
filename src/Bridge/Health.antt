-- ===== src/Bridge/Health.antt =====
-- The HTTP handler of ctf-server/bridge.mjs. `pathname` and `token` are what `URL` reads from the
-- request: its path and the query's `token`.
use ziran_os.Prelude.{
  ℕ, ◌-◌, ◌/◌, ◌≡◌, ◌≢◌, ◌⊎◌, inl, inr, ap, String, Bool, false, not, ◌&&◌, ◌||◌, Option, none,
  some, if◌then◌else◌, arith,
}
use ziran_os.Prelude.Maps.{text_eq}
use text.Mathlib.TextEquality.{eq_iff}
use ziran_os.Bridge.Config.{Config, truthy}

-- The counters that the handler reads, and the time.
pub record Status : Type 0 where
  pub is_paused : Bool
  pub live : ℕ
  pub spawned : ℕ
  pub rejected : ℕ
  pub hourly_spawns : ℕ
  pub started_at : ℕ
  pub now : ℕ

pub data Reply : Type 0 where
  full :
      (ok paused : Bool)
      (live max spawned_total rejected_total hourly_spawns hourly_budget uptime_s : ℕ)
      → Reply
  minimal : (ok paused : Bool) → Reply
  not_found : Reply

-- `CONFIG.HEALTH_TOKEN && token === CONFIG.HEALTH_TOKEN`
unfoldable pub is_authorised : Config → Option String → Bool
is_authorised c none = false
is_authorised c (some t) = truthy c.health_token && text_eq t c.health_token

unfoldable pub respond : Config → Status → String → Option String → Reply
unfolding is_authorised
respond c s pathname token =
    if text_eq pathname "/health" || text_eq pathname "/healthz"
    then (if is_authorised c token
        then full (not s.is_paused) s.is_paused s.live c.max_concurrent s.spawned s.rejected
            s.hourly_spawns c.hourly_budget ((s.now - s.started_at) / 1000)
        else minimal (not s.is_paused) s.is_paused)
    else not_found

-- A request without the right token learns nothing of the load: two states of the server that agree
-- on being paused, and two configurations that agree on the token, give it the same reply.
pub respond-unauthorised :
    (c d : Config) (s t : Status) (pathname : String) (token : Option String)
    → c.health_token ≡ d.health_token
    → s.is_paused ≡ t.is_paused
    → (c.health_token ≡ "") ⊎ (token ≢ some c.health_token)
    → respond c s pathname token ≡ respond d t pathname token
unfolding respond
respond-unauthorised c d s t pathname none same paused no_token = ground arith
respond-unauthorised c d s t pathname (some k) same paused (inl e) =
    ground (arith, eq_iff c.health_token "", eq_iff d.health_token "")
respond-unauthorised c d s t pathname (some k) same paused (inr ne) = ground (
  arith,
  eq_iff k c.health_token,
  eq_iff k d.health_token,
  λ (p : k ≡ c.health_token). ne (ap some p),
)
