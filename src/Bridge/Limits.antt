-- ===== src/Bridge/Limits.antt =====
-- `rateLimited` and `overHourlyBudget` of ctf-server/bridge.mjs. Times are milliseconds.
pub mod Rate
pub mod Budget
use ziran_os.Prelude.{
  ℕ, ◌+◌, String, Bool, Option, none, some, List, [], ◌∷◌, ◌++◌, ltb, leb, if◌then◌else◌, keep,
  length,
}
use ziran_os.Prelude.Maps.{lookup, insert}
use ziran_os.Bridge.Config.{Config, or_default}

-- `now - t < RATE_WINDOW_MS`, with the subtraction moved over so that it is exact.
abbrev pub in_window : Config → ℕ → ℕ → Bool
in_window c now t = ltb now (t + c.rate_window_ms)

abbrev pub hits_of : String → List (String × List ℕ) → List ℕ
hits_of ip table = or_default (lookup ip table) []

unfoldable pub rate_limited :
    Config → ℕ → String → List (String × List ℕ) → Bool × List (String × List ℕ)
rate_limited c now ip table =
    let hits = keep (in_window c now) (hits_of ip table) ++ now ∷ [] in
    (ltb c.rate_max (length hits), insert ip hits table)

abbrev pub hour_ms : ℕ
hour_ms = 3_600_000

-- The loop that shifts old entries: `now - spawnTimes[0] > 3_600_000`.
unfoldable pub drop_old : ℕ → List ℕ → List ℕ
drop_old now [] = []
drop_old now (t ∷ ts) = if ltb (t + hour_ms) now then drop_old now ts else t ∷ ts

unfoldable pub over_hourly_budget : Config → ℕ → List ℕ → Bool × List ℕ
over_hourly_budget c now times =
    let left = drop_old now times in (leb c.hourly_budget (length left), left)
