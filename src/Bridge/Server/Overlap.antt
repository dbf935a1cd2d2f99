-- ===== src/Bridge/Server/Overlap.antt =====
-- Connections that overlap in the human check: the caps are tested before the wait and not again
-- after it.
use text.Mathlib.TextEquality.{eq_iff}
use ziran_os.Prelude.{
  ℕ, zero, suc, ◌+◌, ◌≤◌, ◌<◌, ◌≡◌, refl, ap, String, true, false, Option, some, List, [], ◌∷◌,
  ◌++◌, All, keep, length, length-append, length-keep-le, arith,
}
use ziran_os.Prelude.Maps.{lookup-insert}
use ziran_os.Bridge.Config.{Config, truthy, or_default}
use ziran_os.Bridge.Limits.{hits_of, in_window, rate_limited, over_hourly_budget, drop_old}
use ziran_os.Bridge.Session.{Host}
use ziran_os.Bridge.Server.Counts.{live_at-insert}
use ziran_os.Bridge.Server.{
  World, Pending, Event, connect, verified, Visitor, live_at, find_pending, drop_pending,
  on_connect, on_verified, step, run,
}

abbrev pub connects : List Visitor → List Event
connects [] = []
connects (v ∷ vs) = connect v ∷ connects vs

-- The answers of the human check to the connections `k`, `k + 1`, …, all positive and on open
-- sockets, each at its time and with the random bytes of its flag.
abbrev pub all_verified : ℕ → List (ℕ × List ℕ) → List Event
all_verified k [] = []
all_verified k ((now, random) ∷ rest) =
    verified k (some true) true now random ∷ all_verified (suc k) rest

-- The `n` connections from `k` on, all of one address.
abbrev waiting : String → ℕ → ℕ → List Pending
waiting ip zero k = []
waiting ip (suc n) k = record { id = k; ip = ip } ∷ waiting ip n (suc k)

waiting-snoc :
    (ip : String) (n k m : ℕ)
    → m ≡ k + n
    → waiting ip n k ++ record { id = m; ip = ip } ∷ [] ≡ waiting ip (suc n) k
waiting-snoc ip zero k m e = ground arith
waiting-snoc ip (suc n) k m e =
    ap (◌∷◌ (record { id = k; ip = ip })) (waiting-snoc ip n (suc k) m (omega arith))

-- A connection of an address that comes with a token while the bridge is not paused.
pub record Comes (ip : String) (v : Visitor) : Type 0 where
  pub same_ip : v.ip ≡ ip
  pub unpaused : v.is_paused ≡ false
  pub has_token : truthy (or_default v.token "") ≡ true

length-drop_old : (now : ℕ) (ts : List ℕ) → length (drop_old now ts) ≤ length ts
unfolding drop_old
length-drop_old now [] = omega arith
length-drop_old now (t ∷ ts) = ground (arith, length-drop_old now ts)

module _ (h : Host) (c : Config) (honey : Option String) (ip : String) (w0 : World) where
  -- The bridge, once `n` connections have come to `w0` and wait for the human check.
  record Waiting (n : ℕ) (w : World) : Type 0 where
    same_live : w.live ≡ w0.live
    same_live_at : live_at w ip ≡ live_at w0 ip
    spawns : length w.spawn_times ≤ length w0.spawn_times
    hits : length (hits_of ip w.rate_hits) ≤ length (hits_of ip w0.rate_hits) + n
    queue : w.pending ≡ waiting ip n w0.next_id
    fresh : w.next_id ≡ w0.next_id + n

  run-append :
      (w : World) (es fs : List Event)
      → run h c honey w (es ++ fs) ≡ run h c honey (run h c honey w es) fs
  unfolding run
  run-append w [] fs = refl
  run-append w (e ∷ es) fs = run-append (step h c honey w e).0 es fs

  verified-live :
      (k now : ℕ) (random : List ℕ) (w : World) (rest : List Pending)
      → w.pending ≡ record { id = k; ip = ip } ∷ rest
      → let w' = (on_verified h c honey w k true true now random).0 in
        (w'.live ≡ w.live + 1) × (live_at w' ip ≡ live_at w ip + 1) × (w'.pending ≡ rest)
  unfolding on_verified find_pending drop_pending
  verified-live k now random w rest e =
      ground (arith, eq_iff ip ip, live_at-insert ip ip (live_at w ip + 1) w.live_per_ip)

  all_verified-live :
      (answers : List (ℕ × List ℕ)) (k : ℕ) (w : World)
      → w.pending ≡ waiting ip (length answers) k
      → let w' = run h c honey w (all_verified k answers) in
        (w'.live ≡ w.live + length answers) × (live_at w' ip ≡ live_at w ip + length answers)
  unfolding run step
  all_verified-live [] k w e = omega arith
  all_verified-live ((now, random) ∷ rest) k w e =
      let w' = (on_verified h c honey w k true true now random).0 in
      let one = verified-live k now random w (waiting ip (length rest) (suc k)) e in
      omega (arith, one.0, one.1, all_verified-live rest (suc k) w' one.2)

  hits_of-rate_limited :
      (now : ℕ) (table : List (String × List ℕ))
      → hits_of ip (rate_limited c now ip table).1
        ≡ keep (in_window c now) (hits_of ip table) ++ now ∷ []
  unfolding rate_limited
  hits_of-rate_limited now table = ground (
    arith,
    eq_iff ip ip,
    lookup-insert ip ip (keep (in_window c now) (hits_of ip table) ++ now ∷ []) table,
  )

  length-hits :
      (now : ℕ) (table : List (String × List ℕ))
      → length (keep (in_window c now) (hits_of ip table) ++ now ∷ [])
        ≤ suc (length (hits_of ip table))
  length-hits now table = omega (
    arith,
    length-append (keep (in_window c now) (hits_of ip table)) (now ∷ []),
    length-keep-le (in_window c now) (hits_of ip table),
  )

  module _ (has_secret : truthy c.turnstile_secret ≡ true) (some_room : w0.live < c.max_concurrent)
      (some_room_at : live_at w0 ip < c.max_per_ip)
      (some_budget : length w0.spawn_times < c.hourly_budget) where
    connect-Waiting :
        (v : Visitor) (n : ℕ) (w : World)
        → Comes ip v
        → length (hits_of ip w0.rate_hits) + n < c.rate_max
        → Waiting n w
        → Waiting (suc n) (on_connect h c honey w v).0
    unfolding on_connect over_hourly_budget rate_limited
    connect-Waiting v n w a le q = ground (
      arith,
      length-hits v.now w.rate_hits,
      hits_of-rate_limited v.now w.rate_hits,
      length-drop_old v.now w.spawn_times,
      waiting-snoc ip n w0.next_id w.next_id,
    )

    connects-Waiting :
        (vs : List Visitor) (n : ℕ) (w : World)
        → All (Comes ip) vs
        → length (hits_of ip w0.rate_hits) + (n + length vs) ≤ c.rate_max
        → Waiting n w
        → Waiting (n + length vs) (run h c honey w (connects vs))
    unfolding run step
    connects-Waiting [] n w all le q = let e : n + 0 ≡ n = omega arith in rw e q
    connects-Waiting (v ∷ vs) n w (a, all) le q =
        let e : n + suc (length vs) ≡ suc n + length vs = omega arith in
        rw e (
          connects-Waiting vs (suc n) (on_connect h c honey w v).0 all (omega arith)
            (connect-Waiting v n w a (omega arith) q))

    -- The caps are not checked again after the human check. Take a bridge, with a TURNSTILE_SECRET,
    -- in any state where no human check is under way, fewer than MAX_CONCURRENT sessions are live and
    -- fewer than MAX_PER_IP of one address, fewer spawns are noted than the hourly budget, and the
    -- hits noted of that address and the new connections together are at most RATE_MAX. When the new
    -- connections, all of that address, at any times and each with a token, come while the bridge is
    -- not paused and before the first human check answers, and then the checks of all of them answer
    -- well on open sockets, in the order of the connections, each adds one to the number of live
    -- sessions and to that of the address, also where this exceeds MAX_CONCURRENT or MAX_PER_IP.
    pub overlap-live :
        (vs : List Visitor) (answers : List (ℕ × List ℕ))
        → All (Comes ip) vs
        → length answers ≡ length vs
        → w0.pending ≡ []
        → length (hits_of ip w0.rate_hits) + length vs ≤ c.rate_max
        → let w = run h c honey w0 (connects vs ++ all_verified w0.next_id answers) in
          (w.live ≡ w0.live + length vs) × (live_at w ip ≡ live_at w0 ip + length vs)
    overlap-live vs answers all same idle le =
        let w = run h c honey w0 (connects vs) in
        let q = connects-Waiting vs 0 w0 all (omega arith) (record {
          same_live = refl;
          same_live_at = refl;
          spawns = omega arith;
          hits = omega arith;
          queue = idle;
          fresh = omega arith;
        }) in
        let e : 0 + length vs ≡ length answers = omega (arith, same) in
        let q' : Waiting (length answers) w = rw e at q in
        rw (run-append w0 (connects vs) (all_verified w0.next_id answers)) (
          omega (
            arith,
            all_verified-live answers w0.next_id w q'.queue,
            q'.same_live,
            q'.same_live_at,
            same,
          ))
