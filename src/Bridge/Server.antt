-- ===== src/Bridge/Server.antt =====
-- The connection handler of ctf-server/bridge.mjs over the shared counters. An event is what the
-- Node event loop hands to one callback; the `await` of `verifyTurnstile` splits the handler in two
-- when there is a secret, and other events may come in between. Without a secret the handler goes on
-- before any other event.
pub mod Cases
pub mod Counts
pub mod Caps
pub mod Overlap
use ziran_os.Prelude.{
  ℕ, ◌+◌, ◌-◌, String, Bool, true, false, not, Option, none, some, List, [], ◌∷◌, ◌++◌, ltb, leb,
  ◌==◌, if◌then◌else◌,
}
use ziran_os.Prelude.Maps.{lookup, insert}
use ziran_os.Bridge.Config.{Config, truthy, or_default}
use ziran_os.Bridge.Limits.{rate_limited, over_hourly_budget}
use ziran_os.Bridge.Qemu.{mint_flag}
use ziran_os.Bridge.Session.{
  Host, Socket, Session, Arrival, Effect, kill, close, on_message, on_guest_data, on_hard_timer,
  on_idle_timer,
}

-- A connection that waits for the human check.
pub record Pending : Type 0 where
  pub id : ℕ
  pub ip : String

pub record World : Type 0 where
  pub live : ℕ
  pub spawned : ℕ
  pub rejected : ℕ
  pub live_per_ip : List (String × ℕ)
  pub rate_hits : List (String × List ℕ)
  pub spawn_times : List ℕ
  pub pending : List Pending
  pub sessions : List Session
  pub next_id : ℕ

unfoldable pub start : World
start = record {
  live = 0;
  spawned = 0;
  rejected = 0;
  live_per_ip = [];
  rate_hits = [];
  spawn_times = [];
  pending = [];
  sessions = [];
  next_id = 0;
}

-- `req.headers['cf-connecting-ip'] || req.socket.remoteAddress || '?'`
unfoldable pub client_ip : Option String → Option String → String
client_ip header remote =
    let second = (let r = or_default remote "" in if truthy r then r else "?") in
    let first = or_default header "" in if truthy first then first else second

pub data Reason : Type 0 where
  paused over_budget rate_limit busy per_ip not_human : Reason

abbrev pub reason_text : Reason → String
reason_text paused = "paused for maintenance"
reason_text over_budget = "hourly capacity reached"
reason_text rate_limit = "rate limited — slow down"
reason_text busy = "server busy, try again"
reason_text per_ip = "too many sessions from your IP"
reason_text not_human = "human check failed"

-- What `verifyTurnstile` does before it waits: it allows, it denies, or it asks Cloudflare.
pub data Gate : Type 0 where
  allow ask deny : Gate

abbrev pub verify_turnstile : Config → Option String → Gate
verify_turnstile c token =
    if not (truthy c.turnstile_secret)
    then allow
    else if truthy (or_default token "")
    then ask
    else deny

-- What it makes of the answer: `none` stands for a request or a reply that failed, or for a reply
-- with no Boolean `success`.
abbrev pub turnstile_answer : Option Bool → Bool
turnstile_answer none = false
turnstile_answer (some success) = success

-- A connection as it arrives: when, whether the bridge is paused, its address and token, whether
-- its socket is still open when the handler goes on, and the random bytes of its flag.
pub record Visitor : Type 0 where
  pub now : ℕ
  pub is_paused : Bool
  pub ip : String
  pub token : Option String
  pub ready : Bool
  pub random : List ℕ

pub data Event : Type 0 where
  connect : Visitor → Event
  verified : (id : ℕ) (answer : Option Bool) (ready : Bool) (now : ℕ) (random : List ℕ) → Event
  message : ℕ → Arrival → Event
  guest_data : ℕ → Socket → List ℕ → Event
  hard_timer idle_timer guest_exit ws_close ws_error : ℕ → Event

abbrev pub refuse : World → Reason → World × List Effect
refuse w r = (record w { rejected = w.rejected + 1 }, close 1013 (reason_text r) ∷ [])

-- The live sessions of an address: `livePerIp.get(ip) ?? 0`.
abbrev pub live_at : World → String → ℕ
live_at w ip = or_default (lookup ip w.live_per_ip) 0

unfoldable pub find_session : ℕ → List Session → Option Session
find_session id [] = none
find_session id (s ∷ ss) = if s.id == id then some s else find_session id ss

unfoldable pub put_session : ℕ → Session → List Session → List Session
put_session id s' [] = []
put_session id s' (s ∷ ss) = if s.id == id then s' ∷ ss else s ∷ put_session id s' ss

unfoldable pub find_pending : ℕ → List Pending → Option Pending
find_pending id [] = none
find_pending id (p ∷ ps) = if p.id == id then some p else find_pending id ps

unfoldable pub drop_pending : ℕ → List Pending → List Pending
drop_pending id [] = []
drop_pending id (p ∷ ps) = if p.id == id then ps else p ∷ drop_pending id ps

module _ (h : Host) (c : Config) (honey : Option String) where
  -- The checks before the human gate, cheapest first, with what they leave in the tables.
  unfoldable pub admission : World → Visitor → World × Option Reason
  admission w v =
      if v.is_paused
      then (w, some paused)
      else (let (over, times) = over_hourly_budget c v.now w.spawn_times in
          let w1 = record w { spawn_times = times } in
          if over
          then (w1, some over_budget)
          else (let (limited, hits) = rate_limited c v.now v.ip w.rate_hits in
              let w2 = record w1 { rate_hits = hits } in
              if limited
              then (w2, some rate_limit)
              else if leb c.max_concurrent w.live
              then (w2, some busy)
              else if leb c.max_per_ip (live_at w v.ip)
              then (w2, some per_ip)
              else (w2, none)))

  -- Reserve a slot, spawn the QEMU, start the timers.
  unfoldable pub reserve : World → ℕ → String → ℕ → List ℕ → World
  reserve w id ip now random = record w {
    live = w.live + 1;
    spawned = w.spawned + 1;
    live_per_ip = insert ip (live_at w ip + 1) w.live_per_ip;
    spawn_times = w.spawn_times ++ now ∷ [];
    sessions =
        record {
          id = id;
          ip = ip;
          flag_hash = h.sha256 (mint_flag random);
          in_bytes = 0;
          submits = 0;
          cleaned = false;
          hard_at = some (now + c.session_ms);
          idle_at = some (now + c.idle_ms);
        }
        ∷ w.sessions;
  }

  -- The handler from its start to the end, or to the wait for the human check.
  unfoldable pub on_connect : World → Visitor → World × List Effect
  unfolding admission reserve
  on_connect w0 v =
      let w = record w0 { next_id = w0.next_id + 1 } in
      let (w', why) = admission w v in
      elim why [
        | some r ↦ refuse w' r
        | none ↦ elim (verify_turnstile c v.token) [
          | allow ↦ (if v.ready then reserve w' w0.next_id v.ip v.now v.random else w', [])
          | ask ↦
              (record w' { pending = w'.pending ++ record { id = w0.next_id; ip = v.ip } ∷ [] }, [])
          | deny ↦ refuse w' not_human
        ]
      ]

  -- The rest of the handler, once the human check has answered.
  unfoldable pub on_verified : World → ℕ → Bool → Bool → ℕ → List ℕ → World × List Effect
  unfolding reserve
  on_verified w id passed ready now random = elim (find_pending id w.pending) [
    | none ↦ (w, [])
    | some p ↦
        let w' = record w { pending = drop_pending id w.pending } in
        if not passed
        then refuse w' not_human
        else (if ready then reserve w' id p.ip now random else w', [])
  ]

  -- `cleanup`: once for each session, whatever ends it first.
  unfoldable pub cleanup : World → ℕ → World × List Effect
  cleanup w id = elim (find_session id w.sessions) [
    | none ↦ (w, [])
    | some s ↦ if s.cleaned then (w, []) else (
      record w {
        live = w.live - 1;
        live_per_ip = insert s.ip (or_default (lookup s.ip w.live_per_ip) 1 - 1) w.live_per_ip;
        sessions =
            put_session id (record s { cleaned = true; hard_at = none; idle_at = none }) w.sessions;
      },
      kill ∷ [],
    )
  ]

  -- Run a handler of one session.
  abbrev pub in_session : World → ℕ → (Session → Session × List Effect) → World × List Effect
  in_session w id handler = elim (find_session id w.sessions) [
    | none ↦ (w, [])
    | some s ↦
        let (s', es) = handler s in (record w { sessions = put_session id s' w.sessions }, es)
  ]

  unfoldable pub step : World → Event → World × List Effect
  unfolding on_connect on_verified cleanup
  step w (connect v) = on_connect w v
  step w (verified id answer ready now random) =
      on_verified w id (turnstile_answer answer) ready now random
  step w (message id a) = in_session w id (λ s. on_message h c honey s a)
  step w (guest_data id sock d) = in_session w id (λ s. (s, on_guest_data c sock d))
  step w (hard_timer id) = in_session w id on_hard_timer
  step w (idle_timer id) = in_session w id on_idle_timer
  step w (guest_exit id) = let (w', es) = cleanup w id in (w', close 1000 "guest halted" ∷ es)
  step w (ws_close id) = cleanup w id
  step w (ws_error id) = cleanup w id

  -- The world after some events.
  unfoldable pub run : World → List Event → World
  run w [] = w
  run w (e ∷ es) = run (step w e).0 es
